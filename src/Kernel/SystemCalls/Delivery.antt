-- ===== src/Kernel/SystemCalls/Delivery.antt =====
-- A message that goes through `sys_sendrec` of kernel/system_calls.c to a process that waits for it.
use mini_operate_system.Prelude.{ℕ, ◌<◌, ◌≡◌, ◌≢◌, ◌∙◌, arith, true, false, ◌==◌, ltb, update}
use mini_operate_system.Kernel.Process.{proc, nr_all, is_runnable}
use mini_operate_system.Kernel.System.{System, Message, address, ok, ◌>>=◌, ◌>>◌}
use mini_operate_system.Kernel.Ipc.{awaits}
use mini_operate_system.Kernel.Ipc.Mail.{Boxes}
use mini_operate_system.Kernel.Ipc.Send.{delivered}
use mini_operate_system.Kernel.Ipc.Sent.{IsKernel, msg_send-delivered}
use mini_operate_system.Kernel.SystemCalls.{sys_sendrec}

pub update_same : (f : ℕ → Message) (i : ℕ) (v : Message) → update f i v i ≡ v
update_same f i v = ground arith

-- A runnable process that sends, by the system call with the function SEND, to a process that waits
-- for its message: the call returns, the receiver is runnable and finds the message at the address
-- that it gave, with the sender's number as its source and the rest as the sender wrote it, and the
-- mailboxes are as before.
pub sys_sendrec-delivered :
    (s : System) (q : Boxes) (sender dest m : ℕ)
    → IsKernel s.table q
    → sender < nr_all
    → dest < nr_all
    → sender ≢ dest
    → m ≢ 0
    → is_runnable (s.table sender) ≡ true
    → s.k_reenter ≡ 0
    → awaits (s.table dest) sender ≡ true
    → (s' : System) × (sys_sendrec 1 (proc dest) sender m s ≡ ok tt s')
      × (s'.mem (address s.table dest (s.table dest).p_msg)
          ≡ record (s.mem (address s.table sender m)) { source = proc sender })
      × IsKernel s'.table q
      × (is_runnable (s'.table dest) ≡ true)
unfolding sys_sendrec
sys_sendrec-delivered s q sender dest m k lt lt' other given run entry waits =
    let a = address s.table sender m in
    let s1 : System = record s {
      mem = update s.mem a (record (s.mem a) { source = proc sender });
    } in
    let (sent, kernel, awake) =
      msg_send-delivered s1 q sender dest m k lt lt' other given run waits in
    let first : (s.k_reenter == 0) ≡ true = ground arith in
    let range : ltb dest nr_all ≡ true = ground arith in
    let self : (dest == sender) ≡ false = ground arith in
    (
      delivered s1 sender dest m,
      rw (first, range, self, ◌>>=◌, ◌>>◌) sent,
      update_same s1.mem (address s.table dest (s.table dest).p_msg) (s1.mem a)
          ∙ update_same s.mem a (record (s.mem a) { source = proc sender }),
      kernel,
      awake,
    )
