-- ===== src/Kernel/SystemCalls.antt =====
-- `sys_sendrec` and `sys_sendint` of kernel/system_calls.c.
pub mod Delivery
pub mod Interrupts
use mini_operate_system.Prelude.{
  ℕ, Bool, true, false, ◌&&◌, ◌||◌, ◌==◌, ltb, negate, if◌then◌else◌, update,
}
use mini_operate_system.Kernel.Process.{Peer, proc, no_task, any, interrupt, is_runnable, nr_all}
use mini_operate_system.Kernel.System.{
  Message, ok, wild, M, ◌>>=◌, ◌>>◌, assert, get, modify, panic, address, unblock,
}
use mini_operate_system.Kernel.Ipc.{is_proc, is_any, is_interrupt, is_no_task, msg_send}
use mini_operate_system.Kernel.Ipc.Receive.{msg_receive}

-- `(0 <= src_dest && NR_TASKS+NR_PROCS > src_dest) || ANY == src_dest || INTERRUPT == src_dest`.
abbrev pub in_range : Peer → Bool
in_range (proc i) = ltb i nr_all
in_range no_task = false
in_range any = true
in_range interrupt = true

-- `mla->source = caller`.
abbrev pub set_source : ℕ → ℕ → M (Unit {0})
set_source caller msg s =
    let a = address s.table caller msg in
    ok tt (record s { mem = update s.mem a (record (s.mem a) { source = proc caller }) })

-- `sys_sendrec`, with SEND = 1 and RECEIVE = 2. A send to ANY or INTERRUPT passes the assertion and
-- indexes the process table with a negative number.
unfoldable pub sys_sendrec : ℕ → Peer → ℕ → ℕ → M (Unit {0})
sys_sendrec function src_dest p msg = do
  (λ s. assert (s.k_reenter == 0) s)
  assert (in_range src_dest)
  set_source p msg
  assert (negate (is_proc src_dest p))
  if function == 1
      then elim src_dest [ proc dest ↦ msg_send p dest msg | _ ↦ (λ s. wild) ]
      else if function == 2
      then msg_receive p src_dest msg
      else panic

-- The write of the interrupt's message to the address that the receiver waits with. `msg` is a
-- virtual address of process `p`, the interrupted one.
abbrev pub copy_interrupt : ℕ → ℕ → ℕ → M (Unit {0})
copy_interrupt p msg dest s =
    let target = address s.table dest (s.table dest).p_msg in
    ok tt (record s { mem = update s.mem target (s.mem (address s.table p msg)) })

-- `sys_sendint`. The interrupt handler's own segment starts at 0, so `msg->source` is read at the
-- linear address `msg`.
unfoldable pub sys_sendint : ℕ → ℕ → ℕ → M (Unit {0})
sys_sendint dest p msg = do
  (λ s. assert (ltb 0 s.k_reenter) s)
  assert (ltb dest nr_all)
  (λ s. assert (is_interrupt (s.mem msg).source) s)
  d ← get dest
  if d.receiving && (is_interrupt d.p_recvfrom || is_any d.p_recvfrom)
      then (do
        modify dest (λ d. record d { has_int_msg = false })
        copy_interrupt p msg dest
        modify dest (λ d. record d { receiving = false; p_recvfrom = no_task })
        unblock dest
        d ← get dest
        assert (is_runnable d)
        assert (is_no_task d.p_recvfrom)
        assert (is_no_task d.p_sendto))
      else modify dest (λ d. record d { has_int_msg = true })

-- HARD_INT.
abbrev pub hard_int : ℕ
hard_int = 1

-- `inform_int`, which interrupt handlers call; `msg` is where its message lies on their stack.
unfoldable pub inform_int : ℕ → ℕ → ℕ → M (Unit {0})
inform_int dest p msg s =
    let m : Message = record (s.mem msg) { source = interrupt; type = hard_int } in
    sys_sendint dest p msg (record s { mem = update s.mem msg m })
