-- ===== src/Kernel/Process.antt =====
-- The process table of include/process.h and the kernel's globals (kernel/global.c) that
-- scheduling and message passing use.
use mini_operate_system.Prelude.{ℕ, ℤ, Bool, Option, negate, ◌&&◌}
use mini_operate_system.Kernel.Protect.{Descriptor}

-- `proc_type`.
pub data ProcType : Type 0 where
  task user : ProcType

-- Whom a process sends to or receives from: an index into the process table, or one of the
-- negative constants NO_TASK, ANY and INTERRUPT of include/ipc.h.
pub data Peer : Type 0 where
  proc : ℕ → Peer
  no_task any interrupt : Peer

-- The fields of `PROCESS` that scheduling and message passing read and write. The only bits of
-- `p_flags` are SENDING and RECEIVING, a field each. `q_sending` and `next_sending` point into the
-- process table: `none` is the null pointer, `some i` is `proc_table + i`. `p_msg` is a virtual
-- address, 0 the null pointer. `ldt_ds` is `ldts[SELECTOR_KERNEL_DS >> 3]`.
pub record Process : Type 0 where
  pub ldt_ds : Descriptor
  pub priority : ℤ
  pub ticks : ℤ
  pub proc_type : ProcType
  pub sending : Bool
  pub receiving : Bool
  pub p_msg : ℕ
  pub p_recvfrom : Peer
  pub p_sendto : Peer
  pub has_int_msg : Bool
  pub q_sending : Option ℕ
  pub next_sending : Option ℕ

abbrev pub nr_tasks : ℕ
nr_tasks = 4

abbrev pub nr_procs : ℕ
nr_procs = 3

-- NR_TASKS + NR_PROCS, the size of the process table.
abbrev pub nr_all : ℕ
nr_all = 7

-- `p_flags == 0`.
abbrev pub is_runnable : Process → Bool
is_runnable p = negate p.sending && negate p.receiving
