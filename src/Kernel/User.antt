-- ===== src/Kernel/User.antt =====
-- Processes that run: `send_recv` and `reset_msg` of kernel/ipc.c in the program of a process, and
-- the machine on which the programs of all processes take turns.
pub mod Api
pub mod Tasks
pub mod Turns
pub mod Asked
pub mod Ticks
pub mod Rounds
pub mod Delay
use mini_operate_system.Prelude.{
  ℕ, ◌==◌, Option, none, some, List, [], ◌∷◌, if◌then◌else◌, update, pos,
}
use mini_operate_system.Kernel.Process.{Peer, proc, no_task, is_runnable}
use mini_operate_system.Kernel.System.{Message, System, ok, halt, hang, wild, address}
use mini_operate_system.Kernel.SystemCalls.{sys_sendrec}

-- The program of a process that has one MESSAGE, and what remains of it: it writes fields of the
-- message, reads them, makes the system call `sendrec`, or reads the global `ticks`. `fault` is a
-- failed assertion or a panic.
pub data Program (A : Type 0) : Type 0 where
  done : A → Program A
  write : (Message → Message) → Program A → Program A
  read : (Message → Program A) → Program A
  sendrec : ℕ → Peer → Program A → Program A
  read_ticks : (ℕ → Program A) → Program A
  fault : Program A

-- A message of zeros. The source 0 is process 0.
abbrev pub zero_message : Message
zero_message = record {
  source = proc 0;
  type = 0;
  retval = pos 0;
  device = 0;
  cnt = pos 0;
  proc_nr = 0;
  request = 0;
  flags = 0;
  name_len = 0;
  fd = pos 0;
  pathname = 0;
  position = 0;
  buf = 0;
}

abbrev pub reset_msg : {A : Type 0} → Program A → Program A
reset_msg k = write (λ m. zero_message) k

-- SEND, RECEIVE and BOTH of include/ipc.h.
abbrev pub send_function : ℕ
send_function = 1

abbrev pub receive_function : ℕ
receive_function = 2

abbrev pub both_function : ℕ
both_function = 3

-- `send_recv`. The system call returns 0 whenever it returns.
abbrev pub send_recv : {A : Type 0} → ℕ → Peer → Program A → Program A
send_recv function src_dest k =
    if function == receive_function
    then reset_msg (sendrec receive_function src_dest k)
    else if function == both_function
    then sendrec send_function src_dest (sendrec receive_function src_dest k)
    else if function == send_function
    then sendrec send_function src_dest k
    else fault

-- The kernel, the clock's count, and for each process the virtual address of its message and the
-- rest of its program.
pub record Machine (A : Type 0) : Type 0 where
  pub kernel : System
  pub ticks : ℕ
  pub buffer : ℕ → ℕ
  pub program : ℕ → Program A

-- Where the message of process `p` lies.
abbrev pub place : {A : Type 0} → Machine A → ℕ → ℕ
place x p = address x.kernel.table p (x.buffer p)

-- The next instruction of process `p`, the current one; `none` where it has none or stops the
-- machine. A process that a system call suspends goes on behind the call.
unfoldable pub instruction : {A : Type 0} → ℕ → Program A → Machine A → Option (Machine A)
instruction p (done a) x = none
instruction p (write f k) x =
    let s = x.kernel in
    let a = place x p in
    some (record x {
      kernel = record s { mem = update s.mem a (f (s.mem a)) };
      program = update x.program p k;
    })
instruction p (read k) x =
    some (record x { program = update x.program p (k (x.kernel.mem (place x p))) })
instruction p (sendrec function peer k) x =
    elim (sys_sendrec function peer p (x.buffer p) x.kernel) [
      | ok _ s ↦ some (record x { kernel = s; program = update x.program p k })
      | halt ↦ none
      | hang ↦ none
      | wild ↦ none
    ]
instruction p (read_ticks k) x = some (record x { program = update x.program p (k x.ticks) })
instruction p fault x = none

-- A turn of process `p`: the clock interrupt may have made any runnable process the current one.
unfoldable pub turn : {A : Type 0} → ℕ → Machine A → Option (Machine A)
turn p x =
    if is_runnable (x.kernel.table p)
    then instruction p (x.program p) (record x { kernel = record x.kernel { current = p } })
    else none

-- Turns in the order of the list.
unfoldable pub turns : {A : Type 0} → List ℕ → Machine A → Option (Machine A)
turns [] x = some x
turns (p ∷ ps) x = elim (turn p x) [ none ↦ none | some y ↦ turns ps y ]
