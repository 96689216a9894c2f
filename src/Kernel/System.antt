-- ===== src/Kernel/System.antt =====
-- The kernel's state while it serves a system call, messages in memory, assertions and panics
-- (include/process.h, include/ipc.h, lib/page.c, kernel/ipc.c).
use mini_operate_system.Prelude.{◌≡◌, ℕ, ℤ, Bool, true, false, none, some, if◌then◌else◌, update}
use mini_operate_system.Kernel.Protect.{descriptor_base, vir2linear}
use mini_operate_system.Kernel.Process.{Process, task, user, Peer, is_runnable}
use mini_operate_system.Kernel.Schedule.{Table, schedule}

-- `MESSAGE`, without the union `u`, which no code reads or writes.
pub record Message : Type 0 where
  pub source : Peer
  pub type : ℕ
  pub retval : ℤ
  pub device : ℕ
  pub cnt : ℤ
  pub proc_nr : ℕ
  pub request : ℕ
  pub flags : ℕ
  pub name_len : ℕ
  pub fd : ℤ
  pub pathname : ℕ
  pub position : ℕ
  pub buf : ℕ

-- `mem` gives the message that lies at a linear address; messages do not overlap in part.
pub record System : Type 0 where
  pub table : Table
  pub current : ℕ
  pub k_reenter : ℕ
  pub mem : ℕ → Message

-- How kernel code ends: it returns a value; an assertion or a panic stops the machine; it loops
-- for ever; or it reads outside the process table.
pub data Run (A : Type 0) : Type 0 where
  ok : A → System → Run A
  halt hang wild : Run A

abbrev pub M : Type 0 → Type 0
M A = System → Run A

infixl 5 ◌>>=◌ ◌>>◌
abbrev pub ◌>>=◌ : {A B : Type 0} → M A → (A → M B) → M B
◌>>=◌ m f s = elim (m s) [ ok a s' ↦ f a s' | halt ↦ halt | hang ↦ hang | wild ↦ wild ]

abbrev pub ◌>>◌ : {B : Type 0} → M (Unit {0}) → M B → M B
m >> k = m >>= λ _. k

abbrev pub pure : {A : Type 0} → A → M A
pure a s = ok a s

-- `assert(exp)`: `assertion_failure` does not return.
abbrev pub assert : Bool → M (Unit {0})
assert true s = ok tt s
assert false s = halt

-- A read of `proc_table[i]`.
abbrev pub get : ℕ → M Process
get i s = ok (s.table i) s

-- An assignment to fields of `proc_table[i]`.
abbrev pub modify : ℕ → (Process → Process) → M (Unit {0})
modify i f s = ok tt (record s { table = update s.table i (f (s.table i)) })

-- `panic` prints through `sys_printx`, which stops the machine if the current process is a task
-- and returns if it is a user process.
abbrev pub panic : M (Unit {0})
panic s = elim (s.table s.current).proc_type [ task ↦ halt | user ↦ ok tt s ]

-- `vir2linear(ldt_proc_id2base(proc_id), vir)` for an index of the table.
unfoldable pub address : Table → ℕ → ℕ → ℕ
unfolding descriptor_base vir2linear
address t proc_id vir = vir2linear (descriptor_base (t proc_id).ldt_ds) vir

-- `kmemcpy` of one MESSAGE from `vir` of process `from` to `vir'` of process `to`.
abbrev pub copy_message : ℕ → ℕ → ℕ → ℕ → M (Unit {0})
copy_message from vir to vir' s =
    ok tt
      (record s { mem = update s.mem (address s.table to vir') (s.mem (address s.table from vir)) })

-- `block`: the process has been given a flag, and another one is chosen.
unfoldable pub block : ℕ → M (Unit {0})
block p s = if is_runnable (s.table p) then halt else elim (schedule s.table s.current) [
  | none ↦ hang
  | some (t, current') ↦ ok tt (record s { table = t; current = current' })
]

-- `unblock` only asserts that the flags are gone.
unfoldable pub unblock : ℕ → M (Unit {0})
unblock p s = assert (is_runnable (s.table p)) s

pub block-ok :
    (s : System) (p : ℕ) (r : Table × ℕ)
    → is_runnable (s.table p) ≡ false
    → schedule s.table s.current ≡ some r
    → block p s ≡ ok tt (record s { table = r.0; current = r.1 })
unfolding block
block-ok s p r busy chosen = rw (busy, chosen)
