-- ===== src/Kernel/User/Turns.antt =====
-- What the turns of a process do, by its next instruction.
use mini_operate_system.Prelude.{
  ℕ, ◌<◌, ◌≡◌, ◌≢◌, refl, inl, inr, arith, true, false, ◌==◌, Option, some, List, [], ◌∷◌, ◌++◌,
  ltb, update, Option-cases,
}
use mini_operate_system.Kernel.Process.{proc, any, nr_all, is_runnable}
use mini_operate_system.Kernel.System.{Message, System, ok, ◌>>=◌, ◌>>◌}
use mini_operate_system.Kernel.Ipc.{msg_send}
use mini_operate_system.Kernel.Ipc.Receive.{msg_receive}
use mini_operate_system.Kernel.SystemCalls.{sys_sendrec}
use mini_operate_system.Kernel.User.{
  Program, write, read, sendrec, read_ticks, Machine, place, instruction, turn, turns,
  send_function, receive_function,
}

pub turns-cons :
    {A : Type 0} (p : ℕ) (ps : List ℕ) (x y : Machine A) {z : Option (Machine A)}
    → turn p x ≡ some y
    → turns ps y ≡ z
    → turns (p ∷ ps) x ≡ z
unfolding turns
turns-cons p ps x y first later = rw (turns, first) later

pub turns-append :
    {A : Type 0} (ps qs : List ℕ) (x y : Machine A) {z : Option (Machine A)}
    → turns ps x ≡ some y
    → turns qs y ≡ z
    → turns (ps ++ qs) x ≡ z
unfolding turns
turns-append [] qs x y first later = let e : x ≡ y = cc in rw e later
turns-append (p ∷ ps) qs x y first later = elim (Option-cases (turn p x)) [
  | inl e ↦ let first' = rw (turns, e) at first in cc
  | inr (x1, e) ↦ rw (turns, e) (turns-append ps qs x1 y (rw (turns, e) at first) later)
]

-- `mla->source = caller`, with the caller the current process.
abbrev pub called : {A : Type 0} → Machine A → ℕ → System
called x p =
    let a = place x p in
    record x.kernel {
      current = p;
      mem = update x.kernel.mem a (record (x.kernel.mem a) { source = proc p });
    }

module _ {A : Type 0} (p : ℕ) (x : Machine A) (run : is_runnable (x.kernel.table p) ≡ true) where
  pub turn-write :
      (f : Message → Message) (k : Program A)
      → x.program p ≡ write f k
      → turn p x
        ≡ some (record x {
          kernel = record x.kernel {
            current = p;
            mem = update x.kernel.mem (place x p) (f (x.kernel.mem (place x p)));
          };
          program = update x.program p k;
        })
  unfolding turn instruction
  turn-write f k e = rw (run, e) refl

  pub turn-read :
      (k : Message → Program A)
      → x.program p ≡ read k
      → turn p x
        ≡ some (record x {
          kernel = record x.kernel { current = p };
          program = update x.program p (k (x.kernel.mem (place x p)));
        })
  unfolding turn instruction
  turn-read k e = rw (run, e) refl

  pub turn-read_ticks :
      (k : ℕ → Program A)
      → x.program p ≡ read_ticks k
      → turn p x
        ≡ some (record x {
          kernel = record x.kernel { current = p };
          program = update x.program p (k x.ticks);
        })
  unfolding turn instruction
  turn-read_ticks k e = rw (run, e) refl

  module _ (d : ℕ) (lt : d < nr_all) (other : d ≢ p) (entry : x.kernel.k_reenter ≡ 0)
      (k : Program A) (s : System) where
    pub turn-send :
        x.program p ≡ sendrec send_function (proc d) k
        → msg_send p d (x.buffer p) (called x p) ≡ ok tt s
        → turn p x ≡ some (record x { kernel = s; program = update x.program p k })
    unfolding turn instruction sys_sendrec
    turn-send e sent =
        let range : ltb d nr_all ≡ true = ground arith in
        let free : x.kernel.k_reenter == 0 ≡ true = ground arith in
        let distinct : d == p ≡ false = ground arith in
        rw (run, e, instruction, sys_sendrec, ◌>>=◌, ◌>>◌, free, range, distinct, ◌>>=◌, ◌>>◌, sent)
          refl

    pub turn-receive :
        x.program p ≡ sendrec receive_function (proc d) k
        → msg_receive p (proc d) (x.buffer p) (called x p) ≡ ok tt s
        → turn p x ≡ some (record x { kernel = s; program = update x.program p k })
    unfolding turn instruction sys_sendrec
    turn-receive e got =
        let range : ltb d nr_all ≡ true = ground arith in
        let free : x.kernel.k_reenter == 0 ≡ true = ground arith in
        let distinct : d == p ≡ false = ground arith in
        rw (run, e, instruction, sys_sendrec, ◌>>=◌, ◌>>◌, free, range, distinct, ◌>>=◌, ◌>>◌, got)
          refl

  pub turn-receive_any :
      (k : Program A) (s : System)
      → x.kernel.k_reenter ≡ 0
      → x.program p ≡ sendrec receive_function any k
      → msg_receive p any (x.buffer p) (called x p) ≡ ok tt s
      → turn p x ≡ some (record x { kernel = s; program = update x.program p k })
  unfolding turn instruction sys_sendrec
  turn-receive_any k s entry e got =
      let free : x.kernel.k_reenter == 0 ≡ true = ground arith in
      rw (run, e, instruction, sys_sendrec, ◌>>=◌, ◌>>◌, free, ◌>>=◌, ◌>>◌, got) refl
