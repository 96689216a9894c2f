-- ===== src/Kernel/User/Ticks.antt =====
-- `get_ticks` of kernel/api.c, answered by `task_sys` of kernel/systask.c.
use mini_operate_system.Prelude.{
  ℕ, ℤ, pos, ◌<◌, ◌≡◌, ◌≢◌, refl, sym, subst, ap, ◌∙◌, arith, true, false, some, ◌==◌, [], ◌∷◌,
  update, pos_part,
}
use mini_operate_system.Kernel.Process.{proc, nr_all, is_runnable}
use mini_operate_system.Kernel.System.{Message, address}
use mini_operate_system.Kernel.Ipc.{awaits}
use mini_operate_system.Kernel.Ipc.Mail.{Boxes}
use mini_operate_system.Kernel.Ipc.Sent.{IsKernel}
use mini_operate_system.Kernel.SystemCalls.Delivery.{update_same}
use mini_operate_system.Kernel.User.{
  Program, write, read, sendrec, read_ticks, zero_message, Machine, place, turn, turns,
  send_function, receive_function,
}
use mini_operate_system.Kernel.User.Api.{task_sys_nr, get_ticks_type, get_ticks}
use mini_operate_system.Kernel.User.Tasks.{serve, answer}
use mini_operate_system.Kernel.User.Turns.{
  turns-cons, turns-append, turn-write, turn-read, turn-read_ticks,
}
use mini_operate_system.Kernel.User.Asked.{
  CanSend, handed, turn-Handed, ask-Asked, address-same, handed-ldt_ds, handed-priority, Kept,
  Kept-trans,
}

-- The task has a request for the clock's count from `p`, which waits for the answer.
pub record CanAnswer {A : Type 0} (x : Machine A) (q : Boxes) (p : ℕ) (k : ℤ → Program A)
    (next : Program A) : Type 0 where
  pub kernel : IsKernel x.kernel.table q
  pub entry : x.kernel.k_reenter ≡ 0
  pub client : p < nr_all
  pub other : p ≢ task_sys_nr
  pub given : x.buffer task_sys_nr ≢ 0
  pub run : is_runnable (x.kernel.table task_sys_nr) ≡ true
  pub waits : awaits (x.kernel.table p) task_sys_nr ≡ true
  pub at : (x.kernel.table p).p_msg ≡ x.buffer p
  pub message : x.kernel.mem (place x task_sys_nr) ≡ record zero_message { source = proc p }
  pub task : x.program task_sys_nr ≡ answer next
  pub rest : x.program p ≡ read (λ m. k m.retval)

-- Both have gone on: the client with the count.
pub record Answered {A : Type 0} (x : Machine A) (q : Boxes) (p : ℕ) (k : ℤ → Program A)
    (next : Program A) (n : ℕ) : Type 0 where
  pub kernel : IsKernel x.kernel.table q
  pub entry : x.kernel.k_reenter ≡ 0
  pub task_runs : is_runnable (x.kernel.table task_sys_nr) ≡ true
  pub client_runs : is_runnable (x.kernel.table p) ≡ true
  pub client : x.program p ≡ k (pos n)
  pub task : x.program task_sys_nr ≡ next

pub answer-Answered :
    {A : Type 0} (x : Machine A) (q : Boxes) (p : ℕ) (k : ℤ → Program A) (next : Program A)
    → CanAnswer x q p k next
    → (y : Machine A) × (turns (task_sys_nr ∷ task_sys_nr ∷ task_sys_nr ∷ task_sys_nr ∷ p ∷ []) x
        ≡ some y)
      × Answered y q p k next x.ticks
      × Kept x y
unfolding turns answer
answer-Answered {A} x q p k next c =
    let t : ℕ = task_sys_nr in
    let a = place x t in
    let self : t == t ≡ true = refl in
    let own : p == p ≡ true = ground arith in
    let out : t == p ≡ false = ground (arith, c.other) in
    let out' : p == t ≡ false = ground (arith, c.other) in
    let reply =
      λ (n : ℕ). write (λ m. record m { retval = pos n }) (sendrec send_function (proc p) next) in
    let x1 : Machine A = record x {
      kernel = record x.kernel { current = t };
      program = update x.program t (read_ticks reply);
    } in
    let first : turn t x ≡ some x1 =
      turn-read t x c.run (serve next) c.task
      ∙ ap
          (λ (m : Message). some (record x {
            kernel = record x.kernel { current = t };
            program = update x.program t (serve next m);
          }))
          c.message in
    let x2 : Machine A = record x1 { program = update x1.program t (reply x.ticks) } in
    let x3 : Machine A = record x2 {
      kernel = record x2.kernel {
        mem = update x.kernel.mem a (record (x.kernel.mem a) { retval = pos x.ticks });
      };
      program = update x2.program t (sendrec send_function (proc p) next);
    } in
    let at_c : address x.kernel.table p (x.kernel.table p).p_msg ≡ place x p =
      ap (address x.kernel.table p) c.at in
    let can : CanSend x3 q t p = record {
      kernel = c.kernel;
      entry = c.entry;
      sender = omega arith;
      dest = c.client;
      other = c.other;
      given = c.given;
      run = c.run;
      waits = c.waits;
      at = c.at;
    } in
    let h = turn-Handed x3 q t p next can refl in
    let x4 = handed x3 t p next in
    let rest : x4.program p ≡ read (λ m. k m.retval) = rw (out) c.rest in
    let x5 : Machine A = record x4 {
      kernel = record x4.kernel { current = p };
      program = update x4.program p (k (pos x.ticks));
    } in
    let here : place x4 p ≡ place x3 p =
      address-same x.kernel.table x4.kernel.table p (x.buffer p) (handed-ldt_ds x3 t p next p) in
    let got : (x4.kernel.mem (place x4 p)).retval ≡ pos x.ticks =
      ap (λ (b : ℕ). (x4.kernel.mem b).retval) here
      ∙ ap (λ (m : Message). m.retval) h.message
      ∙ ap (λ (m : Message). m.retval)
          (update_same x.kernel.mem a (record (x.kernel.mem a) { retval = pos x.ticks })) in
    let last : turn p x4 ≡ some x5 =
      turn-read p x4 h.woken (λ m. k m.retval) rest
      ∙ ap
          (λ (n : ℤ). some (record x4 {
            kernel = record x4.kernel { current = p };
            program = update x4.program p (k n);
          }))
          got in
    (
      x5,
      turns-cons t (t ∷ t ∷ t ∷ p ∷ []) x x1 first (
          turns-cons t (t ∷ t ∷ p ∷ []) x1 x2 (turn-read_ticks t x1 c.run reply refl) (
            turns-cons t (t ∷ p ∷ []) x2 x3 (turn-write t x2 c.run _ _ refl)
              (turns-cons t (p ∷ []) x3 x4 h.turns_to (turns-cons p [] x4 x5 last refl)))),
      record {
        kernel = h.kernel;
        entry = c.entry;
        task_runs = let r = c.run in ground (arith, c.other);
        client_runs = h.woken;
        client = rw (own) refl;
        task = rw (out') refl;
      },
      record {
        ranks = handed-priority x3 t p next;
        segments = handed-ldt_ds x3 t p next;
        buffer = refl;
        ticks = refl;
      },
    )

-- A process that calls `get_ticks` while `task_sys` waits for a request: after its four turns, four
-- turns of the task and one more of its own, the program goes on with the clock's count, the task is
-- at the end of its round, and the process is runnable. The mailboxes, the priorities, the segments
-- and the clock's count are as before. The two messages lie at different addresses, and the task has
-- a positive priority.
pub get_ticks-Answered :
    {A : Type 0} (x : Machine A) (q : Boxes) (p : ℕ) (k : ℤ → Program A) (next : Program A)
    → CanSend x q p task_sys_nr
    → x.buffer task_sys_nr ≢ 0
    → 0 < pos_part (x.kernel.table task_sys_nr).priority
    → place x p ≢ place x task_sys_nr
    → x.program p ≡ get_ticks k
    → x.program task_sys_nr ≡ answer next
    → (y : Machine A) × (turns
          (p ∷ p ∷ p ∷ p ∷ task_sys_nr ∷ task_sys_nr ∷ task_sys_nr ∷ task_sys_nr ∷ p ∷ [])
          x
        ≡ some y)
      × Answered y q p k next x.ticks
      × Kept x y
unfolding turns get_ticks
get_ticks-Answered {A} x q p k next c given rank apart calls serves =
    let t : ℕ = task_sys_nr in
    let a = place x p in
    let own : p == p ≡ true = ground arith in
    let miss : p == t ≡ false = ground (arith, c.other) in
    let asks =
      sendrec send_function (proc t) (sendrec receive_function (proc t) (read (λ m. k m.retval))) in
    let k1 = write (λ m. record m { type = get_ticks_type }) asks in
    let x1 : Machine A = record x {
      kernel = record x.kernel { current = p; mem = update x.kernel.mem a zero_message };
      program = update x.program p k1;
    } in
    let x2 : Machine A = record x1 {
      kernel = record x1.kernel {
        mem = update x1.kernel.mem a (record (x1.kernel.mem a) { type = get_ticks_type });
      };
      program = update x1.program p asks;
    } in
    let can : CanSend x2 q p t = record {
      kernel = c.kernel;
      entry = c.entry;
      sender = c.sender;
      dest = c.dest;
      other = c.other;
      given = c.given;
      run = c.run;
      waits = c.waits;
      at = c.at;
    } in
    let prog1 : x1.program p ≡ k1 = rw (own) refl in
    let (y, h) = ask-Asked x2 q p t (read (λ m. k m.retval)) can rank apart (rw (own) refl) in
    let there : place y t ≡ place x t =
      ap (λ (b : ℕ → ℕ). address y.kernel.table t (b t)) h.kept.buffer
      ∙ address-same x.kernel.table y.kernel.table t (x.buffer t) (h.kept.segments t) in
    let sent : x2.kernel.mem a ≡ zero_message =
      update_same x1.kernel.mem a (record (x1.kernel.mem a) { type = get_ticks_type })
      ∙ ap (λ (m : Message). record m { type = get_ticks_type })
          (update_same x.kernel.mem a zero_message) in
    let stays : (i : ℕ) → i ≢ p → x2.program i ≡ x.program i =
      λ i ne. let out : p == i ≡ false = ground (arith, ne) in rw (out) refl in
    let can' : CanAnswer y q p k next = record {
      kernel = h.kernel;
      entry = h.entry;
      client = c.sender;
      other = ground (arith, c.other);
      given = rw (h.kept.buffer) given;
      run = h.woken;
      waits = h.waits;
      at = h.at ∙ ap (λ (b : ℕ → ℕ). b p) (sym h.kept.buffer);
      message =
          ap y.kernel.mem there
          ∙ h.message
          ∙ ap (λ (m : Message). record m { source = proc p }) sent;
      task = h.others t c.other ∙ stays t c.other ∙ serves;
      rest = h.rest;
    } in
    let (z, answered, facts, kept) = answer-Answered y q p k next can' in
    let rest = p ∷ p ∷ t ∷ t ∷ t ∷ t ∷ p ∷ [] in
    (
      z,
      turns-cons p (p ∷ rest) x x1 (turn-write p x c.run _ k1 calls) (
          turns-cons p rest x1 x2 (turn-write p x1 c.run _ asks prog1)
            (turns-append (p ∷ p ∷ []) (t ∷ t ∷ t ∷ t ∷ p ∷ []) x2 y h.turns_to answered)),
      subst (Answered z q p k next) h.kept.ticks facts,
      Kept-trans
          (record {
            ranks = h.kept.ranks;
            segments = h.kept.segments;
            buffer = h.kept.buffer;
            ticks = h.kept.ticks;
          })
          kept,
    )
