-- ===== src/Kernel/User/Rounds.antt =====
-- The loop of `task_sys` of kernel/systask.c: after an answer it waits for the next request.
use mini_operate_system.Prelude.{
  ℕ, suc, ℤ, pos, ◌<◌, ◌≡◌, ◌≢◌, refl, sym, subst, ap, ◌∙◌, arith, true, false, none, some, ◌==◌,
  [], ◌∷◌, update, pos_part,
}
use mini_operate_system.Kernel.Process.{Process, any, nr_all, is_runnable}
use mini_operate_system.Kernel.System.{address}
use mini_operate_system.Kernel.Ipc.{awaits}
use mini_operate_system.Kernel.Ipc.Mail.{Boxes, Scheduled-SameMail}
use mini_operate_system.Kernel.Ipc.Sent.{IsKernel}
use mini_operate_system.Kernel.Ipc.Received.{pick}
use mini_operate_system.Kernel.Ipc.Waiting.{listen, listening, msg_receive-waiting}
use mini_operate_system.Kernel.User.{
  Program, sendrec, zero_message, Machine, place, turn, turns, receive_function,
}
use mini_operate_system.Kernel.User.Api.{task_sys_nr, get_ticks}
use mini_operate_system.Kernel.User.Tasks.{answer, task_sys_round, task_sys}
use mini_operate_system.Kernel.User.Turns.{
  called, turns-cons, turns-append, turn-write, turn-receive_any,
}
use mini_operate_system.Kernel.User.Asked.{
  CanSend, Kept, Kept-trans, address-same, listening-ldt_ds, listening-priority,
}
use mini_operate_system.Kernel.User.Ticks.{get_ticks-Answered}

-- The task is at the start of its loop with an empty mailbox, and another process is runnable.
record CanListen {A : Type 0} (x : Machine A) (q : Boxes) (p : ℕ) (next : Program A) : Type 0 where
  kernel : IsKernel x.kernel.table q
  entry : x.kernel.k_reenter ≡ 0
  empty : q task_sys_nr ≡ []
  given : x.buffer task_sys_nr ≢ 0
  run : is_runnable (x.kernel.table task_sys_nr) ≡ true
  client : p < nr_all
  other : task_sys_nr ≢ p
  client_runs : is_runnable (x.kernel.table p) ≡ true
  rank : 0 < pos_part (x.kernel.table p).priority
  task : x.program task_sys_nr ≡ task_sys_round next

-- The task waits for a request.
record Listens {A : Type 0} (x : Machine A) (q : Boxes) (p : ℕ) (next : Program A) (y : Machine A)
    : Type 0 where
  turns_to : turns (task_sys_nr ∷ task_sys_nr ∷ []) x ≡ some y
  kernel : IsKernel y.kernel.table q
  entry : y.kernel.k_reenter ≡ 0
  waits : awaits (y.kernel.table task_sys_nr) p ≡ true
  at : (y.kernel.table task_sys_nr).p_msg ≡ y.buffer task_sys_nr
  client_runs : is_runnable (y.kernel.table p) ≡ true
  client : y.program p ≡ x.program p
  task : y.program task_sys_nr ≡ answer next
  kept : Kept x y

task_sys_round-Listens :
    {A : Type 0} (x : Machine A) (q : Boxes) (p : ℕ) (next : Program A)
    → CanListen x q p next
    → (y : Machine A) × Listens x q p next y
unfolding turns task_sys_round
task_sys_round-Listens {A} x q p next c =
    let t : ℕ = task_sys_nr in
    let out : t == p ≡ false = ground (arith, c.other) in
    let back : p ≢ t = ground (arith, c.other) in
    let k1 = sendrec receive_function any (answer next) in
    let x1 : Machine A = record x {
      kernel = record x.kernel { current = t; mem = update x.kernel.mem (place x t) zero_message };
      program = update x.program t k1;
    } in
    let first : turn t x ≡ some x1 = turn-write t x c.run _ k1 c.task in
    let nobody : pick any (q t) ≡ none = unfold pick in rw (c.empty) refl in
    let (r, l) =
      msg_receive-waiting (called x1 t) q t any (x.buffer t) c.kernel (omega arith) c.given c.run
        refl p nobody refl c.client back c.client_runs c.rank in
    let y : Machine A = record x1 {
      kernel = record (called x1 t) { table = r.0; current = r.1 };
      program = update x1.program t (answer next);
    } in
    let same = Scheduled-SameMail l.scheduled in
    let apart : listening x.kernel.table t any (x.buffer t) p ≡ x.kernel.table p = rw (out) refl in
    (
      y,
      record {
        turns_to = turns-cons t (t ∷ []) x x1 first (
            turns-cons t [] x1 y
              (turn-receive_any t x1 c.run (answer next) _ c.entry refl l.returns) refl);
        kernel = l.kernel;
        entry = c.entry;
        waits = ap (λ (b : Process). awaits b p) l.waiting ∙ (unfold listen in ground arith);
        at = ap (λ (b : Process). b.p_msg) l.waiting ∙ (unfold listen in refl);
        client_runs = ap is_runnable (same p) ∙ ap is_runnable apart ∙ c.client_runs;
        client = rw (out) refl;
        task = refl;
        kept = record {
          ranks = λ i.
              ap (λ (b : Process). b.priority) (same i)
              ∙ listening-priority x.kernel.table t any (x.buffer t) i;
          segments = λ i.
              ap (λ (b : Process). b.ldt_ds) (same i)
              ∙ listening-ldt_ds x.kernel.table t any (x.buffer t) i;
          buffer = refl;
          ticks = refl;
        };
      },
    )

-- `task_sys` waits with an empty mailbox, and process `p` can send to it; both have positive
-- priorities, and their messages lie at different addresses.
pub record CanAsk {A : Type 0} (x : Machine A) (q : Boxes) (p : ℕ) : Type 0 where
  pub ask : CanSend x q p task_sys_nr
  pub given : x.buffer task_sys_nr ≢ 0
  pub rank : 0 < pos_part (x.kernel.table task_sys_nr).priority
  pub client_rank : 0 < pos_part (x.kernel.table p).priority
  pub apart : place x p ≢ place x task_sys_nr
  pub empty : q task_sys_nr ≡ []

place-Kept : {A : Type 0} (x y : Machine A) (i : ℕ) → Kept x y → place y i ≡ place x i
place-Kept x y i kept =
    ap (λ (b : ℕ → ℕ). address y.kernel.table i (b i)) kept.buffer
    ∙ address-same x.kernel.table y.kernel.table i (x.buffer i) (kept.segments i)

abbrev rank_kept :
    {A : Type 0} (x y : Machine A) (i : ℕ)
    → Kept x y
    → 0 < pos_part (x.kernel.table i).priority
    → 0 < pos_part (y.kernel.table i).priority
rank_kept x y i kept rank = subst (λ z. 0 < pos_part z) (sym (kept.ranks i)) rank

-- A call of `get_ticks` is a whole round of `task_sys`: after eleven turns the program of the caller
-- goes on with the clock's count, and the task waits for the next request, with a round less of its
-- loop left, so that the caller can ask again. The conditions are those of `CanAsk`.
pub task_sys-CanAsk :
    {A : Type 0} (x : Machine A) (q : Boxes) (p n : ℕ) (k : ℤ → Program A) (next : Program A)
    → CanAsk x q p
    → x.program p ≡ get_ticks k
    → x.program task_sys_nr ≡ answer (task_sys (suc n) next)
    → (y : Machine A) × (turns
          (p ∷ p ∷ p ∷ p ∷ task_sys_nr ∷ task_sys_nr ∷ task_sys_nr ∷ task_sys_nr ∷ p ∷ task_sys_nr
            ∷ task_sys_nr ∷ [])
          x
        ≡ some y)
      × CanAsk y q p
      × (y.program p ≡ k (pos x.ticks))
      × (y.program task_sys_nr ≡ answer (task_sys n next))
      × (y.ticks ≡ x.ticks)
unfolding task_sys
task_sys-CanAsk {A} x q p n k next c calls serves =
    let t : ℕ = task_sys_nr in
    let (y, answered, a, kept) =
      get_ticks-Answered x q p k (task_sys_round (task_sys n next)) c.ask c.given c.rank c.apart
        calls serves in
    let (z, l) = task_sys_round-Listens y q p (task_sys n next) (record {
      kernel = a.kernel;
      entry = a.entry;
      empty = c.empty;
      given = subst (λ (b : ℕ → ℕ). b t ≢ 0) (sym kept.buffer) c.given;
      run = a.task_runs;
      client = c.ask.sender;
      other = c.ask.other;
      client_runs = a.client_runs;
      rank = rank_kept x y p kept c.client_rank;
      task = a.task;
    }) in
    let all = Kept-trans kept l.kept in
    (
      z,
      turns-append (p ∷ p ∷ p ∷ p ∷ t ∷ t ∷ t ∷ t ∷ p ∷ []) (t ∷ t ∷ []) x y answered l.turns_to,
      record {
        ask = record {
          kernel = l.kernel;
          entry = l.entry;
          sender = c.ask.sender;
          dest = c.ask.dest;
          other = c.ask.other;
          given = subst (λ (b : ℕ → ℕ). b p ≢ 0) (sym all.buffer) c.ask.given;
          run = l.client_runs;
          waits = l.waits;
          at = l.at;
        };
        given = subst (λ (b : ℕ → ℕ). b t ≢ 0) (sym all.buffer) c.given;
        rank = rank_kept x z t all c.rank;
        client_rank = rank_kept x z p all c.client_rank;
        apart = λ e. c.apart (sym (place-Kept x z p all) ∙ e ∙ place-Kept x z t all);
        empty = c.empty;
      },
      l.client ∙ a.client,
      l.task,
      all.ticks,
    )
