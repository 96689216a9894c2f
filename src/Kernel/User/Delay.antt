-- ===== src/Kernel/User/Delay.antt =====
-- `milli_delay` of lib/time.c, with the clock's count that `task_sys` gives at each round.
use mini_operate_system.Prelude.{
  ℕ, suc, ◌+◌, ◌*◌, ◌%◌, ◌^◌, ◌/◌, ◌-◌, ltb, pos, ◌≤◌, ◌<◌, ◌≡◌, refl, ap, ◌∙◌, arith, true, false,
  Option, none, some, List, [], ◌∷◌, length,
}
use mini_operate_system.Kernel.Ipc.Mail.{Boxes}
use mini_operate_system.Kernel.User.{Program, Machine, turns}
use mini_operate_system.Kernel.User.Api.{task_sys_nr}
use mini_operate_system.Kernel.User.Tasks.{answer, task_sys, early, delay_loop, milli_delay}
use mini_operate_system.Kernel.User.Rounds.{CanAsk, task_sys-CanAsk}

-- The turns of one call of `get_ticks` by `p`.
abbrev pub call_turns : ℕ → List ℕ
call_turns p =
    p ∷ p ∷ p ∷ p ∷ task_sys_nr ∷ task_sys_nr ∷ task_sys_nr ∷ task_sys_nr ∷ p ∷ task_sys_nr
    ∷ task_sys_nr ∷ []

-- The clock's interrupts count `d` ticks.
abbrev pub later : {A : Type 0} → ℕ → Machine A → Machine A
later d x = record x { ticks = x.ticks + d }

-- Calls of `p`, with the numbers of ticks that the clock counts between them.
unfoldable pub calls : {A : Type 0} → ℕ → List ℕ → Machine A → Option (Machine A)
calls p [] x = turns (call_turns p) x
calls p (d ∷ ds) x = elim (turns (call_turns p) x) [ none ↦ none | some y ↦ calls p ds (later d y) ]

-- After `e` ticks, and each of the numbers `ds` but the last, fewer than `ms` milliseconds have
-- passed, at 10 for a tick; in the end, no fewer. The product of the ticks with 1000 fits an `int`.
unfoldable pub Passes : ℕ → ℕ → List ℕ → Type 0
Passes ms e [] = (ms ≤ e * 10) × (e * 1000 < 2 ^ 31)
Passes ms e (d ∷ ds) = (e * 10 < ms) × (e * 1000 < 2 ^ 31) × Passes ms (e + d) ds

-- The caller has gone on with `k`, at least `ms` milliseconds after the count `t`, and the task is at
-- the end of its rounds.
pub record Returned {A : Type 0} (p ms t : ℕ) (k next : Program A) (y : Machine A) : Type 0 where
  pub client : y.program p ≡ k
  pub task : y.program task_sys_nr ≡ answer next
  pub long : t * 10 + ms ≤ y.ticks * 10

early_time : (t e ms : ℕ) → e * 1000 < 2 ^ 31 → early (pos (t + e)) (pos t) ms ≡ ltb (e * 10) ms
unfolding early
early_time t e ms fits =
    let product : ((t + e) % 2 ^ 32 + 2 ^ 32 - t % 2 ^ 32) % 2 ^ 32 * 1000 % 2 ^ 32 ≡ e * 1000 =
      omega arith in
    let small : ltb (e * 1000) (2 ^ 31) ≡ true = ground arith in
    let ten : e * 1000 / 100 ≡ e * 10 = omega arith in rw (product, small, ten) refl

CanAsk-later :
    {A : Type 0} (x : Machine A) (q : Boxes) (p d : ℕ) → CanAsk x q p → CanAsk (later d x) q p
CanAsk-later x q p d c = record {
  ask = record {
    kernel = c.ask.kernel;
    entry = c.ask.entry;
    sender = c.ask.sender;
    dest = c.ask.dest;
    other = c.ask.other;
    given = c.ask.given;
    run = c.ask.run;
    waits = c.ask.waits;
    at = c.ask.at;
  };
  given = c.given;
  rank = c.rank;
  client_rank = c.client_rank;
  apart = c.apart;
  empty = c.empty;
}

-- The loop, from a call that is `e` ticks behind the count `t`.
delay_loop-Returned :
    {A : Type 0} (ds : List ℕ) (x : Machine A) (q : Boxes) (p t e ms : ℕ) (k next : Program A)
    → CanAsk x q p
    → x.ticks ≡ t + e
    → Passes ms e ds
    → x.program p ≡ delay_loop (suc (length ds)) (pos t) ms k
    → x.program task_sys_nr ≡ answer (task_sys (suc (length ds)) next)
    → (y : Machine A) × (calls p ds x ≡ some y) × Returned p ms t k next y
unfolding calls Passes delay_loop task_sys
delay_loop-Returned [] x q p t e ms k next c now (enough, fits) waits serves =
    let (y, went, c', client, task, same) = task_sys-CanAsk x q p 0 _ next c waits serves in
    let over : early (pos x.ticks) (pos t) ms ≡ false =
      ap (λ n. early (pos n) (pos t) ms) now ∙ early_time t e ms fits ∙ ground arith in
    (
      y,
      went,
      record { client = client ∙ rw (over) refl; task = task; long = rw (same, now) (omega arith) },
    )
delay_loop-Returned (d ∷ ds) x q p t e ms k next c now (short, fits, enough) waits serves =
    let (y, went, c', client, task, same) =
      task_sys-CanAsk x q p (suc (length ds)) _ next c waits serves in
    let yet : early (pos x.ticks) (pos t) ms ≡ true =
      ap (λ n. early (pos n) (pos t) ms) now ∙ early_time t e ms fits ∙ ground arith in
    let (z, went', r) =
      delay_loop-Returned ds (later d y) q p t (e + d) ms k next (CanAsk-later y q p d c')
        (rw (same, now) (omega arith)) enough (client ∙ rw (yet) refl) task in
    (z, rw (calls, went) went', r)

-- A process that calls `milli_delay` while `task_sys` waits for requests, where between the calls of
-- `get_ticks` the clock counts `d` ticks and then the numbers of `ds`, and the milliseconds pass with
-- the last of them: after one call for the start and one for each number, the delay returns, and not
-- before `ms` milliseconds, if these fit an `int` when the code multiplies them. As many rounds of the loop, and of the task's loop, are enough. The
-- conditions are those of `CanAsk` and `Passes`.
pub milli_delay-Returned :
    {A : Type 0} (d : ℕ) (ds : List ℕ) (x : Machine A) (q : Boxes) (p ms : ℕ) (k next : Program A)
    → CanAsk x q p
    → Passes ms d ds
    → x.program p ≡ milli_delay (suc (length ds)) ms k
    → x.program task_sys_nr ≡ answer (task_sys (suc (suc (length ds))) next)
    → (y : Machine A) × (calls p (d ∷ ds) x ≡ some y) × Returned p ms x.ticks k next y
unfolding calls milli_delay
milli_delay-Returned d ds x q p ms k next c enough delays serves =
    let (y, went, c', client, task, same) =
      task_sys-CanAsk x q p (suc (length ds)) _ next c delays serves in
    let (z, went', r) =
      delay_loop-Returned ds (later d y) q p x.ticks d ms k next (CanAsk-later y q p d c')
        (rw same refl) enough client task in
    (z, rw (calls, went) went', r)
