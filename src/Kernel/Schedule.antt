-- ===== src/Kernel/Schedule.antt =====
-- kernel/clock.c: `schedule` and the clock interrupt.
pub mod Fairness
pub mod Select
pub mod Tick
use mini_operate_system.Prelude.{
  ℕ, zero, suc, ◌+◌, ℤ, pos, pos_part, ltb_ℤ, pred_ℤ, Bool, Option, none, some, ◌&&◌, ltb, ◌==◌,
  if◌then◌else◌, update, negate,
}
use mini_operate_system.Kernel.Process.{Process, nr_all, is_runnable}

abbrev pub Table : Type 0
Table = ℕ → Process

-- `p->p_flags == 0 && p->ticks > greatest_ticks`. `greatest_ticks` starts at 0 and only grows, so
-- it is a natural number.
abbrev pub beats : Process → ℕ → Bool
beats p greatest = is_runnable p && ltb_ℤ (pos greatest) p.ticks

-- The first `for` loop, from index `i` with `n` entries left: `greatest_ticks` and the index of
-- `p_current_process`.
unfoldable pub scan : Table → ℕ → ℕ → ℕ → ℕ → ℕ × ℕ
scan t zero i greatest current = (greatest, current)
scan t (suc n) i greatest current =
    let hit = beats (t i) greatest in
    scan t n (i + 1) (if hit then pos_part (t i).ticks else greatest) (if hit then i else current)

-- The second `for` loop: every runnable process gets its priority as its ticks.
unfoldable pub refill : Table → Table
refill t i =
    if ltb i nr_all && is_runnable (t i) then record (t i) { ticks = (t i).priority } else t i

-- The `while` loop, on fuel: the table and `p_current_process`. `none` says that the fuel ran out.
unfoldable pub schedule_loop : ℕ → Table → ℕ → Option (Table × ℕ)
schedule_loop zero t current = none
schedule_loop (suc fuel) t current =
    let (greatest, current') = scan t nr_all 0 0 current in
    let rest = schedule_loop fuel (refill t) current' in
    if greatest == 0 then rest else some (t, current')

-- `schedule`. Two rounds are enough, or else no number of rounds is (`Select`).
unfoldable pub schedule : Table → ℕ → Option (Table × ℕ)
unfolding schedule_loop scan refill
schedule t current = schedule_loop 2 t current

-- The globals that the clock interrupt touches.
pub record Clock : Type 0 where
  pub k_reenter : ℕ
  pub ticks : ℕ
  pub table : Table
  pub current : ℕ

-- `clock_handler`. `none` says that `schedule` does not return.
unfoldable pub clock_handler : Clock → Option Clock
unfolding schedule
clock_handler c =
    if negate (c.k_reenter == 0)
    then some c
    else let p = c.table c.current in
      let charged = update c.table c.current (record p { ticks = pred_ℤ p.ticks }) in
      elim (schedule charged c.current) [
        | none ↦ none
        | some (t, current') ↦
            some (record c { ticks = c.ticks + 1; table = t; current = current' })
      ]
