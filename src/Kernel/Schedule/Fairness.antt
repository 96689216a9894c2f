-- ===== src/Kernel/Schedule/Fairness.antt =====
-- kernel/clock.c: no runnable process waits for ever.
pub mod Totals
use mini_operate_system.Prelude.{
  ℕ, zero, suc, ◌+◌, ◌≤◌, ◌<◌, ◌≡◌, ◌≢◌, ◌⊎◌, refl, sym, subst, ap, ap₂, ◌∙◌, inl, inr, arith, ℤ,
  pos, negsuc, pos_part, pred_ℤ, true, false, Option, none, some, ◌==◌, if◌then◌else◌, Bool-cases,
}
use mini_operate_system.Kernel.Process.{Process, nr_all, is_runnable}
use mini_operate_system.Kernel.Schedule.{Table, refill, Clock, clock_handler}
use mini_operate_system.Kernel.Schedule.Select.{refill-runnable, is_runnable-refill}
use mini_operate_system.Kernel.Schedule.Tick.{IsValid, charged, clock_handler-Ticked}
use mini_operate_system.Kernel.Schedule.Fairness.Totals.{
  ticks_of-charged, priorities_of, priorities_of-charged, priorities_of-refill, share, share-le,
  ticks_of, ticks_of-refill,
}

-- `n` clock interrupts.
unfoldable pub interrupts : ℕ → Clock → Option Clock
interrupts zero c = some c
interrupts (suc n) c = elim (clock_handler c) [ none ↦ none | some c' ↦ interrupts n c' ]

-- What an interrupt does for a runnable process `p`: either the current process has paid a tick and
-- nothing else has changed, or all ticks were used up and every runnable process has new ones.
record Stepped (c c' : Clock) (p : ℕ) : Type 0 where
  valid : IsValid c'
  outer : c'.k_reenter ≡ 0
  run : is_runnable (c'.table p) ≡ true
  ranks : priorities_of c'.table ≡ priorities_of c.table
  paid :
      ((ticks_of c'.table + 1 ≡ ticks_of c.table)
        × (p ≢ c.current → pos_part (c'.table p).ticks ≡ pos_part (c.table p).ticks))
      ⊎ ((ticks_of c'.table ≡ priorities_of c.table)
          × (0 < pos_part (c'.table p).ticks)
          × (p ≢ c.current → pos_part (c.table p).ticks ≡ 0))

charged_other : (c : Clock) (p : ℕ) → p ≢ c.current → charged c p ≡ c.table p
charged_other c p other = let ne : c.current == p ≡ false = ground arith in rw (ne) refl

charged-runnable : (c : Clock) (p : ℕ) → is_runnable (charged c p) ≡ is_runnable (c.table p)
charged-runnable c p = ground arith

charged-priority : (c : Clock) (p : ℕ) → (charged c p).priority ≡ (c.table p).priority
charged-priority c p = ground arith

step :
    (c : Clock) (p : ℕ)
    → IsValid c
    → c.k_reenter ≡ 0
    → p < nr_all
    → is_runnable (c.table p) ≡ true
    → (c' : Clock) × (clock_handler c ≡ some c') × Stepped c c' p
step c p v outer lt run =
    let (c', e, t) = clock_handler-Ticked c v in
    let s = t.chosen outer in
    let run' = charged-runnable c p ∙ run in
    (
      c',
      e,
      elim s.table [
        | inl same ↦ record {
          valid = t.valid;
          outer = t.reentry ∙ outer;
          run = rw same run';
          ranks = rw same (priorities_of-charged c);
          paid = inl (
            rw same (ticks_of-charged c v),
            λ other. rw same (ap (λ (q : Process). pos_part q.ticks) (charged_other c p other)),
          );
        }
        | inr (same, under) ↦
            let refilled = refill-runnable (charged c) p lt run' in
            record {
              valid = t.valid;
              outer = t.reentry ∙ outer;
              run = rw same (is_runnable-refill (charged c) p ∙ run');
              ranks = rw same (priorities_of-refill (charged c) ∙ priorities_of-charged c);
              paid = inr (
                rw same (ticks_of-refill (charged c) ∙ priorities_of-charged c),
                rw (same, refilled) (rw (charged-priority c p) (v.table.ranked p lt)),
                λ other.
                    let le = under p (omega arith) lt run' in
                    let e = ap (λ (q : Process). pos_part q.ticks) (charged_other c p other) in
                    omega arith,
              );
            }
      ],
    )

-- Process `p` becomes the current one within `b` interrupts.
abbrev pub Reaches : Clock → ℕ → ℕ → Type 0
Reaches c p b = (n : ℕ) × (c' : Clock) × (n ≤ b) × (interrupts n c ≡ some c') × (c'.current ≡ p)

Reaches-now : (c : Clock) (p b : ℕ) → c.current ≡ p → Reaches c p b
unfolding interrupts
Reaches-now c p b e = (0, c, omega arith, refl, e)

Reaches-later :
    (c c1 : Clock) (p b b' : ℕ)
    → clock_handler c ≡ some c1
    → b + 1 ≤ b'
    → Reaches c1 p b
    → Reaches c p b'
unfolding interrupts
Reaches-later c c1 p b b' e le (n, c', bound, run, at) =
    (suc n, c', omega arith, rw (interrupts, e) run, at)

running_total : (c : Clock) → IsValid c → 0 < ticks_of c.table
unfolding share
running_total c v =
    let run = v.running in
    let credit = v.credit in
    let own : share (λ (p : Process). p.ticks) (c.table c.current)
        ≡ pos_part (c.table c.current).ticks =
      rw (run) refl in
    let le = share-le (λ (p : Process). p.ticks) c.table nr_all c.current v.within in omega arith

-- With ticks left, a process waits for the others' ticks at most.
Reaches-charged :
    (b : ℕ) (c : Clock) (p : ℕ)
    → ticks_of c.table ≤ b
    → IsValid c
    → c.k_reenter ≡ 0
    → p < nr_all
    → is_runnable (c.table p) ≡ true
    → 0 < pos_part (c.table p).ticks
    → Reaches c p b
Reaches-charged zero c p le v outer lt run credit =
    let some_left = running_total c v in absurd (omega arith)
Reaches-charged (suc b) c p le v outer lt run credit = elim (Bool-cases (p == c.current)) [
  | inl now ↦ Reaches-now c p (suc b) (ground arith)
  | inr later ↦
      let (c1, e, s) = step c p v outer lt run in
      let other : p ≢ c.current = ground arith in
      elim s.paid [
        | inl (less, same) ↦
            let kept = same other in
            Reaches-later c c1 p b (suc b) e (omega arith)
              (Reaches-charged b c1 p (omega arith) s.valid s.outer lt s.run (omega arith))
        | inr (_, _, spent) ↦ let none_left = spent other in absurd (omega arith)
      ]
]

Reaches-refilled :
    (b : ℕ) (c : Clock) (p : ℕ)
    → ticks_of c.table ≤ b
    → IsValid c
    → c.k_reenter ≡ 0
    → p < nr_all
    → is_runnable (c.table p) ≡ true
    → Reaches c p (b + priorities_of c.table)
Reaches-refilled zero c p le v outer lt run =
    let some_left = running_total c v in absurd (omega arith)
Reaches-refilled (suc b) c p le v outer lt run = elim (Bool-cases (p == c.current)) [
  | inl now ↦ Reaches-now c p _ (ground arith)
  | inr later ↦
      let (c1, e, s) = step c p v outer lt run in
      let ranks = s.ranks in
      elim s.paid [
        | inl (less, same) ↦
            Reaches-later c c1 p (b + priorities_of c1.table) (suc b + priorities_of c.table) e
              (omega arith) (Reaches-refilled b c1 p (omega arith) s.valid s.outer lt s.run)
        | inr (all, credit, _) ↦
            Reaches-later c c1 p (priorities_of c.table) (suc b + priorities_of c.table) e
              (omega arith)
              (Reaches-charged (priorities_of c.table) c1 p (omega arith) s.valid s.outer lt s.run
                credit)
      ]
]

-- No runnable process waits for ever: in a valid system each becomes the current process within as
-- many clock interrupts as the ticks and the priorities of the runnable processes add up to. The
-- interrupts do not interrupt the kernel, and no process blocks or wakes up between them.
pub clock_handler-Reaches :
    (c : Clock) (p : ℕ)
    → IsValid c
    → c.k_reenter ≡ 0
    → p < nr_all
    → is_runnable (c.table p) ≡ true
    → Reaches c p (ticks_of c.table + priorities_of c.table)
clock_handler-Reaches c p v outer lt run =
    Reaches-refilled (ticks_of c.table) c p (omega arith) v outer lt run
