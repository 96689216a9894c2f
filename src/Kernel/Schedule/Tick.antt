-- ===== src/Kernel/Schedule/Tick.antt =====
-- The clock interrupt of kernel/clock.c: what a tick keeps.
use mini_operate_system.Prelude.{
  ℕ, zero, suc, ◌+◌, ◌<◌, ◌≡◌, refl, inl, inr, arith, ℤ, pos, negsuc, pos_part, neg_part, pred_ℤ,
  true, some, ◌≢◌, ◌==◌, ==_iff, if◌then◌else◌, update, Bool-cases,
}
use mini_operate_system.Kernel.Process.{Process, nr_all, is_runnable}
use mini_operate_system.Kernel.Schedule.{Table, refill, Clock, clock_handler}
use mini_operate_system.Kernel.Schedule.Select.{Scheduled, schedule-Scheduled}

-- The table of a running system: no ticks are negative and every priority is positive.
pub record IsTable (t : Table) : Type 0 where
  pub no_debt : (i : ℕ) → i < nr_all → neg_part (t i).ticks ≡ 0
  pub ranked : (i : ℕ) → i < nr_all → 0 < pos_part (t i).priority

-- The current process is runnable and has a tick to spend.
pub record IsValid (c : Clock) : Type 0 where
  pub table : IsTable c.table
  pub within : c.current < nr_all
  pub running : is_runnable (c.table c.current) ≡ true
  pub credit : 0 < pos_part (c.table c.current).ticks

charge : Process → Process
charge p = record p { ticks = pred_ℤ p.ticks }

pred_no_debt : (x : ℤ) → neg_part x ≡ 0 → 0 < pos_part x → neg_part (pred_ℤ x) ≡ 0
pred_no_debt (pos zero) e h = absurd (omega arith)
pred_no_debt (pos (suc n)) e h = refl
pred_no_debt (negsuc n) e h = absurd (omega arith)

charge-IsTable :
    {t : Table} {c : ℕ}
    → IsTable t
    → c < nr_all
    → 0 < pos_part (t c).ticks
    → IsTable (update t c (charge (t c)))
unfolding charge
charge-IsTable {t} {c} v lt credit = record {
  no_debt = λ i h. ground (arith, v.no_debt i h, pred_no_debt (t c).ticks, v.no_debt c);
  ranked = λ i h. ground (arith, v.ranked i h);
}

no_debt_of_credit : (x : ℤ) → 0 < pos_part x → neg_part x ≡ 0
no_debt_of_credit (pos n) h = refl
no_debt_of_credit (negsuc n) h = absurd (omega arith)

refill-IsTable : {t : Table} → IsTable t → IsTable (refill t)
unfolding refill
refill-IsTable {t} v = record {
  no_debt = λ i h. ground (arith, v.no_debt i h, no_debt_of_credit (t i).priority (v.ranked i h));
  ranked = λ i h. ground (arith, v.ranked i h);
}

Scheduled-IsTable : {t : Table} {r : Table × ℕ} → IsTable t → Scheduled t r → IsTable r.0
Scheduled-IsTable v s = elim s.table [ inl e ↦ rw e v | inr (e, _) ↦ rw e (refill-IsTable v) ]

-- The table with one tick taken from the current process.
abbrev pub charged : Clock → Table
charged c =
    let p = c.table c.current in update c.table c.current (record p { ticks = pred_ℤ p.ticks })

-- What a tick makes of the globals.
pub record Ticked (c c' : Clock) : Type 0 where
  pub valid : IsValid c'
  pub counted : c'.ticks ≡ c.ticks + (if c.k_reenter == 0 then 1 else 0)
  pub reentry : c'.k_reenter ≡ c.k_reenter
  pub nested : c.k_reenter ≢ 0 → c' ≡ c
  pub chosen : c.k_reenter ≡ 0 → Scheduled (charged c) (c'.table, c'.current)

-- In a valid system `clock_handler` returns and leaves a valid system: the current process is
-- runnable and has a tick to spend, no process has negative ticks and no priority is lost. It
-- counts the tick and schedules after the current process has paid one of its own, unless it
-- interrupts the kernel; then it changes nothing.
pub clock_handler-Ticked :
    (c : Clock) → IsValid c → (c' : Clock) × (clock_handler c ≡ some c') × Ticked c c'
unfolding clock_handler
clock_handler-Ticked c v = elim (Bool-cases (c.k_reenter == 0)) [
  | inr nested ↦ (
    c,
    rw nested,
    record {
      valid = v;
      counted = rw nested (omega arith);
      reentry = refl;
      nested = λ h. refl;
      chosen = λ outer. absurd (ground arith);
    },
  )
  | inl outer ↦
      let good : IsTable (charged c) = unfold charge in charge-IsTable v.table v.within v.credit in
      let run : is_runnable (charged c c.current) ≡ true = ground (arith, v.running) in
      let (r, e, s) =
        schedule-Scheduled (charged c) c.current c.current v.within run
          (good.ranked c.current v.within) in
      (
        record c { ticks = c.ticks + 1; table = r.0; current = r.1 },
        rw (outer, e),
        record {
          valid = record {
            table = Scheduled-IsTable good s;
            within = s.choice.below;
            running = s.choice.runnable;
            credit = s.choice.positive;
          };
          counted = rw outer;
          reentry = refl;
          nested = λ h. absurd (h ((==_iff c.k_reenter 0).0 outer));
          chosen = λ h. s;
        },
      )
]
