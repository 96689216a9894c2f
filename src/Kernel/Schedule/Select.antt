-- ===== src/Kernel/Schedule/Select.antt =====
-- What `schedule` and `clock_handler` of kernel/clock.c choose, and when they return.
use mini_operate_system.Prelude.{
  ℕ, zero, suc, ◌+◌, ◌≤◌, ◌<◌, ◌≡◌, refl, sym, ap, ◌∙◌, ◌⊎◌, inl, inr, arith, ℤ, pos, negsuc,
  pos_part, ltb_ℤ, true, false, none, some, Bool-cases,
}
use mini_operate_system.Kernel.Process.{Process, nr_all, is_runnable}
use mini_operate_system.Kernel.Schedule.{Table, beats, scan, refill, schedule_loop, schedule}

-- The entry `c` has the greatest number of ticks among the runnable entries from `lo` to `hi`, and
-- is the first that has it.
pub record IsChoice (t : Table) (lo hi c : ℕ) : Type 0 where
  pub from : lo ≤ c
  pub below : c < hi
  pub runnable : is_runnable (t c) ≡ true
  pub positive : 0 < pos_part (t c).ticks
  pub greatest :
      (j : ℕ)
      → lo ≤ j
      → j < hi
      → is_runnable (t j) ≡ true
      → pos_part (t j).ticks ≤ pos_part (t c).ticks
  pub first :
      (j : ℕ)
      → lo ≤ j
      → j < c
      → is_runnable (t j) ≡ true
      → pos_part (t j).ticks < pos_part (t c).ticks

-- No runnable entry from `lo` to `hi` has more than `g` ticks.
abbrev pub Under : Table → ℕ → ℕ → ℕ → Type 0
Under t lo hi g = (j : ℕ) → lo ≤ j → j < hi → is_runnable (t j) ≡ true → pos_part (t j).ticks ≤ g

-- What `scan` returns from `lo` to `hi`, started at `g` and `c`.
record Scanned (t : Table) (lo hi g c g' c' : ℕ) : Type 0 where
  grows : g ≤ g'
  under : Under t lo hi g'
  chosen :
      ((g' ≡ g) × (c' ≡ c))
      ⊎ ((lo ≤ c')
          × (c' < hi)
          × (is_runnable (t c') ≡ true)
          × (g < g')
          × (pos_part (t c').ticks ≡ g')
          × ((j : ℕ) → lo ≤ j → j < c' → is_runnable (t j) ≡ true → pos_part (t j).ticks < g'))

beats-true :
    (p : Process) (g : ℕ) → beats p g ≡ true → (is_runnable p ≡ true) × (g < pos_part p.ticks)
beats-true p g h = elim (Bool-cases (is_runnable p)) [
  | inl run ↦ (run, ticks_above p.ticks (rw run at h))
  | inr idle ↦ absurd (absurd_test (rw idle at h))
]
  where
    ticks_above : (x : ℤ) → ltb_ℤ (pos g) x ≡ true → g < pos_part x
    ticks_above (pos x) e = ground arith
    ticks_above (negsuc x) e = ground arith

    absurd_test : false ≡ true → ⊥
    absurd_test e = cc

beats-false :
    (p : Process) (g : ℕ) → beats p g ≡ false → is_runnable p ≡ true → pos_part p.ticks ≤ g
beats-false p g h run = ticks_below p.ticks (rw run at h)
  where
    ticks_below : (x : ℤ) → ltb_ℤ (pos g) x ≡ false → pos_part x ≤ g
    ticks_below (pos x) e = ground arith
    ticks_below (negsuc x) e = ground arith

module _ {t : Table} {lo hi g c g' c' : ℕ} (here : lo < hi) where
  Scanned-hit :
      (is_runnable (t lo) ≡ true)
      → g < pos_part (t lo).ticks
      → Scanned t (lo + 1) hi (pos_part (t lo).ticks) lo g' c'
      → Scanned t lo hi g c g' c'
  Scanned-hit run more s = record {
    grows = omega (arith, s.grows);
    under = λ j p q r. ground (arith, s.under j, s.grows);
    chosen = elim s.chosen [
      | inl (eg, ec) ↦ inr (
        ground arith,
        ground arith,
        rw ec run,
        ground arith,
        rw ec (ground arith),
        λ j p q r. absurd (ground arith),
      )
      | inr (p, q, r, m, e, first) ↦
          inr (omega arith, q, r, omega arith, e, λ j u v w. ground (arith, first j))
    ];
  }

  Scanned-miss :
      beats (t lo) g ≡ false → Scanned t (lo + 1) hi g c g' c' → Scanned t lo hi g c g' c'
  Scanned-miss miss s = record {
    grows = s.grows;
    under = λ j p q r. ground (arith, s.under j, s.grows, beats-false (t lo) g miss);
    chosen = elim s.chosen [
      | inl same ↦ inl same
      | inr (p, q, r, m, e, first) ↦
          inr
            (omega arith, q, r, m, e, λ j u v w. ground (arith, first j, beats-false (t lo) g miss))
    ];
  }

scan-Scanned :
    (t : Table) (n lo hi g c : ℕ)
    → lo + n ≡ hi
    → let (g', c') = scan t n lo g c in Scanned t lo hi g c g' c'
unfolding scan
scan-Scanned t zero lo hi g c e = record {
  grows = omega arith;
  under = λ j p q r. absurd (omega arith);
  chosen = inl (refl, refl);
}
scan-Scanned t (suc n) lo hi g c e = elim (Bool-cases (beats (t lo) g)) [
  | inl hit ↦
      let (run, more) = beats-true (t lo) g hit in
      rw (scan, hit)
        (Scanned-hit (omega arith) run more
          (scan-Scanned t n (lo + 1) hi (pos_part (t lo).ticks) lo (omega arith)))
  | inr miss ↦
      rw (scan, miss)
        (Scanned-miss (omega arith) miss (scan-Scanned t n (lo + 1) hi g c (omega arith)))
]

-- The first loop over the whole table finds nothing, or it finds the choice.
scan_all :
    (t : Table) (c : ℕ)
    → ((scan t nr_all 0 0 c ≡ (0, c)) × Under t 0 nr_all 0)
      ⊎ ((0 < (scan t nr_all 0 0 c).0) × IsChoice t 0 nr_all (scan t nr_all 0 0 c).1)
scan_all t c = finish _ _ refl (scan-Scanned t nr_all 0 nr_all 0 c refl)
  where
    finish :
        (g' c' : ℕ)
        → scan t nr_all 0 0 c ≡ (g', c')
        → Scanned t 0 nr_all 0 c g' c'
        → ((scan t nr_all 0 0 c ≡ (0, c)) × Under t 0 nr_all 0)
          ⊎ ((0 < (scan t nr_all 0 0 c).0) × IsChoice t 0 nr_all (scan t nr_all 0 0 c).1)
    finish g' c' eq s = rw eq (elim s.chosen [
      | inl (eg, ec) ↦ inl (ground arith, λ j p q r. ground (arith, s.under j))
      | inr (p, q, r, m, e, first) ↦ inr (
        omega arith,
        record {
          from = omega arith;
          below = q;
          runnable = r;
          positive = omega arith;
          greatest = λ j u v w. ground (arith, s.under j);
          first = λ j u v w. ground (arith, first j);
        },
      )
    ])

-- One round of the loop.
round_found :
    (fuel : ℕ) (t : Table) (c : ℕ)
    → 0 < (scan t nr_all 0 0 c).0
    → schedule_loop (suc fuel) t c ≡ some (t, (scan t nr_all 0 0 c).1)
unfolding schedule_loop
round_found fuel t c h = ground arith

round_empty :
    (fuel : ℕ) (t : Table) (c : ℕ)
    → scan t nr_all 0 0 c ≡ (0, c)
    → schedule_loop (suc fuel) t c ≡ schedule_loop fuel (refill t) c
unfolding schedule_loop
round_empty fuel t c e = rw e

-- What the second loop does to an entry.
pub refill-runnable :
    (t : Table) (i : ℕ)
    → i < nr_all
    → is_runnable (t i) ≡ true
    → refill t i ≡ record (t i) { ticks = (t i).priority }
unfolding refill
refill-runnable t i lt run = rw (run) (ground arith)

pub is_runnable-refill : (t : Table) (i : ℕ) → is_runnable (refill t i) ≡ is_runnable (t i)
unfolding refill
is_runnable-refill t i = ground arith

-- What `schedule` returns: the table and the choice in it. If the given table has a runnable
-- process with ticks left the table is unchanged, and otherwise it is refilled.
pub record Scheduled (t : Table) (r : Table × ℕ) : Type 0 where
  pub choice : IsChoice r.0 0 nr_all r.1
  pub table : (r.0 ≡ t) ⊎ ((r.0 ≡ refill t) × Under t 0 nr_all 0)

schedule_loop-Scheduled :
    (fuel : ℕ) (t : Table) (c p : ℕ)
    → p < nr_all
    → is_runnable (t p) ≡ true
    → 0 < pos_part (t p).priority
    → (r : Table × ℕ) × (schedule_loop (suc (suc fuel)) t c ≡ some r) × Scheduled t r
schedule_loop-Scheduled fuel t c p lt run prio = elim (scan_all t c) [
  | inr (found, choice) ↦ (
    (t, (scan t nr_all 0 0 c).1),
    round_found (suc fuel) t c found,
    record { choice = choice; table = inl refl },
  )
  | inl (empty, under) ↦ elim (scan_all (refill t) c) [
    | inr (found, choice) ↦ (
      (refill t, (scan (refill t) nr_all 0 0 c).1),
      round_empty (suc fuel) t c empty ∙ round_found fuel (refill t) c found,
      record { choice = choice; table = inr (refl, under) },
    )
    | inl (_, still) ↦ absurd (none_left still)
  ]
]
  where
    none_left : Under (refill t) 0 nr_all 0 → ⊥
    none_left still =
        let le = still p (omega arith) lt (is_runnable-refill t p ∙ run) in
        let e = ap (λ (q : Process). pos_part q.ticks) (refill-runnable t p lt run) in omega arith

-- If some runnable process has a positive priority, `schedule` returns, whoever runs now. The
-- process that it makes the current one is runnable, has ticks left, and has the most ticks of all
-- runnable processes, the first of the table among equals. The table is as before; or no runnable
-- process had a tick left, and each of them has got its priority as its ticks.
pub schedule-Scheduled :
    (t : Table) (c p : ℕ)
    → p < nr_all
    → is_runnable (t p) ≡ true
    → 0 < pos_part (t p).priority
    → (r : Table × ℕ) × (schedule t c ≡ some r) × Scheduled t r
unfolding schedule
schedule-Scheduled t c p lt run prio = schedule_loop-Scheduled 0 t c p lt run prio

-- Of no runnable process are the ticks or the priority positive.
abbrev pub IsStuck : Table → Type 0
IsStuck t =
    (j : ℕ)
    → j < nr_all
    → is_runnable (t j) ≡ true
    → (pos_part (t j).ticks ≡ 0) × (pos_part (t j).priority ≡ 0)

IsStuck-refill : (t : Table) → IsStuck t → IsStuck (refill t)
IsStuck-refill t stuck j lt run =
    let before = sym (is_runnable-refill t j) ∙ run in
    let e = ap (λ (q : Process). pos_part q.ticks) (refill-runnable t j lt before) in
    let f = ap (λ (q : Process). pos_part q.priority) (refill-runnable t j lt before) in
    let (_, none_left) = stuck j lt before in (e ∙ none_left, f ∙ none_left)

-- If no runnable process has ticks left or a positive priority, the loop of `schedule` does not
-- end in any number of rounds.
pub schedule_loop-none : (fuel : ℕ) (t : Table) (c : ℕ) → IsStuck t → schedule_loop fuel t c ≡ none
schedule_loop-none zero t c stuck = unfold schedule_loop in refl
schedule_loop-none (suc fuel) t c stuck = elim (scan_all t c) [
  | inl (empty, _) ↦
      round_empty fuel t c empty ∙ schedule_loop-none fuel (refill t) c (IsStuck-refill t stuck)
  | inr (found, choice) ↦
      let (no_ticks, _) = stuck _ choice.below choice.runnable in
      let some_ticks = choice.positive in absurd (omega arith)
]
