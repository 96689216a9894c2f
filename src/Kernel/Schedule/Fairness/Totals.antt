-- ===== src/Kernel/Schedule/Fairness/Totals.antt =====
-- Sums over the process table of kernel/clock.c.
use mini_operate_system.Prelude.{
  ℕ, zero, suc, ◌+◌, ◌≤◌, ◌<◌, ◌≡◌, ◌≢◌, refl, sym, subst, ap, ap₂, inl, inr, arith, ℤ, pos, negsuc,
  pos_part, pred_ℤ, ◌==◌, if◌then◌else◌, Bool-cases,
}
use mini_operate_system.Kernel.Process.{Process, nr_all, is_runnable}
use mini_operate_system.Kernel.Schedule.{Table, refill, Clock}
use mini_operate_system.Kernel.Schedule.Tick.{IsValid, charged}

-- A field's positive part, of a runnable process only.
unfoldable pub share : (Process → ℤ) → Process → ℕ
share f p = if is_runnable p then pos_part (f p) else 0

-- The sum over the first `n` entries.
unfoldable pub total : (Process → ℤ) → Table → ℕ → ℕ
unfolding share
total f t zero = 0
total f t (suc n) = total f t n + share f (t n)

total-same :
    (f g : Process → ℤ) (t t' : Table) (n : ℕ)
    → ((i : ℕ) → i < n → share f (t i) ≡ share g (t' i))
    → total f t n ≡ total g t' n
unfolding total
total-same f g t t' zero e = refl
total-same f g t t' (suc n) e =
    ap₂ ◌+◌ (total-same f g t t' n (λ i lt. e i (omega arith))) (e n (omega arith))

pub share-le : (f : Process → ℤ) (t : Table) (n k : ℕ) → k < n → share f (t k) ≤ total f t n
unfolding total
share-le f t zero k lt = absurd (omega arith)
share-le f t (suc n) k lt = elim (Bool-cases (n == k)) [
  | inl last ↦
      let at : n ≡ k = ground arith in
      let own : share f (t n) ≡ share f (t k) = ap (λ i. share f (t i)) at in omega arith
  | inr before ↦ let inner = share-le f t n k (ground arith) in omega arith
]

total-less :
    (f : Process → ℤ) (t t' : Table) (n k : ℕ)
    → k < n
    → share f (t' k) + 1 ≡ share f (t k)
    → ((i : ℕ) → i ≢ k → share f (t' i) ≡ share f (t i))
    → total f t' n + 1 ≡ total f t n
unfolding total
total-less f t t' zero k lt e same = absurd (omega arith)
total-less f t t' (suc n) k lt e same = elim (Bool-cases (n == k)) [
  | inl last ↦
      let at : n ≡ k = ground arith in
      let rest = total-same f f t' t n (λ i below. same i (λ (w : i ≡ k). omega arith)) in
      let own : share f (t' n) + 1 ≡ share f (t n) =
        subst (λ i. share f (t' i) + 1 ≡ share f (t i)) (sym at) e in
      omega arith
  | inr before ↦
      let inner = total-less f t t' n k (ground arith) e same in
      let own = same n (λ (w : n ≡ k). ground arith) in omega arith
]

abbrev pub ticks_of : Table → ℕ
ticks_of t = total (λ (p : Process). p.ticks) t nr_all

abbrev pub priorities_of : Table → ℕ
priorities_of t = total (λ (p : Process). p.priority) t nr_all

pred-pos_part : (x : ℤ) → 0 < pos_part x → pos_part (pred_ℤ x) + 1 ≡ pos_part x
pred-pos_part (pos zero) h = absurd (omega arith)
pred-pos_part (pos (suc n)) h = omega arith
pred-pos_part (negsuc n) h = absurd (omega arith)

pub ticks_of-charged : (c : Clock) → IsValid c → ticks_of (charged c) + 1 ≡ ticks_of c.table
unfolding share
ticks_of-charged c v =
    let run = v.running in
    let paid = pred-pos_part ((c.table c.current).ticks) v.credit in
    total-less (λ (p : Process). p.ticks) c.table (charged c) nr_all c.current v.within
      (ground arith) (λ i other. ground arith)

pub priorities_of-charged : (c : Clock) → priorities_of (charged c) ≡ priorities_of c.table
unfolding share
priorities_of-charged c =
    total-same (λ (p : Process). p.priority) (λ (p : Process). p.priority) (charged c) c.table
      nr_all (λ i lt. ground arith)

pub ticks_of-refill : (t : Table) → ticks_of (refill t) ≡ priorities_of t
unfolding share refill
ticks_of-refill t =
    total-same (λ (p : Process). p.ticks) (λ (p : Process). p.priority) (refill t) t nr_all
      (λ i lt. ground arith)

pub priorities_of-refill : (t : Table) → priorities_of (refill t) ≡ priorities_of t
unfolding share refill
priorities_of-refill t =
    total-same (λ (p : Process). p.priority) (λ (p : Process). p.priority) (refill t) t nr_all
      (λ i lt. ground arith)
