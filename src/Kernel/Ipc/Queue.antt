-- ===== src/Kernel/Ipc/Queue.antt =====
-- The queue of waiting senders that kernel/ipc.c keeps in `q_sending` and `next_sending`, as a
-- list of indices.
use mini_operate_system.Prelude.{
  ℕ, zero, suc, ◌+◌, ◌≤◌, ◌<◌, ◌≡◌, ◌≢◌, refl, ◌∙◌, inl, inr, arith, Bool, true, false, Option,
  none, some, ◌||◌, ◌==◌, if◌then◌else◌, List, [], ◌∷◌, ◌++◌, length, Bool-cases,
}
use mini_operate_system.Kernel.Schedule.{Table}
use mini_operate_system.Kernel.System.{System, ok}
use mini_operate_system.Kernel.Ipc.{last_waiting}
use mini_operate_system.Kernel.Ipc.Receive.{find_prev}

abbrev pub has : ℕ → List ℕ → Bool
has a [] = false
has a (x ∷ xs) = (a == x) || has a xs

-- From the pointer `h` the links `next_sending` lead through exactly `xs`.
abbrev pub Chain : Table → Option ℕ → List ℕ → Type 0
Chain t h [] = h ≡ none
Chain t h (x ∷ xs) = (h ≡ some x) × Chain t (t x).next_sending xs

abbrev pub Distinct : List ℕ → Type 0
Distinct [] = Unit
Distinct (x ∷ xs) = (has x xs ≡ false) × Distinct xs

abbrev pub last : ℕ → List ℕ → ℕ
last x [] = x
last x (y ∷ ys) = last y ys

-- The list without the first `a`.
unfoldable pub erase : ℕ → List ℕ → List ℕ
erase a [] = []
erase a (x ∷ xs) = if x == a then xs else x ∷ erase a xs

pub has-append : (a : ℕ) (xs ys : List ℕ) → has a (xs ++ ys) ≡ (has a xs || has a ys)
has-append a [] ys = refl
has-append a (x ∷ xs) ys = ground (arith, has-append a xs ys)

pub has-erase :
    (a b : ℕ) (xs : List ℕ)
    → Distinct xs
    → has b (erase a xs) ≡ (if a == b then false else has b xs)
unfolding erase
has-erase a b [] u = ground arith
has-erase a b (x ∷ xs) (out, u) = ground (arith, has-erase a b xs u)

pub Distinct-erase : (a : ℕ) (xs : List ℕ) → Distinct xs → Distinct (erase a xs)
unfolding erase
Distinct-erase a [] u = u
Distinct-erase a (x ∷ xs) (out, u) = elim (Bool-cases (x == a)) [
  | inl hit ↦ rw hit u
  | inr miss ↦ rw miss (ground (arith, has-erase a x xs u), Distinct-erase a xs u)
]

pub Distinct-append :
    (a : ℕ) (xs : List ℕ) → Distinct xs → has a xs ≡ false → Distinct (xs ++ (a ∷ []))
Distinct-append a [] u out = (refl, tt)
Distinct-append a (x ∷ xs) (o, u) out =
    (ground (arith, has-append x xs (a ∷ [])), Distinct-append a xs u (ground arith))

length-erase : (a : ℕ) (xs : List ℕ) → length xs ≤ length (erase a xs) + 1
unfolding erase
length-erase a [] = omega arith
length-erase a (x ∷ xs) = ground (arith, length-erase a xs)

-- Distinct indices below `n` are `n` at most.
pub length-le :
    (n : ℕ) (xs : List ℕ) → Distinct xs → ((a : ℕ) → has a xs ≡ true → a < n) → length xs ≤ n
length-le zero [] u below = omega arith
length-le zero (x ∷ xs) u below = absurd (ground (arith, below x))
length-le (suc n) xs u below = omega (
  arith,
  length-erase n xs,
  length-le n (erase n xs) (Distinct-erase n xs u)
      (λ a h. ground (arith, has-erase n a xs u, below a)),
)

pub Chain-frame :
    (t t' : Table) (h : Option ℕ) (xs : List ℕ)
    → Chain t h xs
    → ((a : ℕ) → has a xs ≡ true → (t' a).next_sending ≡ (t a).next_sending)
    → Chain t' h xs
Chain-frame t t' h [] c same = c
Chain-frame t t' h (x ∷ xs) (e, c) same = (
  e,
  rw (same x (ground arith))
      (Chain-frame t t' (t x).next_sending xs c (λ a i. same a (ground arith))),
)

pub has-last : (x : ℕ) (xs : List ℕ) → has (last x xs) (x ∷ xs) ≡ true
has-last x [] = ground arith
has-last x (y ∷ ys) = ground (arith, has-last y ys)

-- The walk to the last waiting sender finds it.
pub last_waiting-last :
    (fuel : ℕ) (t : Table) (x : ℕ) (xs : List ℕ)
    → Chain t (t x).next_sending xs
    → length xs < fuel
    → last_waiting fuel t x ≡ some (last x xs)
unfolding last_waiting
last_waiting-last zero t x xs c h = absurd (omega arith)
last_waiting-last (suc fuel) t x [] c h = rw (last_waiting, c)
last_waiting-last (suc fuel) t x (y ∷ ys) (e, c) h =
    rw (last_waiting, e) (last_waiting-last fuel t y ys c (omega arith))

-- A last sender that gets the successor `p`, which has none, extends the queue by `p`.
pub Chain-append :
    (t t' : Table) (p x : ℕ) (xs : List ℕ)
    → Chain t (t x).next_sending xs
    → Distinct (x ∷ xs)
    → has p (x ∷ xs) ≡ false
    → (t' (last x xs)).next_sending ≡ some p
    → (t' p).next_sending ≡ none
    → ((a : ℕ) → a ≢ last x xs → has a (x ∷ xs) ≡ true → (t' a).next_sending ≡ (t a).next_sending)
    → Chain t' (t' x).next_sending (xs ++ (p ∷ []))
Chain-append t t' p x [] c u out tail end same = (tail, end)
Chain-append t t' p x (y ∷ ys) (e, c) (o, u) out tail end same = (
  same x (λ eq. absurd (ground (arith, has-last y ys))) (ground arith) ∙ e,
  Chain-append t t' p y ys c u (ground arith) tail end (λ a ne i. same a ne (ground arith)),
)

-- The sender before `a`: what the search of `msg_receive` leaves in `prev`.
abbrev pub before : Option ℕ → ℕ → List ℕ → Option ℕ
before prev a [] = prev
before prev a (x ∷ xs) = if x == a then prev else before (some x) a xs

pub find_prev-before :
    (fuel src : ℕ) (prev h : Option ℕ) (s : System) (xs : List ℕ)
    → Chain s.table h xs
    → (s.table src).sending ≡ true
    → has src xs ≡ true
    → length xs ≤ fuel
    → find_prev fuel src prev h s ≡ ok (before prev src xs) s
unfolding find_prev
find_prev-before fuel src prev h s [] c sends i le = absurd (ground arith)
find_prev-before zero src prev h s (x ∷ xs) c sends i le = absurd (omega arith)
find_prev-before (suc fuel) src prev h s (x ∷ xs) (e, c) sends i le = elim (Bool-cases (x == src)) [
  | inl hit ↦ rw (e, find_prev, sends, hit)
  | inr miss ↦
      rw (e, find_prev, sends, miss)
        (find_prev-before fuel src (some x) (s.table x).next_sending s xs c sends (ground arith)
          (omega arith))
]

pub before-has :
    (a x : ℕ) (xs : List ℕ)
    → has a xs ≡ true
    → (b : ℕ) × (before (some x) a xs ≡ some b) × (has b (x ∷ xs) ≡ true)
before-has a x [] i = absurd (ground arith)
before-has a x (y ∷ ys) i = elim (Bool-cases (y == a)) [
  | inl hit ↦ (x, rw hit, ground arith)
  | inr miss ↦ let (b, e, j) = before-has a y ys (ground arith) in (b, rw miss e, ground (arith, j))
]

-- A sender whose successor goes to the sender before it leaves the queue behind `x`.
pub Chain-erase :
    (t t' : Table) (a b x : ℕ) (xs : List ℕ)
    → Chain t (t x).next_sending xs
    → Distinct (x ∷ xs)
    → has a xs ≡ true
    → before (some x) a xs ≡ some b
    → (t' b).next_sending ≡ (t a).next_sending
    → ((i : ℕ) → i ≢ b → i ≢ a → (t' i).next_sending ≡ (t i).next_sending)
    → Chain t' (t' x).next_sending (erase a xs)
unfolding erase
Chain-erase t t' a b x [] c u i e link same = absurd (ground arith)
Chain-erase t t' a b x (y ∷ ys) (n, c) (o, u) i e link same = elim (Bool-cases (y == a)) [
  | inl hit ↦
      let at_x : x ≡ b = ground arith in
      let at_y : y ≡ a = ground arith in
      let next : (t' x).next_sending ≡ (t y).next_sending = rw (at_x, at_y) link in
      rw (hit, next)
        (Chain-frame t t' (t y).next_sending ys c
          (λ j k. same j (λ eq. absurd (ground arith)) (λ eq. absurd (ground arith))))
  | inr miss ↦
      let (b', e', j) = before-has a y ys (ground arith) in
      rw miss (
        same x (λ eq. absurd (ground arith)) (λ eq. absurd (ground arith)) ∙ n,
        Chain-erase t t' a b y ys c u (ground arith) (ground arith) link same,
      )
]

pub before-ne : (a b x : ℕ) (xs : List ℕ) → before (some x) a xs ≡ some b → x ≢ a → b ≢ a
before-ne a b x [] e ne = ground arith
before-ne a b x (y ∷ ys) e ne = elim (Bool-cases (y == a)) [
  | inl hit ↦ ground arith
  | inr miss ↦ before-ne a b y ys (ground arith) (ground arith)
]
