-- ===== src/Text/Memory.antt =====
-- The string functions of lib/string.c on the strings that memory holds.
use mini_operate_system.Prelude.{
  ℕ, zero, suc, ◌+◌, ◌<◌, ◌≤◌, ◌≡◌, ◌≢◌, ◌⊎◌, ◌↔◌, ◌∙◌, refl, ap, inl, inr, arith, true, false,
  some, ◌==◌, Bool-cases, List, [], ◌∷◌, length, update,
}
use mini_operate_system.Text.{Memory, strlen, strlen_loop, strcpy, strcmp}

-- Memory holds the characters `xs` and a 0 at `p`.
abbrev pub Holds : Memory → ℕ → List ℕ → Type 0
Holds m p [] = m p ≡ 0
Holds m p (x ∷ xs) = (m p ≡ x) × (x ≢ 0) × Holds m (suc p) xs

strlen_loop-length :
    (fuel : ℕ) (m : Memory) (p i : ℕ) (xs : List ℕ)
    → Holds m p xs
    → length xs < fuel
    → strlen_loop fuel m p i ≡ some (i + length xs)
unfolding strlen_loop
strlen_loop-length zero m p i xs h lt = absurd (omega arith)
strlen_loop-length (suc fuel) m p i [] h lt =
    let stop : i + 0 ≡ i = omega arith in rw (strlen_loop, h, stop) refl
strlen_loop-length (suc fuel) m p i (x ∷ xs) (at, ne, h) lt =
    let go : m p == 0 ≡ false = ground arith in
    let count : i + suc (length xs) ≡ i + 1 + length xs = omega arith in
    rw (strlen_loop, go, count) (strlen_loop-length fuel m (suc p) (i + 1) xs h (omega arith))

-- `_strlen` counts the characters of the string that lies at its pointer.
pub strlen-length :
    (fuel : ℕ) (m : Memory) (p : ℕ) (xs : List ℕ)
    → Holds m p xs
    → length xs < fuel
    → strlen fuel m p ≡ some (length xs)
unfolding strlen
strlen-length fuel m p xs h lt =
    let none_yet : 0 + length xs ≡ length xs = omega arith in
    strlen_loop-length fuel m p 0 xs h lt ∙ ap some none_yet

Holds-same :
    (m m' : Memory) (p : ℕ) (xs : List ℕ)
    → ((i : ℕ) → p ≤ i → i ≤ p + length xs → m' i ≡ m i)
    → Holds m p xs
    → Holds m' p xs
Holds-same m m' p [] same h = same p (omega arith) (omega arith) ∙ h
Holds-same m m' p (x ∷ xs) same (at, ne, h) = (
  same p (omega arith) (omega arith) ∙ at,
  ne,
  Holds-same m m' (suc p) xs (λ i lo hi. same i (omega arith) (omega arith)) h,
)

-- `_strcpy` copies the string at `src` with its final 0 to `ptr` and changes no other byte, if the
-- two places do not overlap.
pub strcpy-Holds :
    (fuel : ℕ) (m : Memory) (ptr src : ℕ) (xs : List ℕ)
    → Holds m src xs
    → (ptr + length xs < src) ⊎ (src + length xs < ptr)
    → length xs < fuel
    → (m' : Memory) × (strcpy fuel m ptr src ≡ some m')
      × Holds m' ptr xs
      × ((i : ℕ) → (i < ptr) ⊎ (ptr + length xs < i) → m' i ≡ m i)
unfolding strcpy
strcpy-Holds zero m ptr src xs h apart lt = absurd (omega arith)
strcpy-Holds (suc fuel) m ptr src [] h apart lt = (
  update m ptr 0,
  rw (strcpy, h) refl,
  (let own : ptr == ptr ≡ true = ground arith in rw (own) refl),
  λ i out. let other : ptr == i ≡ false = ground arith in rw (other) refl,
)
strcpy-Holds (suc fuel) m ptr src (x ∷ xs) (at, ne, h) apart lt =
    let m1 = update m ptr (m src) in
    let go : m src == 0 ≡ false = ground arith in
    let h1 = Holds-same m m1 (suc src) xs (λ i lo hi. ground arith) h in
    let (m', e, held, rest) =
      strcpy-Holds fuel m1 (suc ptr) (suc src) xs h1 (omega arith) (omega arith) in
    let own : ptr == ptr ≡ true = ground arith in
    (
      m',
      rw (strcpy, go) e,
      (rest ptr (omega arith) ∙ rw (own) at, ne, held),
      λ i out.
          let other : ptr == i ≡ false = ground arith in rest i (omega arith) ∙ rw (other) refl,
    )

-- `_strcmp` ends and gives 0 exactly if the two strings are equal.
pub strcmp-equal :
    (fuel : ℕ) (m : Memory) (a b : ℕ) (xs ys : List ℕ)
    → Holds m a xs
    → Holds m b ys
    → length xs < fuel
    → (r : ℕ) × (strcmp fuel m a b ≡ some r) × ((r ≡ 0) ↔ (xs ≡ ys))
unfolding strcmp
strcmp-equal zero m a b xs ys h k lt = absurd (omega arith)
strcmp-equal (suc fuel) m a b [] [] h k lt =
    (0, rw (strcmp, h, k, h) refl, ((λ e. refl), (λ e. refl)))
strcmp-equal (suc fuel) m a b [] (y ∷ ys) h (at, ne, k) lt =
    let differ : m a == m b ≡ false = ground arith in
    (1, rw (strcmp, differ) refl, ((λ e. absurd (omega arith)), (λ e. cc)))
strcmp-equal (suc fuel) m a b (x ∷ xs) [] (at, ne, h) k lt =
    let differ : m a == m b ≡ false = ground arith in
    (1, rw (strcmp, differ) refl, ((λ e. absurd (omega arith)), (λ e. cc)))
strcmp-equal (suc fuel) m a b (x ∷ xs) (y ∷ ys) (at, ne, h) (at', ne', k) lt =
    elim (Bool-cases (m a == m b)) [
      | inr differ ↦
          let apart : x ≢ y = ground arith in
          (1, rw (strcmp, differ) refl, ((λ e. absurd (omega arith)), (λ e. absurd (apart cc))))
      | inl same ↦
          let go : m a == 0 ≡ false = ground arith in
          let equal : x ≡ y = ground arith in
          let (r, e, iff) = strcmp-equal fuel m (suc a) (suc b) xs ys h k (omega arith) in
          (r, rw (strcmp, same, go) e, ((λ z. let tails = iff.0 z in cc), (λ z. iff.1 (cc))))
    ]
