-- ===== src/Text/Numbers.antt =====
-- Numbers as text: `itoa` of lib/string.c and `integer2char` of lib/vsprintf.c.
use mini_operate_system.Prelude.{
  ℕ, zero, suc, pos, negsuc, ◌+◌, ◌-◌, ◌*◌, ◌/◌, ◌%◌, ◌^◌, ◌<◌, ◌≤◌, ◌≡◌, ◌≢◌, refl, sym, inl, inr,
  arith, false, ◌==◌, ltb, Bool-cases, List, [], ◌∷◌, ◌++◌, if◌then◌else◌,
}
use native.Mathlib.Nat.{mod-lt, mod-add-div', div-lt_self, div-le_self}
use mini_operate_system.Text.{digit_char, digits, integer2char}

-- What a digit means.
abbrev pub digit_value : ℕ → ℕ
digit_value c = if ltb c b'A' then c - b'0' else c + 10 - b'A'

-- The number that digits write, to a base, behind digits that write `acc`.
unfoldable pub value : ℕ → ℕ → List ℕ → ℕ
value base acc [] = acc
value base acc (c ∷ cs) = value base (acc * base + digit_value c) cs

digit_value-digit_char : (d : ℕ) → d < 16 → digit_value (digit_char d) ≡ d
unfolding digit_char
digit_value-digit_char d lt = ground arith

value-append :
    (base acc : ℕ) (xs : List ℕ) (c : ℕ)
    → value base acc (xs ++ (c ∷ [])) ≡ value base acc xs * base + digit_value c
unfolding value
value-append base acc [] c = refl
value-append base acc (x ∷ xs) c = value-append base (acc * base + digit_value x) xs c

digits-value :
    (fuel base i : ℕ) → 1 < base → base ≤ 16 → i < fuel → value base 0 (digits fuel base i) ≡ i
unfolding digits value
digits-value zero base i lo hi lt = absurd (omega arith)
digits-value (suc fuel) base i lo hi lt =
    let whole = mod-add-div' i base in
    let small = mod-lt i {m = base} (omega arith) in
    let last = digit_value-digit_char (i % base) (omega arith) in
    elim (Bool-cases (i / base == 0)) [
      | inl short ↦
          let none_left : i / base ≡ 0 = ground arith in
          let own : i % base + 0 * base ≡ i = rw (sym none_left) whole in
          rw (short, last) (omega arith)
      | inr long ↦
          let some_left : 0 < i / base = ground arith in
          let less : i / base < fuel =
            let all = div-le_self i base in
            let part = div-lt_self {n = i} {k = base} (omega arith) lo in omega arith in
          let rest = digits-value fuel base (i / base) lo hi less in
          rw
            (
              long,
              value-append base 0 (digits fuel base (i / base)) (digit_char (i % base)),
              last,
              rest,
            )
            (omega arith)
    ]

-- `integer2char` writes decimal digits that mean the number, after a minus sign if it is negative,
-- for every `int` but the least, for which it writes "--214748364(".
pub integer2char-roundtrip :
    (n : ℕ)
    → n < 2 ^ 31
    → (value 10 0 (integer2char (pos n) 10) ≡ n)
      × (n ≢ 2 ^ 31 - 1
          → (cs : List ℕ) × (integer2char (negsuc n) 10 ≡ b'-' ∷ cs) × (value 10 0 cs ≡ n + 1))
      × (n ≡ 2 ^ 31 - 1
          → integer2char (negsuc n) 10
            ≡ b'-' ∷ b'-' ∷ b'2' ∷ b'1' ∷ b'4' ∷ b'7' ∷ b'4' ∷ b'8' ∷ b'3' ∷ b'6' ∷ b'4' ∷ b'('
              ∷ [])
unfolding integer2char
integer2char-roundtrip n int = (
  digits-value (n + 1) 10 n (omega arith) (omega arith) (omega arith),
  λ other.
      let usual : (n == 2 ^ 31 - 1) ≡ false = ground arith in
      (
        digits (n + 2) 10 (n + 1),
        rw (integer2char, usual) refl,
        digits-value (n + 2) 10 (n + 1) (omega arith) (omega arith) (omega arith),
      ),
  λ least. rw (least) (unfold digits digit_char in refl),
)
