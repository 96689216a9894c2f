-- ===== src/Files/Maps/Bits.antt =====
-- The bits of a byte: `has_bit`, `set_bit` and `clear_bit`.
use mini_operate_system.Prelude.{
  ℕ, zero, suc, ◌+◌, ◌*◌, ◌/◌, ◌%◌, ◌^◌, ◌<◌, ◌≡◌, ◌∙◌, sym, refl, subst, Bool, true, false, ◌||◌,
  ◌==◌, if◌then◌else◌, arith, inl, inr, Bool-cases, Option, Option-cases, none, some,
}
use native.Mathlib.Nat.{add-div_right, one-le-pow}
use mini_operate_system.Files.Disk.{has_bit, set_bit, clear_bit}

same_value : (a b : Bool) → ((if a then 1 else 0) == (if b then 1 else 0)) ≡ true → a ≡ b
same_value true b e = ground arith
same_value false b e = ground arith

-- The greatest number under a bound that fails a test.
failure : (ℕ → Bool) → ℕ → Option ℕ
failure test zero = none
failure test (suc n) = elim (test n) [ true ↦ failure test n | false ↦ some n ]

failure-none : (test : ℕ → Bool) (n : ℕ) → failure test n ≡ none → (i : ℕ) → i < n → test i ≡ true
unfolding failure
failure-none test zero e i lt = absurd (omega arith)
failure-none test (suc n) e i lt = elim (Bool-cases (test n)) [
  | inr fails ↦ let f : failure test (suc n) ≡ some n = rw (failure, fails) refl in ground arith
  | inl passes ↦
      let f : failure test (suc n) ≡ failure test n = rw (failure, passes) refl in
      elim (Bool-cases (i == n)) [
        | inl last ↦ let e' : i ≡ n = ground arith in rw (e') passes
        | inr other ↦ failure-none test n (sym f ∙ e) i (ground arith)
      ]
]

-- Bit `j` of a byte in which bit `k` is set, compared with bit `j` of the byte before.
abbrev agrees : ℕ → ℕ → ℕ → Bool
agrees x k j =
    (if has_bit (set_bit x k) j then 1 else 0) == (if (j == k) || has_bit x j then 1 else 0)

-- The two bits as one number.
abbrev agrees_at : ℕ → ℕ → Bool
agrees_at x c = agrees x (c % 8) (c / 8)

abbrev agrees_everywhere : ℕ → Bool
agrees_everywhere x = elim (failure (agrees_at x) 64) [ none ↦ true | some c ↦ false ]

every_byte : failure agrees_everywhere 256 ≡ none
unfolding failure
every_byte = refl

pub has_bit-set_bit :
    (x k j : ℕ) → x < 256 → k < 8 → j < 8 → has_bit (set_bit x k) j ≡ ((j == k) || has_bit x j)
has_bit-set_bit x k j lt lt' lt'' =
    let all = failure-none agrees_everywhere 256 every_byte x lt in
    elim (Option-cases (failure (agrees_at x) 64)) [
      | inr (c, e) ↦
          let f : agrees_everywhere x ≡ false = rw (agrees_everywhere, e) refl in
          let g = sym f ∙ all in ground arith
      | inl e ↦
          let c = j * 8 + k in
          let h = failure-none (agrees_at x) 64 e c (omega arith) in
          let row : c / 8 ≡ j = omega arith in
          let column : c % 8 ≡ k = omega arith in
          let h' =
            subst (λ a. agrees x k a ≡ true) row
              (subst (λ b. agrees x b (c / 8) ≡ true) column h) in
          same_value _ _ h'
    ]

pub set_bit-has_bit : (byte k : ℕ) → k < 8 → has_bit (set_bit byte k) k ≡ true
set_bit-has_bit byte k lt = elim (Bool-cases (has_bit byte k)) [
  | inl set ↦ rw (set) set
  | inr clear ↦
      let pos : 0 < 2 ^ k = one-le-pow k 2 (omega arith) in
      let e = add-div_right byte pos in rw (clear) (ground arith)
]

-- Setting a bit that is clear and clearing it again.
pub clear_bit-set_bit : (x k : ℕ) → k < 8 → has_bit x k ≡ false → clear_bit (set_bit x k) k ≡ x
clear_bit-set_bit x k lt clear =
    let e : set_bit x k ≡ x + 2 ^ k = rw (clear) refl in
    let set : has_bit (x + 2 ^ k) k ≡ true = rw (sym e) (set_bit-has_bit x k lt) in
    rw (e, set) (omega arith)
