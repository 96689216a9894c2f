-- ===== src/Terminal/Printing/Halting.antt =====
-- The screen of a halted machine, which `sys_printx` of kernel/system_calls.c fills.
use native.Mathlib.Nat.{suc-mul}
use mini_operate_system.Prelude.{
  ℕ, zero, suc, ◌+◌, ◌-◌, ◌*◌, ◌%◌, ◌≤◌, ◌<◌, ◌≡◌, ◌⊎◌, refl, sym, subst, ap, ◌∙◌, inl, inr, arith,
  true, false, ◌==◌, ltb, List, [], ◌∷◌, length, update, Bool-cases, leb, ◌&&◌, if◌then◌else◌,
}
use mini_operate_system.Terminal.Console.{v_mem_size}
use mini_operate_system.Terminal.Printing.{
  gray_char, red_char, stripe, pad_loop, fill_loop, halt_screen,
}

-- What is left behind at `v` with the memory `vmem`: the end of stripe `b`, whose last cell is grey,
-- and nothing behind it has been written.
record Padded (b : ℕ) (vmem : ℕ → ℕ) (out : ℕ × (ℕ → ℕ)) : Type 0 where
  pub end : out.0 ≡ (b + 1) * stripe
  pub last : out.1 ((b + 1) * stripe - 1) ≡ gray_char
  pub behind : (a : ℕ) → (b + 1) * stripe ≤ a → out.1 a ≡ vmem a

-- The same, for a message that ends before byte 768 of its stripe: behind the message the colours are
-- written and the characters are not.
record Striped (b : ℕ) (vmem : ℕ → ℕ) (out : ℕ × (ℕ → ℕ)) : Type 0 where
  pub end : out.0 ≡ (b + 1) * stripe
  pub last : out.1 ((b + 1) * stripe - 1) ≡ gray_char
  pub behind : (a : ℕ) → (b + 1) * stripe ≤ a → out.1 a ≡ vmem a
  pub cells :
      (a : ℕ)
      → b * stripe + 768 ≤ a
      → a < (b + 1) * stripe
      → out.1 a ≡ (if a % 2 == 1 then gray_char else vmem a)

-- The padding from cell `r` of a stripe on.
pad_loop-Padded :
    (n b r : ℕ) (vmem : ℕ → ℕ)
    → 0 < r
    → r ≤ 640
    → 640 < n + r
    → (r < 640) ⊎ (vmem ((b + 1) * stripe - 1) ≡ gray_char)
    → Padded b vmem (pad_loop n (b * stripe + r * 2) vmem)
unfolding pad_loop
pad_loop-Padded zero b r vmem low le enough gray = absurd (omega arith)
pad_loop-Padded (suc n) b r vmem low le enough gray =
    let v = b * stripe + r * 2 in
    elim (Bool-cases (v % stripe == 0)) [
      | inl full ↦
          let all : r ≡ 640 = ground arith in
          let at : v ≡ (b + 1) * stripe = omega arith in
          let there : vmem ((b + 1) * stripe - 1) ≡ gray_char = elim gray [
            | inl less ↦ absurd (omega arith)
            | inr e ↦ e
          ] in
          rw (pad_loop, full) (record { end = at; last = there; behind = λ a le. refl })
      | inr part ↦
          let less : r < 640 = ground arith in
          let next : v + 1 + 1 ≡ b * stripe + (r + 1) * 2 = omega arith in
          let written = update vmem (v + 1) gray_char in
          let coloured : (r + 1 < 640) ⊎ (written ((b + 1) * stripe - 1) ≡ gray_char) =
            elim (Bool-cases (ltb (r + 1) 640)) [
              | inl more ↦ inl (ground arith)
              | inr last ↦
                  let own : v + 1 == (b + 1) * stripe - 1 ≡ true = ground arith in
                  inr (rw (own) refl)
            ] in
          let later =
            pad_loop-Padded n b (r + 1) written (omega arith) (omega arith) (omega arith)
              coloured in
          rw (pad_loop, part, next)
            (record {
              end = later.end;
              last = later.last;
              behind = λ a le'.
                  later.behind a le'
                  ∙ (let out : v + 1 == a ≡ false = ground arith in rw (out) refl);
            })
    ]

-- The padding colours the rest of the stripe and leaves its characters.
pad_loop-cells :
    (n b r : ℕ) (vmem : ℕ → ℕ) (a : ℕ)
    → 0 < r
    → r ≤ 640
    → 640 < n + r
    → a < (b + 1) * stripe
    → (pad_loop n (b * stripe + r * 2) vmem).1 a
      ≡ (if leb (b * stripe + r * 2) a && (a % 2 == 1) then gray_char else vmem a)
unfolding pad_loop
pad_loop-cells zero b r vmem a some_char le enough inside = absurd (omega arith)
pad_loop-cells (suc n) b r vmem a some_char le enough inside =
    let v = b * stripe + r * 2 in
    elim (Bool-cases (v % stripe == 0)) [
      | inl full ↦ let low : leb v a ≡ false = ground arith in rw (pad_loop, full, low) refl
      | inr part ↦
          let less : r < 640 = ground arith in
          let next : v + 1 + 1 ≡ b * stripe + (r + 1) * 2 = omega arith in
          let written = update vmem (v + 1) gray_char in
          let later =
            pad_loop-cells n b (r + 1) written a (omega arith) (omega arith) (omega arith) inside in
          rw (pad_loop, part, next)
            (later ∙ (elim (Bool-cases (v + 1 == a)) [
              | inl own ↦
                  let at : v + 1 ≡ a = ground arith in
                  let before : leb (b * stripe + (r + 1) * 2) a ≡ false = ground arith in
                  let behind : leb v a ≡ true = ground arith in
                  let odd : (a % 2 == 1) ≡ true = ground arith in rw (before, behind, odd, own) refl
              | inr other ↦
                  let same : (leb (b * stripe + (r + 1) * 2) a && (a % 2 == 1))
                      ≡ (leb v a && (a % 2 == 1)) =
                    ground arith in
                  rw (same, other) refl
            ]))
    ]

-- One more copy of the message, from its `i`-th character on, ends its stripe.
fill_loop-Striped :
    (m b i ch : ℕ) (text q : List ℕ) (vmem : ℕ → ℕ)
    → b ≤ 25
    → i + length (ch ∷ q) ≤ 384
    → (vmem' : ℕ → ℕ) × (fill_loop (length (ch ∷ q) + m) text (ch ∷ q) (b * stripe + i * 2) vmem
        ≡ fill_loop m text text ((b + 1) * stripe) vmem')
      × Striped b vmem ((b + 1) * stripe, vmem')
unfolding fill_loop
fill_loop-Striped m b i ch text [] vmem le short =
    let v = b * stripe + i * 2 in
    let inside : ltb v v_mem_size ≡ true = ground arith in
    let written = update (update vmem v ch) (v + 1) red_char in
    let next : v + 1 + 1 ≡ b * stripe + (i + 1) * 2 = omega arith in
    let fuel : length (ch ∷ []) + m ≡ suc m = omega arith in
    let p =
      pad_loop-Padded stripe b (i + 1) written (omega arith) (omega arith) (omega arith)
        (inl (omega arith)) in
    let out = pad_loop stripe (b * stripe + (i + 1) * 2) written in
    (
      out.1,
      rw (fuel, fill_loop, inside, next) (ap (λ (v : ℕ). fill_loop m text text v out.1) p.end),
      record {
        end = refl;
        last = p.last;
        behind = λ a le'.
            p.behind a le'
            ∙ (let low : v == a ≡ false = ground arith in
                let high : v + 1 == a ≡ false = ground arith in rw (low, high) refl);
        cells = λ a past inside'.
            let on : leb (b * stripe + (i + 1) * 2) a ≡ true = ground arith in
            let low : v == a ≡ false = ground arith in
            let high : v + 1 == a ≡ false = ground arith in
            pad_loop-cells stripe b (i + 1) written a (omega arith) (omega arith) (omega arith)
              inside'
            ∙ rw (on, low, high) refl;
      },
    )
fill_loop-Striped m b i ch text (c ∷ r) vmem le short =
    let v = b * stripe + i * 2 in
    let inside : ltb v v_mem_size ≡ true = ground arith in
    let written = update (update vmem v ch) (v + 1) red_char in
    let next : v + 1 + 1 ≡ b * stripe + (i + 1) * 2 = omega arith in
    let fuel : length (ch ∷ c ∷ r) + m ≡ suc (length (c ∷ r) + m) = omega arith in
    let (vmem', same, p) = fill_loop-Striped m b (i + 1) c text r written le (omega arith) in
    (
      vmem',
      rw (fuel, fill_loop, inside, next) same,
      record {
        end = refl;
        last = p.last;
        behind = λ a le'.
            p.behind a le'
            ∙ (let low : v == a ≡ false = ground arith in
                let high : v + 1 == a ≡ false = ground arith in rw (low, high) refl);
        cells = λ a past inside'.
            p.cells a past inside'
            ∙ (let low : v == a ≡ false = ground arith in
                let high : v + 1 == a ≡ false = ground arith in rw (low, high) refl);
      },
    )

-- The last `suc k` stripes, of 26.
fill_loop_rounds :
    (k b m ch : ℕ) (q : List ℕ) (vmem : ℕ → ℕ)
    → b + k ≡ 25
    → length (ch ∷ q) ≤ 384
    → Striped 25 vmem
        (fill_loop (suc k * length (ch ∷ q) + suc m) (ch ∷ q) (ch ∷ q) (b * stripe) vmem)
unfolding fill_loop
fill_loop_rounds zero b m ch q vmem at short =
    let text = ch ∷ q in
    let here : b * stripe ≡ b * stripe + 0 * 2 = omega arith in
    let fuel : 1 * length text + suc m ≡ length text + suc m = omega arith in
    let (vmem', same, p) =
      fill_loop-Striped (suc m) b 0 ch text q vmem (omega arith) (omega arith) in
    let last : (b + 1) * stripe ≡ 26 * stripe = omega arith in
    rw (fuel, here, same, last)
      (record {
        end = refl;
        last = rw last at p.last;
        behind = λ a le. p.behind a (omega arith);
        cells = λ a past inside. p.cells a (omega arith) (omega arith);
      })
fill_loop_rounds (suc k) b m ch q vmem at short =
    let text = ch ∷ q in
    let n = length text in
    let here : b * stripe ≡ b * stripe + 0 * 2 = omega arith in
    let fuel : suc (suc k) * n + suc m ≡ n + (suc k * n + suc m) =
      omega (arith, suc-mul (suc k) n) in
    let (vmem', same, p) =
      fill_loop-Striped (suc k * n + suc m) b 0 ch text q vmem (omega arith) (omega arith) in
    let r = fill_loop_rounds k (b + 1) m ch q vmem' (omega arith) short in
    rw (fuel, here, same)
      (record {
        end = r.end;
        last = r.last;
        behind = λ a le. r.behind a le ∙ p.behind a (omega arith);
        cells = λ a past inside.
            r.cells a past inside
            ∙ ap (λ x. if a % 2 == 1 then gray_char else x) (p.behind a (omega arith));
      })

-- The screen of a halted machine, for a message of 1 to 384 characters: `sys_printx` writes behind the
-- end of the video memory. Of the 512 bytes there it gives every second one the colour of a grey
-- cell, keeps the others, and changes nothing behind them.
pub halt_screen_past_end :
    (text : List ℕ) (vmem : ℕ → ℕ)
    → 0 < length text
    → length text ≤ 384
    → let (v, vmem') = halt_screen text vmem in
      (v ≡ v_mem_size + 512)
      × ((a : ℕ)
          → v_mem_size ≤ a
          → a < v_mem_size + 512
          → vmem' a ≡ (if a % 2 == 1 then gray_char else vmem a))
      × ((a : ℕ) → v_mem_size + 512 ≤ a → vmem' a ≡ vmem a)
unfolding halt_screen
halt_screen_past_end [] vmem some_char short = absurd (omega arith)
halt_screen_past_end (ch ∷ q) vmem some_char short =
    let n = length (ch ∷ q) in
    let fuel : v_mem_size ≡ 26 * n + suc (v_mem_size - 1 - 26 * n) = omega arith in
    let r = fill_loop_rounds 25 0 (v_mem_size - 1 - 26 * n) ch q vmem refl short in
    let r' =
      subst (λ (f : ℕ). Striped 25 vmem (fill_loop f (ch ∷ q) (ch ∷ q) 0 vmem)) (sym fuel) r in
    (r'.end, r'.cells, r'.behind)
