-- ===== src/Text/Examples.antt =====
-- The theorems on lib/string.c and lib/vsprintf.c at concrete strings.
use mini_operate_system.Prelude.{
  ℕ, ◌+◌, ◌^◌, ◌≡◌, ◌≢◌, refl, arith, pos, negsuc, some, List, [], ◌∷◌, get_or, leb, if◌then◌else◌,
  ◌-◌,
}
use mini_operate_system.Text.{Memory, integer2char, vsprintf}
use mini_operate_system.Text.Memory.{Holds}
use mini_operate_system.Text.Numbers.{value, integer2char-roundtrip}
use mini_operate_system.Text.Format.{
  Piece, letters, decimal, hexadecimal, string, format_of, args_of, shown, vsprintf-shown,
}

abbrev foo : List ℕ
foo = b'f' ∷ b'o' ∷ b'o' ∷ []

-- "foo" lies at 100.
abbrev memory : Memory
memory a = if leb 100 a then get_or foo (a - 100) 0 else 7

foo-Holds : Holds memory 100 foo
foo-Holds = (refl, omega arith, (refl, omega arith, (refl, omega arith, refl)))

oo-Holds : Holds memory 101 (b'o' ∷ b'o' ∷ [])
oo-Holds = (refl, omega arith, (refl, omega arith, refl))

integer2char-roundtrip_example :
    (value 10 0 (integer2char (pos 2026) 10) ≡ 2026)
    × (2026 ≢ 2 ^ 31 - 1
        → (cs : List ℕ) × (integer2char (negsuc 2026) 10 ≡ b'-' ∷ cs) × (value 10 0 cs ≡ 2026 + 1))
    × (2026 ≡ 2 ^ 31 - 1
        → integer2char (negsuc 2026) 10
          ≡ b'-' ∷ b'-' ∷ b'2' ∷ b'1' ∷ b'4' ∷ b'7' ∷ b'4' ∷ b'8' ∷ b'3' ∷ b'6' ∷ b'4' ∷ b'(' ∷ [])
integer2char-roundtrip_example = integer2char-roundtrip 2026 (omega arith)

abbrev pieces : List Piece
pieces =
    letters (b'f' ∷ b'd' ∷ b' ' ∷ []) ∷ decimal (negsuc 0) ∷ hexadecimal (pos 255) ∷ string foo ∷ []

vsprintf-shown_example : vsprintf (format_of pieces) (args_of pieces) ≡ some (shown pieces)
vsprintf-shown_example = vsprintf-shown pieces ((refl, (refl, (refl, tt))), tt)
