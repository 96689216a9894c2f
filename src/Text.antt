-- ===== src/Text.antt =====
-- lib/string.c and lib/vsprintf.c: strings in memory, numbers as text, and formats.
mod Examples
pub mod Format
pub mod Memory
pub mod Numbers
use mini_operate_system.Prelude.{
  ℕ, zero, suc, ◌+◌, ◌-◌, ◌*◌, ◌/◌, ◌%◌, ◌^◌, ℤ, pos, negsuc, Bool, true, false, ◌&&◌, ◌||◌, ◌==◌,
  ltb, leb, if◌then◌else◌, Option, none, some, List, [], ◌∷◌, ◌++◌, length, update,
}

-- Memory, byte by byte. The loops over a string run on fuel: `none` says that it ran out.
abbrev pub Memory : Type 0
Memory = ℕ → ℕ

-- `_strcpy`.
unfoldable pub strcpy : ℕ → Memory → ℕ → ℕ → Option Memory
strcpy zero m ptr src = none
strcpy (suc fuel) m ptr src = elim (m src == 0) [
  | true ↦ some (update m ptr 0)
  | false ↦ strcpy fuel (update m ptr (m src)) (suc ptr) (suc src)
]

-- `_strcmp`: 0 for equal strings and 1 for others.
unfoldable pub strcmp : ℕ → Memory → ℕ → ℕ → Option ℕ
strcmp zero m src dest = none
strcmp (suc fuel) m src dest = elim (m src == m dest) [
  | false ↦ some 1
  | true ↦ elim (m src == 0) [ true ↦ some 0 | false ↦ strcmp fuel m (suc src) (suc dest) ]
]

-- The loop of `_strlen`.
unfoldable pub strlen_loop : ℕ → Memory → ℕ → ℕ → Option ℕ
strlen_loop zero m p i = none
strlen_loop (suc fuel) m p i = elim (m p == 0) [
  | true ↦ some i
  | false ↦ strlen_loop fuel m (suc p) (i + 1)
]

unfoldable pub strlen : ℕ → Memory → ℕ → Option ℕ
strlen fuel m p = strlen_loop fuel m p 0

-- The character of a digit below 16.
unfoldable pub hex_char : ℕ → ℕ
hex_char ch = if ltb b'9' (ch + b'0') then ch + b'0' + 7 else ch + b'0'

-- The loop of `itoa` over the `n` lowest digits of the number.
unfoldable pub itoa_loop : ℕ → ℕ → Bool → List ℕ
itoa_loop zero num flag = []
itoa_loop (suc n) num flag =
    let ch = num / 16 ^ n % 16 in
    let shown = itoa_loop n num true in
    let hidden = itoa_loop n num false in if flag || ltb 0 ch then hex_char ch ∷ shown else hidden

-- The characters that `itoa` stores before the final 0; `num` is the 32-bit pattern.
unfoldable pub itoa : ℕ → List ℕ
itoa num = b'0' ∷ b'x' ∷ (if num == 0 then b'0' ∷ [] else itoa_loop 8 num false)

-- The character of a digit of `integer2char`.
unfoldable pub digit_char : ℕ → ℕ
digit_char m = if ltb m 10 then b'0' + m else b'A' + m - 10

-- The characters that `integer2char` stores for a number that is not negative. A number has fewer
-- digits than its value plus one.
unfoldable pub digits : ℕ → ℕ → ℕ → List ℕ
digits zero base i = []
digits (suc fuel) base i =
    let rest = digits fuel base (i / base) in
    (if i / base == 0 then [] else rest) ++ (digit_char (i % base) ∷ [])

-- `integer2char`. The least `int` is its own negation, so that its quotient and its remainder are
-- negative: the quotient is written with a second minus sign.
unfoldable pub integer2char : ℤ → ℕ → List ℕ
integer2char (pos n) base = digits (n + 1) base n
integer2char (negsuc n) base = elim (n == 2 ^ 31 - 1) [
  | false ↦ b'-' ∷ digits (n + 2) base (n + 1)
  | true ↦ b'-' ∷ b'-' ∷ (digits (n + 2) base (2 ^ 31 / base) ++ ((b'0' - 2 ^ 31 % base) ∷ []))
]

-- An argument of `vsprintf`: an `int`, or a `char*` as the string that it points to.
pub data Arg : Type 0 where
  int : ℤ → Arg
  text : List ℕ → Arg

-- The 32-bit pattern of an `int`.
unfoldable pub pattern32 : ℤ → ℕ
pattern32 (pos n) = n % 2 ^ 32
pattern32 (negsuc n) = 2 ^ 32 - 1 - n % 2 ^ 32

-- Where the loop of `vsprintf` stands: in the text, behind a '%', at the character that it skips
-- after "%%", in the zeros of a width with the `align_char` so far, or in its other digits with
-- `align_times`.
pub data Place : Type 0 where
  plain start skip : Place
  zeros : ℕ → Place
  width : ℕ → ℕ → Place

-- What one character does: the loop goes on elsewhere, having stored it or not, or it ends a
-- conversion with this `align_char` and `align_times`.
pub data Step : Type 0 where
  more emit : Place → Step
  convert : ℕ → ℕ → Step

abbrev pub is_digit : ℕ → Bool
is_digit c = leb b'0' c && leb c b'9'

unfoldable pub width_step : ℕ → ℕ → ℕ → Step
width_step ch times c =
    if is_digit c then more (width ch (times * 10 + c - b'0')) else convert ch times

unfoldable pub zeros_step : ℕ → ℕ → Step
unfolding width_step
zeros_step ch c = if c == b'0' then more (zeros b'0') else width_step ch 0 c

unfoldable pub next_step : Place → ℕ → Step
unfolding zeros_step width_step
next_step plain c = if c == b'%' then more start else emit plain
next_step skip c = more plain
next_step start c = if c == b'%' then emit skip else zeros_step b' ' c
next_step (zeros ch) c = zeros_step ch c
next_step (width ch times) c = width_step ch times c

-- `switch (*fmt)`: what goes to the buffer, the length of `tmp`, and the arguments left. `none` says
-- that it reads an argument of another type, or one that was not given.
unfoldable pub conversion : ℕ → List Arg → Option (List ℕ × ℕ × List Arg)
unfolding integer2char itoa
conversion c args =
    if c == b'd'
    then elim args [
      | int x ∷ rest ↦ some (integer2char x 10, length (integer2char x 10), rest)
      | text s ∷ rest ↦ none
      | [] ↦ none
    ]
    else if c == b'x'
    then elim args [
      | int x ∷ rest ↦ some (itoa (pattern32 x), length (itoa (pattern32 x)), rest)
      | text s ∷ rest ↦ none
      | [] ↦ none
    ]
    else if c == b's'
    then elim args [ text s ∷ rest ↦ some (s, 0, rest) | int x ∷ rest ↦ none | [] ↦ none ]
    else some ([], 0, args)

abbrev pub repeat : ℕ → ℕ → List ℕ
repeat zero c = []
repeat (suc n) c = c ∷ repeat n c

-- The text, and a further piece of it.
abbrev pub then_text : List ℕ → Option (List ℕ) → Option (List ℕ)
then_text xs none = none
then_text xs (some ys) = some (xs ++ ys)

-- The format ends well in the text only.
abbrev pub at_end : Place → Option (List ℕ)
at_end plain = some []
at_end _ = none

-- The loop of `vsprintf` over the format: the characters that it stores before the final 0. The
-- padding of a conversion follows it. `none` also says that the loop runs past the end of the format.
unfoldable pub format : Place → List ℕ → List Arg → Option (List ℕ)
format place [] args = at_end place
format place (c ∷ cs) args = elim (next_step place c) [
  | more q ↦ format q cs args
  | emit q ↦ then_text (c ∷ []) (format q cs args)
  | convert ch times ↦ elim (conversion c args) [
    | none ↦ none
    | some (out, len, rest) ↦ then_text (out ++ repeat (times - len) ch) (format plain cs rest)
  ]
]

unfoldable pub vsprintf : List ℕ → List Arg → Option (List ℕ)
unfolding format
vsprintf fmt args = format plain fmt args
