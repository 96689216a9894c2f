-- ===== src/Text/Format.antt =====
-- `vsprintf` of lib/vsprintf.c on formats of text, `%d`, `%x` and `%s`.
use mini_operate_system.Prelude.{
  ℕ, ℤ, ◌-◌, ◌≡◌, ◌∙◌, refl, ap, arith, false, ◌==◌, Option, some, List, [], ◌∷◌, ◌++◌, length,
  append-nil,
}
use mini_operate_system.Text.{
  Arg, int, text, plain, emit, next_step, conversion, repeat, then_text, format, vsprintf,
  integer2char, itoa, pattern32,
}

-- What a format may be made of.
pub data Piece : Type 0 where
  letters : List ℕ → Piece
  decimal : ℤ → Piece
  hexadecimal : ℤ → Piece
  string : List ℕ → Piece

abbrev pub format_of : List Piece → List ℕ
format_of [] = []
format_of (letters xs ∷ ps) = xs ++ format_of ps
format_of (decimal x ∷ ps) = b'%' ∷ b'd' ∷ format_of ps
format_of (hexadecimal x ∷ ps) = b'%' ∷ b'x' ∷ format_of ps
format_of (string xs ∷ ps) = b'%' ∷ b's' ∷ format_of ps

abbrev pub args_of : List Piece → List Arg
args_of [] = []
args_of (letters xs ∷ ps) = args_of ps
args_of (decimal x ∷ ps) = int x ∷ args_of ps
args_of (hexadecimal x ∷ ps) = int x ∷ args_of ps
args_of (string xs ∷ ps) = text xs ∷ args_of ps

abbrev pub shown : List Piece → List ℕ
shown [] = []
shown (letters xs ∷ ps) = xs ++ shown ps
shown (decimal x ∷ ps) = integer2char x 10 ++ shown ps
shown (hexadecimal x ∷ ps) = itoa (pattern32 x) ++ shown ps
shown (string xs ∷ ps) = xs ++ shown ps

abbrev pub IsPlain : List ℕ → Type 0
IsPlain [] = Unit
IsPlain (x ∷ xs) = (x == b'%' ≡ false) × IsPlain xs

abbrev pub IsLetters : List Piece → Type 0
IsLetters [] = Unit
IsLetters (letters xs ∷ ps) = IsPlain xs × IsLetters ps
IsLetters (decimal x ∷ ps) = IsLetters ps
IsLetters (hexadecimal x ∷ ps) = IsLetters ps
IsLetters (string xs ∷ ps) = IsLetters ps

format-letter :
    (x : ℕ) (cs : List ℕ) (args : List Arg)
    → x == b'%' ≡ false
    → format plain (x ∷ cs) args ≡ then_text (x ∷ []) (format plain cs args)
unfolding format
format-letter x cs args ne =
    let step : next_step plain x ≡ emit plain = unfold next_step in rw (ne) refl in
    rw (format, step) refl

format-letters :
    (xs cs : List ℕ) (args : List Arg) (ys : List ℕ)
    → IsPlain xs
    → format plain cs args ≡ some ys
    → format plain (xs ++ cs) args ≡ some (xs ++ ys)
format-letters [] cs args ys p e = e
format-letters (x ∷ xs) cs args ys (ne, p) e =
    format-letter x (xs ++ cs) args ne ∙ ap (then_text (x ∷ [])) (format-letters xs cs args ys p e)

-- Behind a conversion without a width there is no padding.
unpadded :
    (out : List ℕ) (n c : ℕ) (o : Option (List ℕ)) (ys : List ℕ)
    → o ≡ some ys
    → then_text (out ++ repeat (0 - n) c) o ≡ some (out ++ ys)
unpadded out n c o ys e =
    let no_pad : 0 - n ≡ 0 = omega arith in rw (no_pad, append-nil out, e) refl

-- On a format of plain text and the conversions `%d`, `%x` and `%s` with fitting arguments
-- `vsprintf` ends and stores the text with each conversion replaced by its argument: what
-- `integer2char` and `itoa` write for the number, or the string.
pub vsprintf-shown :
    (ps : List Piece) → IsLetters ps → vsprintf (format_of ps) (args_of ps) ≡ some (shown ps)
unfolding vsprintf format next_step conversion
vsprintf-shown [] p = refl
vsprintf-shown (letters xs ∷ ps) (p, q) =
    format-letters xs (format_of ps) (args_of ps) (shown ps) p (vsprintf-shown ps q)
vsprintf-shown (decimal x ∷ ps) p =
    unpadded (integer2char x 10) (length (integer2char x 10)) b' ' _ (shown ps)
      (vsprintf-shown ps p)
vsprintf-shown (hexadecimal x ∷ ps) p =
    unpadded (itoa (pattern32 x)) (length (itoa (pattern32 x))) b' ' _ (shown ps)
      (vsprintf-shown ps p)
vsprintf-shown (string xs ∷ ps) p = unpadded xs 0 b' ' _ (shown ps) (vsprintf-shown ps p)
