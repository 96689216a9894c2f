-- ===== src/Files/Path/Strip.antt =====
-- The names that `strip_path` of fs/open.c accepts.
use mini_operate_system.Prelude.{
  ℕ, zero, suc, ◌≡◌, ◌∙◌, ap, Option, inl, inr, refl, Bool, true, false, ◌==◌, if◌then◌else◌, none,
  some, List, [], ◌∷◌, Bool-cases,
}
use mini_operate_system.Files.Disk.{max_filename_len}
use mini_operate_system.Files.Path.{copy_name, skip_root, strip_name, strip_path}

abbrev take : ℕ → List ℕ → List ℕ
take zero s = []
take (suc n) [] = []
take (suc n) (c ∷ s) = c ∷ take n s

abbrev has_slash : List ℕ → Bool
has_slash [] = false
has_slash (c ∷ s) = if c == b'/' then true else has_slash s

copy_name_lem :
    (n : ℕ) (s : List ℕ) → copy_name n s ≡ (if has_slash (take n s) then none else some (take n s))
unfolding copy_name
copy_name_lem zero s = refl
copy_name_lem (suc n) [] = refl
copy_name_lem (suc n) (c ∷ s) = elim (Bool-cases (c == b'/')) [
  | inl slash ↦ rw (copy_name, slash) refl
  | inr other ↦ elim (Bool-cases (has_slash (take n s))) [
    | inl bad ↦ rw (copy_name, other, copy_name_lem n s, bad) refl
    | inr good ↦ rw (copy_name, other, copy_name_lem n s, good) refl
  ]
]

-- The name and the directory of a path whose characters behind the first slash are `chars`.
abbrev pub named : ℕ → List ℕ → Option (List ℕ × ℕ)
named root chars =
    if has_slash (take max_filename_len chars)
    then none
    else some (take max_filename_len chars, root)

abbrev pub starts_with_slash : List ℕ → Bool
starts_with_slash [] = false
starts_with_slash (c ∷ s) = c == b'/'

skip_plain : (s : List ℕ) → starts_with_slash s ≡ false → skip_root s ≡ s
unfolding skip_root
skip_plain [] plain = refl
skip_plain (c ∷ s) plain = rw (plain) refl

strip_path-named :
    (root : ℕ) (pathname : List ℕ)
    → strip_path root (some pathname) ≡ named root (skip_root pathname)
unfolding strip_path strip_name
strip_path-named root pathname =
    let chars = skip_root pathname in
    elim (Bool-cases (has_slash (take max_filename_len chars))) [
      | inl bad ↦ rw (strip_path, copy_name_lem max_filename_len chars, bad) refl
      | inr good ↦ rw (strip_path, copy_name_lem max_filename_len chars, good) refl
    ]

-- A path names a file of the root directory, the only directory there is: behind one leading slash,
-- if there is one, the first 12 characters are the file's name, and the path is refused if one of
-- them is a slash. A null path is refused.
pub strip_path_lem :
    (root : ℕ) (chars : List ℕ)
    → (strip_path root none ≡ none)
      × (strip_path root (some (b'/' ∷ chars)) ≡ named root chars)
      × (starts_with_slash chars ≡ false → strip_path root (some chars) ≡ named root chars)
unfolding strip_path skip_root
strip_path_lem root chars = (
  refl,
  strip_path-named root (b'/' ∷ chars),
  λ plain. strip_path-named root chars ∙ ap (named root) (skip_plain chars plain),
)
