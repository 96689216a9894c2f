-- ===== src/Files/Path/Entry.antt =====
-- The entries of a directory in a buffer: the loops of `search_file` and `new_dir_entry` of fs/open.c
-- over one sector, and the bytes of a new entry.
use mini_operate_system.Prelude.{
  ℕ, zero, suc, ◌+◌, ◌-◌, ◌*◌, ◌^◌, ◌≤◌, ◌<◌, ◌≡◌, ◌⊎◌, refl, ap, sym, ◌∙◌, inl, inr, arith, Bool,
  true, false, ◌==◌, ltb, leb, some, List, [], ◌∷◌, get_or, length, Bool-cases,
}
use mini_operate_system.Files.Disk.{dir_entry_size, max_filename_len, get32, put32}
use mini_operate_system.Files.Inodes.Roundtrip.{get32-put32, put32-outside}
use mini_operate_system.Files.Path.{
  same_name, hit, search_sector, Place, free_in_sector, put_dir_entry,
}

get_or-beyond : (xs : List ℕ) (i : ℕ) → length xs ≤ i → get_or xs i 0 ≡ 0
get_or-beyond [] i le = refl
get_or-beyond (x ∷ xs) zero le = absurd (omega arith)
get_or-beyond (x ∷ xs) (suc i) le = get_or-beyond xs i (omega arith)

same_name_self :
    (n i : ℕ) (name : List ℕ) (b : ℕ → ℕ) (at : ℕ)
    → ((l : ℕ) → l < i + n → get_or name l 0 ≡ b (at + l))
    → same_name n i name b at ≡ true
unfolding same_name
same_name_self zero i name b at same = refl
same_name_self (suc n) i name b at same =
    let hit_here : get_or name i 0 == b (at + i) ≡ true = ground (arith, same i) in
    rw (same_name, hit_here) (same_name_self n (suc i) name b at (λ l lt. same l (omega arith)))

pub same_name_same :
    (n i : ℕ) (name : List ℕ) (b b' : ℕ → ℕ) (at : ℕ)
    → ((l : ℕ) → l < i + n → b' (at + l) ≡ b (at + l))
    → same_name n i name b' at ≡ same_name n i name b at
unfolding same_name
same_name_same zero i name b b' at same = refl
same_name_same (suc n) i name b b' at same =
    let here : b' (at + i) ≡ b (at + i) = same i (omega arith) in
    elim (Bool-cases (get_or name i 0 == b (at + i))) [
      | inl e ↦
          rw (same_name, here, e)
            (same_name_same n (suc i) name b b' at (λ l lt. same l (omega arith)))
      | inr e ↦ rw (same_name, here, e) refl
    ]

-- The search ends at the first entry with the name, if the directory reaches up to it.
pub search_sector-hit :
    (n j m k entries : ℕ) (name : List ℕ) (b : ℕ → ℕ)
    → m ≡ j
    → j ≤ k
    → k < j + n
    → k ≤ entries
    → ((i : ℕ) → i < k → same_name max_filename_len 0 name b (i * dir_entry_size + 4) ≡ false)
    → same_name max_filename_len 0 name b (k * dir_entry_size + 4) ≡ true
    → search_sector n j m entries name b ≡ hit (get32 b (k * dir_entry_size))
unfolding search_sector
search_sector-hit zero j m k entries name b e le lt in_dir before here = absurd (omega arith)
search_sector-hit (suc n) j m k entries name b e le lt in_dir before here =
    elim (Bool-cases (j == k)) [
      | inl own ↦
          let at : j ≡ k = ground arith in
          let here' : same_name max_filename_len 0 name b (j * dir_entry_size + 4) ≡ true =
            rw at here in
          rw (search_sector, here') (ap (λ (i : ℕ). hit (get32 b (i * dir_entry_size))) at)
      | inr ne ↦
          let low : j < k = ground arith in
          let more : ltb entries (m + 1) ≡ false = ground arith in
          rw (search_sector, before j low, more)
            (search_sector-hit n (suc j) (m + 1) k entries name b (omega arith) (omega arith)
              (omega arith) in_dir before here)
    ]

-- Where `free_in_sector` ends: at a free entry of the directory, or right behind the last one.
pub record Free (b : ℕ → ℕ) (entries : ℕ) (p : Place) (k : ℕ) (f : Bool) : Type 0 where
  pub place : p ≡ record { i = 0; m = k + 1; pde = some k; is_free = f }
  pub room :
      ((f ≡ true) × (k < entries) × (get32 b (k * dir_entry_size) ≡ 0))
      ⊎ ((f ≡ false) × (k ≡ entries))

pub free_in_sector-Free :
    (n j m entries : ℕ) (b : ℕ → ℕ)
    → m ≡ j
    → j ≤ entries
    → entries < j + n
    → (k : ℕ) × (f : Bool) × Free b entries (free_in_sector n 0 j m entries b) k f
unfolding free_in_sector
free_in_sector-Free zero j m entries b e le lt = absurd (omega arith)
free_in_sector-Free (suc n) j m entries b e le lt = elim (Bool-cases (ltb entries (m + 1))) [
  | inl last ↦
      let at : m + 1 ≡ j + 1 = omega arith in
      (
        j,
        false,
        record { place = rw (free_in_sector, last, at) refl; room = inr (refl, ground arith) },
      )
  | inr more ↦ elim (Bool-cases (get32 b (j * dir_entry_size) == 0)) [
    | inl none_there ↦
        let at : m + 1 ≡ j + 1 = omega arith in
        (
          j,
          true,
          record {
            place = rw (free_in_sector, more, none_there, at) refl;
            room = inl (refl, ground arith, ground arith);
          },
        )
    | inr used ↦
        let (k, f, later) =
          free_in_sector-Free n (suc j) (m + 1) entries b (omega arith) (ground arith)
            (omega arith) in
        (k, f, record { place = rw (free_in_sector, more, used) later.place; room = later.room })
  ]
]

-- The buffer with a new entry at index `k`, where the entry's name was filled with 0.
module _ (k nr : ℕ) (name : List ℕ) (b : ℕ → ℕ) (short : length name < max_filename_len) where
  pub put_dir_entry-outside :
      (i : ℕ)
      → (i < k * dir_entry_size) ⊎ (k * dir_entry_size + dir_entry_size ≤ i)
      → put_dir_entry k nr name b i ≡ b i
  unfolding put_dir_entry
  put_dir_entry-outside i out = ground (arith, put32-outside nr (k * dir_entry_size) i b)

  put_dir_entry-low :
      (i : ℕ)
      → k * dir_entry_size ≤ i
      → i < k * dir_entry_size + 4
      → put_dir_entry k nr name b i ≡ put32 nr (k * dir_entry_size) b i
  unfolding put_dir_entry
  put_dir_entry-low i le lt = ground arith

  pub put_dir_entry-number :
      nr < 2 ^ 32 → get32 (put_dir_entry k nr name b) (k * dir_entry_size) ≡ nr
  unfolding get32
  put_dir_entry-number lt =
      let at = k * dir_entry_size in
      rw
        (
          put_dir_entry-low at (omega arith) (omega arith),
          put_dir_entry-low (at + 1) (omega arith) (omega arith),
          put_dir_entry-low (at + 2) (omega arith) (omega arith),
          put_dir_entry-low (at + 3) (omega arith) (omega arith),
        )
        (get32-put32 nr at b lt)

  pub put_dir_entry-name :
      ((l : ℕ) → l < max_filename_len → b (k * dir_entry_size + 4 + l) ≡ 0)
      → same_name max_filename_len 0 name (put_dir_entry k nr name b) (k * dir_entry_size + 4)
        ≡ true
  unfolding put_dir_entry
  put_dir_entry-name clean =
      same_name_self max_filename_len 0 name (put_dir_entry k nr name b) (k * dir_entry_size + 4)
        (λ l lt.
          let at : k * dir_entry_size + 4 + l - (k * dir_entry_size + 4) ≡ l = omega arith in
          let low : leb (k * dir_entry_size + 4) (k * dir_entry_size + 4 + l) ≡ true =
            ground arith in
          elim (Bool-cases (ltb l (length name + 1))) [
            | inl own ↦
                let high : ltb (k * dir_entry_size + 4 + l)
                      (k * dir_entry_size + 4 + (length name + 1))
                    ≡ true =
                  ground arith in
                rw (low, high, at) refl
            | inr past ↦
                let high : ltb (k * dir_entry_size + 4 + l)
                      (k * dir_entry_size + 4 + (length name + 1))
                    ≡ false =
                  ground arith in
                rw (low, high)
                  (get_or-beyond name l (ground arith)
                    ∙ sym (
                        put32-outside nr (k * dir_entry_size) (k * dir_entry_size + 4 + l) b
                          (omega arith)
                        ∙ clean l lt))
          ])
