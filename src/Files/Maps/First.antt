-- ===== src/Files/Maps/First.antt =====
-- `alloc_imap_bit` of fs/open.c takes the first free inode.
use mini_operate_system.Prelude.{
  ℕ, zero, suc, ◌+◌, ◌*◌, ◌/◌, ◌%◌, ◌≤◌, ◌<◌, ◌≡◌, ◌≢◌, ◌⊎◌, inl, inr, refl, sym, ◌∙◌, Bool, ◌==◌,
  ltb, arith, true, false, some, none, update, ltb→lt, Bool-cases, Option-cases, ==_iff,
}
use mini_operate_system.Files.Disk.{
  FileSystem, SuperBlock, ◌>>=◌, ◌>>◌, sector_size, splice, write_sector, rd_sect, wr_sect, has_bit,
  set_bit,
}
use mini_operate_system.Files.Inodes.{get_super_block}
use mini_operate_system.Files.Maps.Bits.{set_bit-has_bit, has_bit-set_bit}
use mini_operate_system.Files.Maps.{first_zero, find_byte, alloc_imap_bit}

-- The loop stops at the first bit that is not set.
first_zero_lem :
    (n k byte : ℕ)
    → ((i : ℕ) → i < k → has_bit byte i ≡ true)
    → (first_zero n byte k ≤ k + n)
      × (first_zero n byte k < k + n → has_bit byte (first_zero n byte k) ≡ false)
      × ((i : ℕ) → i < first_zero n byte k → has_bit byte i ≡ true)
unfolding first_zero
first_zero_lem zero k byte below = (omega arith, λ h. ground arith, below)
first_zero_lem (suc n) k byte below = elim (Bool-cases (has_bit byte k)) [
  | inl set ↦
      let (a, b, c) = first_zero_lem n (suc k) byte (λ i h. elim (Bool-cases (i == k)) [
        | inl e ↦ let e' : i ≡ k = ground arith in rw (e') set
        | inr ne ↦ below i (ground arith)
      ]) in
      rw (first_zero, set) (omega arith, λ h. b (omega arith), c)
  | inr clear ↦ rw (first_zero, clear) (omega arith, λ h. clear, below)
]

-- A byte with its eight bits set is 0xFF.
full_byte : (byte : ℕ) → byte < 256 → ((i : ℕ) → i < 8 → has_bit byte i ≡ true) → byte ≡ 255
full_byte byte lt all =
    let b0 = all 0 (omega arith) in
    let b1 = all 1 (omega arith) in
    let b2 = all 2 (omega arith) in
    let b3 = all 3 (omega arith) in
    let b4 = all 4 (omega arith) in
    let b5 = all 5 (omega arith) in
    let b6 = all 6 (omega arith) in let b7 = all 7 (omega arith) in ground arith

-- The first byte that is not full.
find_byte_lem :
    (n j : ℕ) (b : ℕ → ℕ) (i : ℕ)
    → find_byte n j b ≡ some i
    → (j ≤ i) × (i < j + n) × (b i ≢ 255) × ((k : ℕ) → j ≤ k → k < i → b k ≡ 255)
unfolding find_byte
find_byte_lem zero j b i e = ground arith
find_byte_lem (suc n) j b i e = elim (Bool-cases (b j == 255)) [
  | inl full ↦
      let next : find_byte (suc n) j b ≡ find_byte n (suc j) b = rw (find_byte, full) refl in
      let (a, c, d, f) = find_byte_lem n (suc j) b i (sym next ∙ e) in
      (
        omega arith,
        omega arith,
        d,
        λ k h h'. elim (Bool-cases (k == j)) [
          | inl own ↦ let e' : k ≡ j = ground arith in rw (e') ((==_iff (b j) 255).0 full)
          | inr other ↦ f k (ground arith) h'
        ],
      )
  | inr free ↦
      let here : find_byte (suc n) j b ≡ some j = rw (find_byte, free) refl in
      let same : i ≡ j = (let f = sym here ∙ e in ground arith) in
      rw (same) (omega arith, omega arith, ground arith, λ k h h'. ground arith)
]

full_bits : (k : ℕ) → k < 8 → has_bit 255 k ≡ true
full_bits zero lt = refl
full_bits (suc zero) lt = refl
full_bits (suc (suc zero)) lt = refl
full_bits (suc (suc (suc zero))) lt = refl
full_bits (suc (suc (suc (suc zero)))) lt = refl
full_bits (suc (suc (suc (suc (suc zero))))) lt = refl
full_bits (suc (suc (suc (suc (suc (suc zero)))))) lt = refl
full_bits (suc (suc (suc (suc (suc (suc (suc zero))))))) lt = refl
full_bits (suc (suc (suc (suc (suc (suc (suc (suc k)))))))) lt = ground arith

find_byte-none :
    (n j : ℕ) (b : ℕ → ℕ) → find_byte n j b ≡ none → (k : ℕ) → j ≤ k → k < j + n → b k ≡ 255
unfolding find_byte
find_byte-none zero j b e k h h' = omega arith
find_byte-none (suc n) j b e k h h' = elim (Bool-cases (b j == 255)) [
  | inr free ↦
      let here : find_byte (suc n) j b ≡ some j = rw (find_byte, free) refl in
      let f = sym here ∙ e in ground arith
  | inl full ↦ elim (Bool-cases (k == j)) [
    | inl own ↦ let e' : k ≡ j = ground arith in rw (e') ((==_iff (b j) 255).0 full)
    | inr other ↦
        let next : find_byte (suc n) j b ≡ find_byte n (suc j) b = rw (find_byte, full) refl in
        find_byte-none n (suc j) b (sym next ∙ e) k (ground arith) (omega arith)
  ]
]

-- Bit `nr` of the first sector of the inode map of device `dev`.
abbrev pub used : (ℕ → ℕ → ℕ → ℕ) → ℕ → ℕ → Bool
used disk dev nr = has_bit (disk dev 2 (nr / 8)) (nr % 8)

-- What taking an inode number does.
pub record Taken (dev : ℕ) (s : FileSystem) (nr : ℕ) (s' : FileSystem) : Type 0 where
  pub was_free : used s.disk dev nr ≡ false
  pub first : (m : ℕ) → m < nr → used s.disk dev m ≡ true
  pub taken : used s'.disk dev nr ≡ true
  pub others : (m : ℕ) → m ≢ nr → used s'.disk dev m ≡ used s.disk dev m
  pub inside : nr / 8 < sector_size
  pub byte : s'.disk dev 2 (nr / 8) ≡ set_bit (s.disk dev 2 (nr / 8)) (nr % 8)
  pub bytes : (i : ℕ) → i ≢ nr / 8 → s'.disk dev 2 i ≡ s.disk dev 2 i
  pub sectors : (d n i : ℕ) → (d ≢ dev) ⊎ (n ≢ 2) → s'.disk d n i ≡ s.disk d n i

module _ (s : FileSystem) (dev i : ℕ) (lt : i < sector_size) (bytes : s.disk dev 2 i < 256)
    (room : s.disk dev 2 i ≢ 255) (full : (j : ℕ) → j < i → s.disk dev 2 j ≡ 255) where
  abbrev byte : ℕ
  byte = s.disk dev 2 i

  abbrev k : ℕ
  k = first_zero 8 byte 0

  abbrev nr : ℕ
  nr = i * 8 + k

  abbrev after : ℕ → ℕ
  after = update (splice s.fsbuf 0 sector_size (s.disk dev 2)) i (set_bit byte k)

  abbrev written : FileSystem
  written = record s { fsbuf = after; disk = write_sector s.disk dev 2 after }

  written-Taken : Taken dev s nr written
  written-Taken =
      let (le, clear, below) = first_zero_lem 8 0 byte (λ j h. ground arith) in
      let k_lt : k < 8 = elim (Bool-cases (ltb k 8)) [
        | inl h ↦ ltb→lt k 8 h
        | inr h ↦ let f = full_byte byte bytes (λ j h'. below j (ground arith)) in ground arith
      ] in
      let row : nr / 8 ≡ i = omega arith in
      let place : nr % 8 ≡ k = omega arith in
      record {
        was_free = rw (row, place) (clear k_lt);
        first = λ m h. elim (Bool-cases (m / 8 == i)) [
          | inl own ↦ let e : m / 8 ≡ i = ground arith in rw (e) (below (m % 8) (omega arith))
          | inr other ↦
              let e = full (m / 8) (ground arith) in rw (e) (full_bits (m % 8) (omega arith))
        ];
        taken =
            let same : after i ≡ set_bit byte k = ground arith in
            let now : written.disk dev 2 i ≡ set_bit byte k = ground arith in
            rw (row, place, now) (set_bit-has_bit byte k k_lt);
        others = λ m ne. elim (Bool-cases (m / 8 == i)) [
          | inl own ↦
              let e : m / 8 ≡ i = ground arith in
              let ne' : (m % 8 == k) ≡ false = ground arith in
              let b = has_bit-set_bit byte k (m % 8) bytes k_lt (omega arith) in
              let now : written.disk dev 2 i ≡ set_bit byte k = ground arith in
              rw (e, now, b, ne') refl
          | inr other ↦
              let same : written.disk dev 2 (m / 8) ≡ s.disk dev 2 (m / 8) = ground arith in
              rw (same) refl
        ];
        inside = rw (row) lt;
        byte =
            let now : written.disk dev 2 i ≡ set_bit byte k = ground arith in rw (row, place) now;
        bytes = λ m ne. let ne' : m ≢ i = ground arith in ground arith;
        sectors = λ d n j out. ground arith;
      }

module _ (s : FileSystem) (dev : ℕ) (sb : SuperBlock) (known : get_super_block dev s ≡ some (sb, s))
    (some_map : 0 < sb.nr_imap_sectors) (bytes : (j : ℕ) → s.disk dev 2 j < 256) where
  -- On a device with a super block and an inode map of bytes below 256, `alloc_imap_bit` takes the
  -- first free inode of the map's first sector if there is one: all the smaller numbers were used, it was free and is
  -- used, every other number is used or free as before, only its own byte of the map has changed,
  -- and the other sectors of the disks are as they were.
  pub alloc_imap_bit-Taken :
      (j : ℕ)
      → j < sector_size
      → s.disk dev 2 j ≢ 255
      → (nr : ℕ) × (s' : FileSystem) × (alloc_imap_bit dev s ≡ some (nr, s')) × Taken dev s nr s'
  unfolding rd_sect wr_sect alloc_imap_bit first_zero
  alloc_imap_bit-Taken j lt room =
      let buf = splice s.fsbuf 0 sector_size (s.disk dev 2) in
      let same : (i : ℕ) → i < sector_size → buf i ≡ s.disk dev 2 i = λ i h. ground arith in
      elim (Option-cases (find_byte sector_size 0 buf)) [
        | inl nothing ↦
            let f = find_byte-none sector_size 0 buf nothing j (omega arith) lt in
            let g = same j lt in ground arith
        | inr (i, e) ↦
            let (_, i_lt, some_room, all) = find_byte_lem sector_size 0 buf i e in
            let here = same i i_lt in
            let room' : s.disk dev 2 i ≢ 255 = ground arith in
            let full : (j : ℕ) → j < i → s.disk dev 2 j ≡ 255 =
              λ j h. sym (same j (omega arith)) ∙ all j (omega arith) h in
            let some_sector : (sb.nr_imap_sectors == 0) ≡ false = ground arith in
            (
              nr s dev i i_lt (bytes i) room' full,
              written s dev i i_lt (bytes i) room' full,
              rw (known, alloc_imap_bit, ◌>>=◌, ◌>>◌, some_sector, e, here) refl,
              written-Taken s dev i i_lt (bytes i) room' full,
            )
      ]
