-- ===== src/Files/Unlink.antt =====
-- `do_unlink` of fs/link.c, from the path name in the task's own memory on.
use mini_operate_system.Prelude.{
  ℕ, zero, suc, ◌+◌, ◌-◌, ◌*◌, ◌/◌, ◌%◌, ◌^◌, Bool, true, false, ◌&&◌, ◌==◌, ltb, leb,
  if◌then◌else◌, Option, none, some, List, [], ◌∷◌, update, length,
}
use mini_operate_system.Files.Disk.{
  SuperBlock, Inode, F, ◌>>=◌, ◌>>◌, pure, fail, assert, get, sector_size, dir_entry_size,
  i_regular, splice, rd_sect, wr_sect, get32, has_bit, clear_bit,
}
use mini_operate_system.Files.Inodes.{
  get_super_block, set_inode, get_inode, put_inode, set_fsbuf, sync_inode,
}
use mini_operate_system.Files.Path.{
  strip_path, search_file, nr_dir_blks, nr_dir_entries, entries_per_sector,
}

abbrev pub max_path : ℕ
max_path = 64

-- The loop over the bits of the first byte: each must be set and is cleared. It gives the byte and
-- `bits_left`.
unfoldable pub free_bits : ℕ → ℕ → ℕ → ℕ → Option (ℕ × ℕ)
free_bits zero i byte left = some (byte, left)
free_bits (suc n) i byte left = elim (ltb 0 left) [
  | false ↦ some (byte, left)
  | true ↦ elim (has_bit byte i) [
    | true ↦ free_bits n (suc i) (clear_bit byte i) (left - 1)
    | false ↦ none
  ]
]

-- The change to the next sector of the map, `s`, at the end of one; `i` is the byte.
unfoldable pub next_sector : ℕ → ℕ → ℕ → F (ℕ × ℕ)
next_sector dev s i = elim (i == sector_size) [
  | true ↦ (do wr_sect dev s; rd_sect dev (suc s); pure (suc s, 0))
  | false ↦ pure (s, i)
]

-- The loop over `n` whole bytes.
unfoldable pub free_bytes : ℕ → ℕ → ℕ → ℕ → F (ℕ × ℕ)
free_bytes zero dev s i = pure (s, i)
free_bytes (suc n) dev s i = do
  (s, i) ← next_sector dev s i
  b ← get
  assert (b.fsbuf i == 0xFF)
  set_fsbuf (λ b. update b i 0)
  free_bytes n dev s (suc i)

-- "Free the inode map bit".
unfoldable pub free_imap_bit : ℕ → ℕ → F (Unit {0})
free_imap_bit dev inode_nr = do
  let byte_idx = inode_nr / 8
  let bit_idx = inode_nr % 8
  assert (ltb byte_idx sector_size)
  rd_sect dev 2
  s ← get
  assert (has_bit (s.fsbuf byte_idx) bit_idx)
  set_fsbuf (λ b. update b byte_idx (clear_bit (b byte_idx) bit_idx))
  wr_sect dev 2

-- "Free the sector map bit", for the sectors of inode `p`. A start below the data sectors would
-- give a negative index.
unfoldable pub free_smap_bits : Inode → SuperBlock → F (Unit {0})
free_smap_bits p sb = do
  assert (leb sb.n_1st_sector (p.i_start_sector + 1))
  let bit_idx = p.i_start_sector + 1 - sb.n_1st_sector
  let byte_idx = bit_idx / 8
  let byte_cnt = (p.i_nr_sectors - (8 - bit_idx % 8)) / 8
  let s = 2 + sb.nr_imap_sectors + byte_idx / sector_size
  let first = byte_idx % sector_size
  rd_sect p.i_dev s
  b ← get
  elim (free_bits (8 - bit_idx % 8) (bit_idx % 8) (b.fsbuf first) p.i_nr_sectors) [
    | none ↦ fail
    | some (byte, left) ↦ (do
      set_fsbuf (λ b. update b first byte)
      (s, i) ← free_bytes byte_cnt p.i_dev s (first + 1)
      (s, i) ← next_sector p.i_dev s i
      let bits_left = left - 8 * byte_cnt
      b ← get
      assert (b.fsbuf i % 2 ^ bits_left == 2 ^ bits_left - 1)
      set_fsbuf (λ b. update b i (b i / 2 ^ bits_left * 2 ^ bits_left))
      wr_sect p.i_dev s)
  ]

-- What the loops over the directory carry: the entries counted, the size of the directory up to
-- here, and the index of the entry found.
pub record Scan : Type 0 where
  pub m : ℕ
  pub dir_size : ℕ
  pub found : Option ℕ

unfoldable pub find_entry : ℕ → ℕ → ℕ → ℕ → Scan → (ℕ → ℕ) → Scan
find_entry zero j inode_nr entries c b = c
find_entry (suc n) j inode_nr entries c b = elim (ltb entries (c.m + 1)) [
  | true ↦ record c { m = c.m + 1 }
  | false ↦ elim (get32 b (j * dir_entry_size) == inode_nr) [
    | true ↦ record c { m = c.m + 1; found = some j }
    | false ↦
        let size =
          if get32 b (j * dir_entry_size) == 0 then c.dir_size else c.dir_size + dir_entry_size in
        find_entry n (suc j) inode_nr entries (record c { m = c.m + 1; dir_size = size }) b
  ]
]

-- The loop over the `n` blocks of the directory from `i` on; the entry found is filled with 0.
unfoldable pub remove_entry : ℕ → ℕ → ℕ → Scan → Inode → F Scan
remove_entry zero i inode_nr c dir = pure c
remove_entry (suc n) i inode_nr c dir = do
  rd_sect dir.i_dev (dir.i_start_sector + i)
  s ← get
  let c = find_entry entries_per_sector 0 inode_nr (nr_dir_entries dir) c s.fsbuf
  elim c.found [
    | some j ↦ (do
      set_fsbuf (λ b. splice b (j * dir_entry_size) dir_entry_size (λ i. 0))
      wr_sect dir.i_dev (dir.i_start_sector + i)
      pure c)
    | none ↦ elim (ltb (nr_dir_entries dir) c.m) [
      | true ↦ pure c
      | false ↦ remove_entry n (suc i) inode_nr c dir
    ]
  ]

-- "Handle directory entries"; the last entry's removal shortens the directory.
unfoldable pub unlink_entry : ℕ → ℕ → F (Unit {0})
unlink_entry dir inode_nr = do
  s ← get
  let d = s.inode_table dir
  c ← remove_entry (nr_dir_blks d) 0 inode_nr (record { m = 0; dir_size = 0; found = none }) d
  assert (elim c.found [ some j ↦ true | none ↦ false ])
  elim (c.m == nr_dir_entries d) [
    | true ↦ (do set_inode dir (λ d. record d { i_size = c.dir_size }); sync_inode dir)
    | false ↦ pure tt
  ]

-- "Clear Inode".
unfoldable pub clear_inode : ℕ → F (Unit {0})
clear_inode p = do
  set_inode p (λ i. record i { i_mode = 0; i_size = 0; i_start_sector = 0; i_nr_sectors = 0 })
  sync_inode p
  put_inode p

-- The path is "/".
abbrev pub is_root : List ℕ → Bool
is_root (c ∷ []) = c == b'/'
is_root path = false

-- `do_unlink`: 0, or `none` for -1. A refusal after `get_inode` keeps the reference that it took.
unfoldable pub do_unlink : List ℕ → F (Option ℕ)
do_unlink pathname = do
  assert (ltb (length pathname) max_path)
  elim (is_root pathname) [
    | true ↦ pure none
    | false ↦ (do
      inode_nr ← search_file pathname
      s ← get
      elim (if inode_nr == 0 then none else strip_path s.root_inode (some pathname)) [
        | none ↦ pure none
        | some (filename, dir) ↦ (do
          pin ← get_inode (s.inode_table dir).i_dev inode_nr
          elim pin [
            | none ↦ fail
            | some pin ↦ (do
              s ← get
              let p = s.inode_table pin
              elim ((p.i_mode == i_regular) && leb p.i_cnt 1) [
                | false ↦ pure none
                | true ↦ (do
                  sb ← get_super_block p.i_dev
                  free_imap_bit p.i_dev inode_nr
                  free_smap_bits p sb
                  clear_inode pin
                  unlink_entry dir inode_nr
                  pure (some 0))
              ])
          ])
      ])
  ]
