-- ===== src/Files/Path.antt =====
-- File names and directories: `strip_path`, `search_file` and `new_dir_entry` of fs/open.c, and
-- `create_file` of fs/fs.c. A C string is the list of its characters before the 0.
pub mod Strip
pub mod Lookup
pub mod Entry
pub mod Enter
pub mod Added
mod Examples
use mini_operate_system.Prelude.{
  ℕ, zero, suc, ◌+◌, ◌-◌, ◌*◌, ◌/◌, Bool, true, false, ◌&&◌, ◌||◌, ◌==◌, ltb, leb, negate,
  if◌then◌else◌, Option, none, some, List, [], ◌∷◌, get_or, length,
}
use mini_operate_system.Files.Disk.{
  Inode, F, ◌>>=◌, ◌>>◌, pure, fail, get, sector_size, dir_entry_size, max_filename_len, splice,
  rd_sect, wr_sect, get32, put32,
}
use mini_operate_system.Files.Inodes.{
  set_inode, set_fsbuf, sync_inode, new_inode, nr_default_file_sects,
}
use mini_operate_system.Files.Maps.{alloc_imap_bit, alloc_smap_bit}

-- The `while` loop of `strip_path`, which copies at most `n` characters; `none` is -1.
unfoldable pub copy_name : ℕ → List ℕ → Option (List ℕ)
copy_name zero s = some []
copy_name (suc n) [] = some []
copy_name (suc n) (c ∷ s) = elim (c == b'/') [
  | true ↦ none
  | false ↦ elim (copy_name n s) [ some name ↦ some (c ∷ name) | none ↦ none ]
]

-- `if (*s == '/') s++;`
unfoldable pub skip_root : List ℕ → List ℕ
skip_root [] = []
skip_root (c ∷ s) = if c == b'/' then s else c ∷ s

-- The name that `strip_path` copies from a path.
unfoldable pub strip_name : List ℕ → Option (List ℕ)
strip_name pathname = copy_name max_filename_len (skip_root pathname)

-- `strip_path`, with the global `root_inode`: the name and the inode of the directory, or `none` for
-- -1. A null `pathname` is `none`.
unfoldable pub strip_path : ℕ → Option (List ℕ) → Option (List ℕ × ℕ)
strip_path root none = none
strip_path root (some pathname) = elim (strip_name pathname) [
  | none ↦ none
  | some filename ↦ some (filename, root)
]

-- `kmemcmp(filename, pde->name, MAX_FILENAME_LEN) == 0`, the first `n` characters from `i` on; the
-- file name is filled up with 0.
unfoldable pub same_name : ℕ → ℕ → List ℕ → (ℕ → ℕ) → ℕ → Bool
same_name zero i name b at = true
same_name (suc n) i name b at = elim (get_or name i 0 == b (at + i)) [
  | true ↦ same_name n (suc i) name b at
  | false ↦ false
]

abbrev pub entries_per_sector : ℕ
entries_per_sector = sector_size / dir_entry_size

-- The inner loop of `search_file` over the `n` entries of a sector from `j` on: the inode number of
-- the entry found, or how many entries have been counted. An entry is compared before it is counted.
pub data Search : Type 0 where
  hit : ℕ → Search
  counted : ℕ → Search

unfoldable pub search_sector : ℕ → ℕ → ℕ → ℕ → List ℕ → (ℕ → ℕ) → Search
search_sector zero j m entries name b = counted m
search_sector (suc n) j m entries name b =
    elim (same_name max_filename_len 0 name b (j * dir_entry_size + 4)) [
      | true ↦ hit (get32 b (j * dir_entry_size))
      | false ↦ elim (ltb entries (m + 1)) [
        | true ↦ counted (m + 1)
        | false ↦ search_sector n (suc j) (m + 1) entries name b
      ]
    ]

-- Its outer loop over the `n` sectors of the directory from `i` on.
unfoldable pub search_dir : ℕ → ℕ → ℕ → ℕ → Inode → List ℕ → F ℕ
search_dir zero i m entries dir name = pure 0
search_dir (suc n) i m entries dir name = elim (leb m entries) [
  | false ↦ pure 0
  | true ↦ (do
    rd_sect dir.i_dev (dir.i_start_sector + i)
    s ← get
    elim (search_sector entries_per_sector 0 m entries name s.fsbuf) [
      | hit inode_nr ↦ pure inode_nr
      | counted m ↦ search_dir n (suc i) m entries dir name
    ])
]

abbrev pub nr_dir_blks : Inode → ℕ
nr_dir_blks dir = (dir.i_size + sector_size - 1) / sector_size

abbrev pub nr_dir_entries : Inode → ℕ
nr_dir_entries dir = dir.i_size / dir_entry_size

unfoldable pub search_file : List ℕ → F ℕ
search_file path = do
  s ← get
  elim (strip_path s.root_inode (some path)) [
    | none ↦ pure 0
    | some (name, dir_inode) ↦ (do
      let dir = s.inode_table dir_inode
      search_dir (nr_dir_blks dir) 0 0 (nr_dir_entries dir) dir name)
  ]

-- Where the loops of `new_dir_entry` end: the block `i`, `pde` in its sector (unset if there was no
-- round), and whether `pde` is a free entry (`new_de`).
pub record Place : Type 0 where
  pub i : ℕ
  pub m : ℕ
  pub pde : Option ℕ
  pub is_free : Bool

unfoldable pub free_in_sector : ℕ → ℕ → ℕ → ℕ → ℕ → (ℕ → ℕ) → Place
free_in_sector zero i j m entries b = record { i = i; m = m; pde = some j; is_free = false }
free_in_sector (suc n) i j m entries b = elim (ltb entries (m + 1)) [
  | true ↦ record { i = i; m = m + 1; pde = some j; is_free = false }
  | false ↦ elim (get32 b (j * dir_entry_size) == 0) [
    | true ↦ record { i = i; m = m + 1; pde = some j; is_free = true }
    | false ↦ free_in_sector n i (suc j) (m + 1) entries b
  ]
]

unfoldable pub free_entry : ℕ → ℕ → Place → Inode → F Place
free_entry zero entries p dir = pure p
free_entry (suc n) entries p dir = do
  rd_sect dir.i_dev (dir.i_start_sector + p.i)
  s ← get
  let p = free_in_sector entries_per_sector p.i 0 p.m entries s.fsbuf
  elim (ltb entries p.m || p.is_free) [
    | true ↦ pure p
    | false ↦ free_entry n entries (record p { i = suc p.i }) dir
  ]

-- The entry at index `pde` of the buffer gets a number and a name. `_strcpy` also writes the final
-- 0, behind the entry if the name has 12 characters.
unfoldable pub put_dir_entry : ℕ → ℕ → List ℕ → (ℕ → ℕ) → ℕ → ℕ
put_dir_entry pde inode_nr name b =
    splice (put32 inode_nr (pde * dir_entry_size) b) (pde * dir_entry_size + 4) (length name + 1)
      (λ i. get_or name i 0)

-- `new_dir_entry`, for the directory at index `dir` of the inode table.
unfoldable pub new_dir_entry : ℕ → ℕ → List ℕ → F (Unit {0})
new_dir_entry dir inode_nr name = do
  s ← get
  let d = s.inode_table dir
  p ←
      free_entry (nr_dir_blks d) (nr_dir_entries d)
        (record { i = 0; m = 0; pde = none; is_free = false }) d
  elim p.pde [
    | none ↦ fail
    | some pde ↦ (do
      if p.is_free
          then pure tt
          else set_inode dir (λ d. record d { i_size = d.i_size + dir_entry_size })
      set_fsbuf (put_dir_entry pde inode_nr name)
      wr_sect d.i_dev (d.i_start_sector + p.i)
      sync_inode dir)
  ]

-- `create_file`; `none` is the null pointer.
unfoldable pub create_file : List ℕ → F (Option ℕ)
create_file path = do
  s ← get
  elim (strip_path s.root_inode (some path)) [
    | none ↦ pure none
    | some (name, dir_inode) ↦ (do
      let dev = (s.inode_table dir_inode).i_dev
      inode_nr ← alloc_imap_bit dev
      free_sect_nr ← alloc_smap_bit dev nr_default_file_sects
      newino ← new_inode dev inode_nr free_sect_nr
      s ← get
      new_dir_entry dir_inode (s.inode_table newino).i_num name
      pure (some newino))
  ]
