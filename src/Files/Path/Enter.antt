-- ===== src/Files/Path/Enter.antt =====
-- What `new_dir_entry` of fs/open.c needs of a directory and makes of it, and `search_file` in a root
-- directory of one sector.
use mini_operate_system.Prelude.{
  ℕ, ◌+◌, ◌*◌, ◌^◌, ◌≤◌, ◌<◌, ◌≡◌, ◌≢◌, ◌⊎◌, refl, ap, arith, Bool, true, false, leb, some, List,
  length, update, if◌then◌else◌,
}
use mini_operate_system.Files.Disk.{
  FileSystem, SuperBlock, Inode, F, ◌>>=◌, ◌>>◌, pure, sector_size, dir_entry_size,
  max_filename_len, splice, get32, rd_sect, write_sector,
}
use mini_operate_system.Files.Inodes.{get_super_block, set_inode, inode_sector}
use mini_operate_system.Files.Path.{
  same_name, hit, search_sector, search_dir, search_file, strip_path, strip_name, put_dir_entry,
  nr_dir_blks, nr_dir_entries, entries_per_sector,
}

-- The bytes of the directory's first sector.
abbrev pub first_sector : FileSystem → ℕ → ℕ → ℕ
first_sector s dir = s.disk (s.inode_table dir).i_dev (s.inode_table dir).i_start_sector

-- A directory of `n` entries in one sector, which has room for one more, with the name not among
-- them; free entries, and the one behind the last, have names of zeros. The directory's inode has a
-- number, a super block, and its place outside that sector.
pub record CanEnter (s : FileSystem) (dir nr n : ℕ) (name : List ℕ) (sb : SuperBlock) : Type 0 where
  pub size : (s.inode_table dir).i_size ≡ n * dir_entry_size
  pub some_entry : 0 < n
  pub room : n < entries_per_sector
  pub short : length name < max_filename_len
  pub word : nr < 2 ^ 32
  pub clean :
      (j l : ℕ)
      → (j ≡ n) ⊎ ((j < n) × (get32 (first_sector s dir) (j * dir_entry_size) ≡ 0))
      → l < max_filename_len
      → first_sector s dir (j * dir_entry_size + 4 + l) ≡ 0
  pub fresh :
      (j : ℕ)
      → j < n
      → same_name max_filename_len 0 name (first_sector s dir) (j * dir_entry_size + 4) ≡ false
  pub numbered : 0 < (s.inode_table dir).i_num
  pub found : get_super_block (s.inode_table dir).i_dev s ≡ some (sb, s)
  pub elsewhere : inode_sector sb (s.inode_table dir).i_num ≢ (s.inode_table dir).i_start_sector

-- The buffer with the directory's sector, and the state after the entry has been written.
abbrev pub sector_buffer : FileSystem → ℕ → ℕ → ℕ
sector_buffer s dir = splice s.fsbuf 0 sector_size (first_sector s dir)

abbrev pub entered : FileSystem → ℕ → ℕ → ℕ → List ℕ → (ℕ → Inode) → FileSystem
entered s dir k nr name t =
    let d = s.inode_table dir in
    let b = put_dir_entry k nr name (sector_buffer s dir) in
    record s { inode_table = t; fsbuf = b; disk = write_sector s.disk d.i_dev d.i_start_sector b }

-- The directory's size in the inode table `t` after the entry at `k`, the `n`-th or a free one.
abbrev pub grows : Bool → ℕ → F (Unit {0})
grows f dir =
    if f then pure tt else set_inode dir (λ d. record d { i_size = d.i_size + dir_entry_size })

-- `search_file` in a root directory of one sector.
pub search_file-first :
    (x : FileSystem) (path name : List ℕ) (m nr : ℕ)
    → strip_name path ≡ some name
    → (x.inode_table x.root_inode).i_size ≡ m * dir_entry_size
    → 0 < m
    → m ≤ entries_per_sector
    → search_sector entries_per_sector 0 0 m name
        (splice x.fsbuf 0 sector_size (first_sector x x.root_inode))
      ≡ hit nr
    → (x' : FileSystem) × (search_file path x ≡ some (nr, x'))
unfolding search_file search_dir rd_sect strip_path
search_file-first x path name m nr e size some_entry room hits =
    let d = x.inode_table x.root_inode in
    let blocks : nr_dir_blks d ≡ 1 = omega arith in
    let entries : nr_dir_entries d ≡ m = omega arith in
    let start : d.i_start_sector + 0 ≡ d.i_start_sector = omega arith in
    let low : leb 0 m ≡ true = ground arith in
    (
      record x { fsbuf = splice x.fsbuf 0 sector_size (first_sector x x.root_inode) },
      rw
          (
            search_file, ◌>>=◌, strip_path, e, blocks, search_dir, entries, low, ◌>>=◌, ◌>>◌, start,
            entries, hits,
          )
          refl,
    )

pub grows-free :
    (dir : ℕ) (t : ℕ → Inode) (x : FileSystem)
    → x.inode_table ≡ t
    → grows true dir x ≡ some (tt, record x { inode_table = t })
grows-free dir t x same = ap (λ (u : ℕ → Inode). some (tt, record x { inode_table = u })) same

pub grows-behind :
    (dir : ℕ) (t : ℕ → Inode) (x : FileSystem)
    → x.inode_table ≡ t
    → grows false dir x
      ≡ some (
        tt,
        record x {
          inode_table = update t dir (record (t dir) { i_size = (t dir).i_size + dir_entry_size });
        },
      )
grows-behind dir t x same =
    ap
      (λ (u : ℕ → Inode). some (
        tt,
        record x {
          inode_table = update u dir (record (u dir) { i_size = (u dir).i_size + dir_entry_size });
        },
      ))
      same
