-- ===== src/Files/Path/Examples.antt =====
-- The theorem on the directories of fs/open.c at a concrete state.
use mini_operate_system.Prelude.{
  ℕ, ◌*◌, ◌+◌, ◌<◌, ◌≡◌, ◌⊎◌, refl, inl, inr, arith, none, some, false, ◌==◌, [], ◌∷◌,
  if◌then◌else◌,
}
use mini_operate_system.Files.Disk.{FileSystem, SuperBlock, Inode, get32}
use mini_operate_system.Files.Inodes.{get_super_block, find_super_block, inode_sector}
use mini_operate_system.Files.Format.{i_directory, zero_inode}
use mini_operate_system.Files.Path.{
  strip_name, copy_name, skip_root, same_name, search_file, new_dir_entry,
}
use mini_operate_system.Files.Path.Enter.{first_sector, CanEnter}
use mini_operate_system.Files.Path.Added.{new_dir_entry-search_file}

-- The root directory, with one entry.
abbrev root : Inode
root = record {
  i_mode = i_directory;
  i_size = 16;
  i_start_sector = 2500;
  i_nr_sectors = 2048;
  i_dev = 800;
  i_cnt = 1;
  i_num = 1;
}

abbrev super : SuperBlock
super = record {
  magic = 0x111;
  nr_inodes = 4096;
  nr_sectors = 100000;
  nr_imap_sectors = 1;
  nr_smap_sectors = 25;
  n_1st_sector = 284;
  nr_inode_sectors = 256;
  root_inode = 1;
  inode_size = 32;
  inode_isize_off = 4;
  inode_start_off = 8;
  dir_ent_size = 16;
  dir_ent_inode_off = 0;
  dir_ent_fname_off = 4;
  sb_dev = 800;
}

-- The only file is "f", with the number 6.
abbrev rooted : FileSystem
rooted = record {
  disk = λ dev n i. if i == 0 then 6 else if i == 4 then b'f' else 0;
  fsbuf = λ i. 0;
  inode_table = λ i. if i == 0 then root else zero_inode;
  super_block = λ i. super;
  root_inode = 0;
  f_desc_table = λ d. record { fd_mode = 0; fd_pos = 0; fd_inode = none };
  filp = λ p fd. none;
  mem = λ a. 0;
  seg_base = λ p. 0;
}

rooted-clean :
    (j l : ℕ)
    → (j ≡ 1) ⊎ ((j < 1) × (get32 (first_sector rooted 0) (j * 16) ≡ 0))
    → l < 12
    → first_sector rooted 0 (j * 16 + 4 + l) ≡ 0
unfolding get32
rooted-clean j l (inl e) lt = ground arith
rooted-clean j l (inr (less, e)) lt = absurd (ground arith)

rooted-fresh :
    (j : ℕ) → j < 1 → same_name 12 0 (b'g' ∷ []) (first_sector rooted 0) (j * 16 + 4) ≡ false
unfolding same_name
rooted-fresh j lt = let e : j ≡ 0 = omega arith in rw e refl

rooted-CanEnter : CanEnter rooted 0 7 1 (b'g' ∷ []) super
unfolding get_super_block find_super_block inode_sector
rooted-CanEnter = record {
  size = refl;
  some_entry = omega arith;
  room = omega arith;
  short = omega arith;
  word = omega arith;
  clean = rooted-clean;
  fresh = rooted-fresh;
  numbered = omega arith;
  found = refl;
  elsewhere = omega arith;
}

rooted-name : strip_name (b'/' ∷ b'g' ∷ []) ≡ some (b'g' ∷ [])
unfolding strip_name copy_name skip_root
rooted-name = refl

new_dir_entry-search_file_example :
    (s' : FileSystem) × (s'' : FileSystem) × (new_dir_entry 0 7 (b'g' ∷ []) rooted ≡ some (tt, s'))
    × (search_file (b'/' ∷ b'g' ∷ []) s' ≡ some (7, s''))
new_dir_entry-search_file_example =
    new_dir_entry-search_file rooted 7 1 (b'g' ∷ []) (b'/' ∷ b'g' ∷ []) super rooted-CanEnter
      rooted-name
