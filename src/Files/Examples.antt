-- ===== src/Files/Examples.antt =====
-- The theorems on fs/open.c at concrete states.
use mini_operate_system.Prelude.{
  ℕ, ◌<◌, ◌≡◌, refl, arith, subst, false, ◌≢◌, none, some, ◌==◌, [], ◌∷◌, if◌then◌else◌,
}
use mini_operate_system.Files.Disk.{◌>>◌, FileSystem, SuperBlock, Inode, i_regular}
use mini_operate_system.Files.Inodes.{
  sync_inode, put_inode, get_inode, get_super_block, find_super_block,
}
use mini_operate_system.Files.Inodes.Counts.{IsHeld}
use mini_operate_system.Files.Inodes.Reload.{Reloaded, sync_inode-get_inode}
use mini_operate_system.Files.Maps.{alloc_imap_bit}
use mini_operate_system.Files.Maps.First.{Taken, alloc_imap_bit-Taken}
use mini_operate_system.Files.Maps.Restore.{SameDisk, alloc_imap_bit-free_imap_bit}
use mini_operate_system.Files.Unlink.{free_imap_bit}
use mini_operate_system.Files.Path.{strip_path}
use mini_operate_system.Files.Path.Strip.{starts_with_slash, strip_path_lem}

abbrev file : Inode
file = record {
  i_mode = i_regular;
  i_size = 700;
  i_start_sector = 2500;
  i_nr_sectors = 2048;
  i_dev = 800;
  i_cnt = 1;
  i_num = 6;
}

abbrev no_file : Inode
no_file = record {
  i_mode = 0;
  i_size = 0;
  i_start_sector = 0;
  i_nr_sectors = 0;
  i_dev = 0;
  i_cnt = 0;
  i_num = 0;
}

abbrev super : SuperBlock
super = record {
  magic = 0x111;
  nr_inodes = 4096;
  nr_sectors = 100000;
  nr_imap_sectors = 1;
  nr_smap_sectors = 25;
  n_1st_sector = 284;
  nr_inode_sectors = 256;
  root_inode = 1;
  inode_size = 32;
  inode_isize_off = 4;
  inode_start_off = 8;
  dir_ent_size = 16;
  dir_ent_inode_off = 0;
  dir_ent_fname_off = 4;
  sb_dev = 800;
}

-- A new disk: the inodes 0 to 4 are used.
abbrev fresh : FileSystem
fresh = record {
  disk = λ dev n i. if n == 2 then (if i == 0 then 0x1f else 0) else 0;
  fsbuf = λ i. 0;
  inode_table = λ i. no_file;
  super_block = λ i. super;
  root_inode = 0;
  f_desc_table = λ d. record { fd_mode = 0; fd_pos = 0; fd_inode = none };
  filp = λ p fd. none;
  mem = λ a. 0;
  seg_base = λ p. 0;
}

fresh-super : get_super_block 800 fresh ≡ some (super, fresh)
unfolding get_super_block find_super_block
fresh-super = refl

fresh-bytes : (j : ℕ) → fresh.disk 800 2 j < 256
fresh-bytes j = ground arith

alloc_imap_bit-Taken_example :
    (nr : ℕ) × (s : FileSystem) × (alloc_imap_bit 800 fresh ≡ some (nr, s)) × Taken 800 fresh nr s
alloc_imap_bit-Taken_example =
    alloc_imap_bit-Taken fresh 800 super fresh-super (omega arith) fresh-bytes 0 (omega arith)
      (omega arith)

alloc_imap_bit-free_imap_bit_example :
    (nr : ℕ) × (s : FileSystem) × (t : FileSystem) × (alloc_imap_bit 800 fresh ≡ some (nr, s))
    × (free_imap_bit 800 nr s ≡ some (tt, t))
    × SameDisk fresh t
alloc_imap_bit-free_imap_bit_example =
    alloc_imap_bit-free_imap_bit fresh 800 super fresh-super (omega arith) fresh-bytes 0
      (omega arith) (omega arith)

strip_path_lem_example :
    (strip_path 3 none ≡ none)
    × (strip_path 3 (some (b'/' ∷ b'a' ∷ b'b' ∷ [])) ≡ some (b'a' ∷ b'b' ∷ [], 3))
    × (starts_with_slash (b'a' ∷ b'b' ∷ []) ≡ false
        → strip_path 3 (some (b'a' ∷ b'b' ∷ [])) ≡ some (b'a' ∷ b'b' ∷ [], 3))
strip_path_lem_example = strip_path_lem 3 (b'a' ∷ b'b' ∷ [])

-- Place 1 of the inode table holds inode 6, with one reference.
abbrev cached : FileSystem
cached = record fresh { inode_table = λ i. if i == 1 then file else no_file }

cached-super : get_super_block 800 cached ≡ some (super, cached)
unfolding get_super_block find_super_block
cached-super = refl

cached-once : (k : ℕ) → k < 4096 → k ≢ 1 → ¬ IsHeld 800 6 (cached.inode_table k)
cached-once k lt ne hold =
    let other : (k == 1) ≡ false = ground arith in
    let empty : cached.inode_table k ≡ no_file = rw (other) refl in
    let used = subst (λ (i : Inode). 0 < i.i_cnt) empty hold.in_use in absurd (omega arith)

sync_inode-get_inode_example :
    (q : ℕ) × (s : FileSystem) × ((sync_inode 1 >> (put_inode 1 >> get_inode 800 6)) cached
      ≡ some (some q, s))
    × Reloaded 1 cached q s
sync_inode-get_inode_example =
    sync_inode-get_inode cached 1 super refl (omega arith) cached-super (omega arith)
      (record {
        mode = omega arith;
        size = omega arith;
        start_sector = omega arith;
        nr_sectors = omega arith;
      })
      cached-once
