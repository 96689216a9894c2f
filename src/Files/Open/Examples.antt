-- ===== src/Files/Open/Examples.antt =====
-- The theorem on `do_open` and `do_close` of fs/fs.c at a concrete state.
use mini_operate_system.Kernel.Protect.{vir2linear}
use mini_operate_system.Prelude.{
  ℕ, zero, suc, ◌<◌, ◌≡◌, refl, arith, none, some, ◌==◌, [], ◌∷◌, if◌then◌else◌,
}
use mini_operate_system.Files.Disk.{FileSystem, Inode, SuperBlock, fail, i_regular, get32}
use mini_operate_system.Files.Inodes.Counts.{IsHeld}
use mini_operate_system.Files.Format.{zero_inode, i_directory}
use mini_operate_system.Files.Path.{strip_name, copy_name, skip_root, same_name}
use mini_operate_system.Files.Open.{c_string, do_open, do_close}
use mini_operate_system.Files.Open.Close.{opened, closed}
use mini_operate_system.Files.Open.Existing.{IsEntry, IsThere, do_open-do_close}

-- The root directory, with one entry.
abbrev root : Inode
root = record {
  i_mode = i_directory;
  i_size = 16;
  i_start_sector = 2500;
  i_nr_sectors = 2048;
  i_dev = 800;
  i_cnt = 1;
  i_num = 1;
}

abbrev file : Inode
file = record {
  i_mode = i_regular;
  i_size = 700;
  i_start_sector = 4548;
  i_nr_sectors = 2048;
  i_dev = 800;
  i_cnt = 2;
  i_num = 6;
}

abbrev super : SuperBlock
super = record {
  magic = 0x111;
  nr_inodes = 4096;
  nr_sectors = 100000;
  nr_imap_sectors = 1;
  nr_smap_sectors = 25;
  n_1st_sector = 284;
  nr_inode_sectors = 256;
  root_inode = 1;
  inode_size = 32;
  inode_isize_off = 4;
  inode_start_off = 8;
  dir_ent_size = 16;
  dir_ent_inode_off = 0;
  dir_ent_fname_off = 4;
  sb_dev = 800;
}

-- The file "f" has the number 6; process 1 has "/f" at 4096.
abbrev mounted : FileSystem
mounted = record {
  disk = λ dev n i. if i == 0 then 6 else if i == 4 then b'f' else 0;
  fsbuf = λ i. 0;
  inode_table = λ i. if i == 0 then root else if i == 1 then file else zero_inode;
  super_block = λ i. super;
  root_inode = 0;
  f_desc_table = λ d. record { fd_mode = 0; fd_pos = 0; fd_inode = none };
  filp = λ p fd. none;
  seg_base = λ p. 0;
  mem = λ a. if a == 4096 then b'/' else b'f';
}

entry : IsEntry mounted 1 0 6 (b'f' ∷ [])
unfolding same_name get32
entry = record {
  size = omega arith;
  inside = omega arith;
  one_sector = omega arith;
  here = refl;
  before = λ i lt. absurd (omega arith);
  number = refl;
}

no_inode : (j : ℕ) → j < 1 → ¬ IsHeld 800 6 (mounted.inode_table j)
no_inode zero lt hold = let e = hold.number in absurd (omega arith)
no_inode (suc j) lt hold = absurd (omega arith)

there : IsThere mounted 1 4096 2 2 0 0 1 0 6 1 (b'f' ∷ [])
unfolding strip_name vir2linear copy_name skip_root c_string
there = record {
  short = omega arith;
  file_free = record { inside = omega arith; free = refl; before = λ j lt. absurd (omega arith) };
  desc_free = record { inside = omega arith; free = refl; before = λ j lt. absurd (omega arith) };
  path = refl;
  entry = entry;
  some_number = omega arith;
  no_creat = refl;
  rdwr = refl;
  in_table = omega arith;
  in_use = record { in_use = omega arith; device = refl; number = refl };
  first = no_inode;
  regular = refl;
}

do_open-do_close_example :
    (buf : ℕ → ℕ) × (do_open (λ minor. fail) 1 4096 2 2 mounted
      ≡ some (some 0, opened 1 2 0 0 1 buf mounted))
    × (do_close 1 0 (opened 1 2 0 0 1 buf mounted) ≡ some (tt, closed 2 0 buf mounted))
do_open-do_close_example =
    do_open-do_close (λ minor. fail) mounted 1 4096 2 2 0 0 1 0 6 1 (b'f' ∷ []) there
