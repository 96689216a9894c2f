-- ===== src/Files/Transfer/Examples.antt =====
-- The theorems on `do_rdwt` of fs/fs.c at a concrete state.
use mini_operate_system.Prelude.{ℕ, ◌+◌, ◌%◌, Bool, some, ◌==◌, if◌then◌else◌}
use mini_operate_system.Files.Disk.{
  FileSystem, SuperBlock, Inode, FileDesc, F, ◌>>=◌, fail, i_regular,
}
use mini_operate_system.Files.Format.{zero_inode}

abbrev file : Inode
file = record {
  i_mode = i_regular;
  i_size = 700;
  i_start_sector = 2500;
  i_nr_sectors = 2048;
  i_dev = 800;
  i_cnt = 2;
  i_num = 6;
}

-- Of the file's 700 bytes the last 100 are left to read and to write.
abbrev desc : FileDesc
desc = record { fd_mode = 2; fd_pos = 600; fd_inode = some 9 }

abbrev super : SuperBlock
super = record {
  magic = 0x111;
  nr_inodes = 4096;
  nr_sectors = 100000;
  nr_imap_sectors = 1;
  nr_smap_sectors = 25;
  n_1st_sector = 284;
  nr_inode_sectors = 256;
  root_inode = 1;
  inode_size = 32;
  inode_isize_off = 4;
  inode_start_off = 8;
  dir_ent_size = 16;
  dir_ent_inode_off = 0;
  dir_ent_fname_off = 4;
  sb_dev = 800;
}

-- Process 1 has the file open as 2, with descriptor 3, and process 2 as 0, with descriptor 4.
abbrev opened : FileSystem
opened = record {
  disk = λ dev n i. (n + i) % 256;
  fsbuf = λ i. 0;
  inode_table = λ i. if i == 9 then file else zero_inode;
  super_block = λ i. super;
  root_inode = 0;
  f_desc_table = λ d. desc;
  filp = λ p fd. if p == 1 then some 3 else some 4;
  mem = λ a. a % 256;
  seg_base = λ p. 0;
}

abbrev no_device : Bool → ℕ → ℕ → ℕ → ℕ → F ℕ
no_device writes minor src buf len = fail
