-- ===== src/Files/Format/Examples.antt =====
-- The theorem on `mkfs` of fs/fs.c for a disk of 100000 sectors.
use mini_operate_system.Prelude.{◌≡◌, refl, arith, none, some}
use mini_operate_system.Files.Disk.{FileSystem, ◌>>◌}
use mini_operate_system.Files.Format.{
  mkfs, read_super_block, new_super_block, super_block_words, root_dev, zero_inode, zero_desc,
}
use mini_operate_system.Files.Format.Words.{IsStorable}
use mini_operate_system.Files.Format.Made.{mkfs-read_super_block}

abbrev blank : FileSystem
blank = record {
  disk = λ dev n i. 0;
  fsbuf = λ i. 0;
  inode_table = λ i. zero_inode;
  super_block = λ i. record (new_super_block 0) { sb_dev = 0 };
  root_inode = 0;
  f_desc_table = λ d. zero_desc;
  filp = λ p fd. none;
  mem = λ a. 0;
  seg_base = λ p. 0;
}

storable : IsStorable (new_super_block 100000)
unfolding new_super_block super_block_words
storable k lt = ground arith

mkfs-read_super_block_example :
    (s' : FileSystem) × ((do mkfs 100000; read_super_block root_dev) blank ≡ some (tt, s'))
    × (s'.super_block 0 ≡ record (new_super_block 100000) { sb_dev = root_dev })
mkfs-read_super_block_example = mkfs-read_super_block 100000 blank storable refl
