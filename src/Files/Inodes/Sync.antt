-- ===== src/Files/Inodes/Sync.antt =====
-- `get_super_block` and `sync_inode` of fs/fs.c and fs/open.c as one step.
use mini_operate_system.Prelude.{
  ℕ, zero, suc, ◌<◌, ◌≡◌, ◌∙◌, refl, ap, inl, inr, arith, true, false, ◌==◌, ltb, some, Bool-cases,
}
use mini_operate_system.Files.Disk.{
  FileSystem, SuperBlock, ◌>>=◌, ◌>>◌, sector_size, splice, rd_sect, wr_sect, write_sector,
}
use mini_operate_system.Files.Inodes.{
  get_super_block, find_super_block, sync_inode, inode_sector, inode_offset, store_inode,
}

-- The super block of a device depends on the table alone.
find_super_block-same :
    (n i dev : ℕ) (sb : SuperBlock) (s s' : FileSystem)
    → s'.super_block ≡ s.super_block
    → find_super_block n i dev s ≡ some (sb, s)
    → find_super_block n i dev s' ≡ some (sb, s')
unfolding find_super_block
find_super_block-same zero i dev sb s s' same e = cc
find_super_block-same (suc n) i dev sb s s' same e =
    let at = ap (λ (t : ℕ → SuperBlock). t i) same in
    elim (Bool-cases ((s.super_block i).sb_dev == dev)) [
      | inl hit ↦
          let found = rw (find_super_block, hit) at e in
          let first : s.super_block i ≡ sb = cc in
          let hit' : (s'.super_block i).sb_dev == dev ≡ true = rw (at) hit in
          rw (find_super_block, hit') (ap (λ (x : SuperBlock). some (x, s')) (at ∙ first))
      | inr miss ↦
          let later = rw (find_super_block, miss) at e in
          let miss' : (s'.super_block i).sb_dev == dev ≡ false = rw (at) miss in
          rw (find_super_block, miss') (find_super_block-same n (suc i) dev sb s s' same later)
    ]

pub get_super_block-same :
    (dev : ℕ) (sb : SuperBlock) (s s' : FileSystem)
    → s'.super_block ≡ s.super_block
    → get_super_block dev s ≡ some (sb, s)
    → get_super_block dev s' ≡ some (sb, s')
unfolding get_super_block
get_super_block-same dev sb s s' same e = find_super_block-same 8 0 dev sb s s' same e

-- The state after `sync_inode`.
abbrev pub synced : ℕ → SuperBlock → FileSystem → FileSystem
synced p sb s =
    let i = s.inode_table p in
    let sect = inode_sector sb i.i_num in
    let buf =
      store_inode i (inode_offset i.i_num) (splice s.fsbuf 0 sector_size (s.disk i.i_dev sect)) in
    record s { fsbuf = buf; disk = write_sector s.disk i.i_dev sect buf }

pub sync_inode-synced :
    (p : ℕ) (sb : SuperBlock) (s : FileSystem)
    → 0 < (s.inode_table p).i_num
    → get_super_block (s.inode_table p).i_dev s ≡ some (sb, s)
    → sync_inode p s ≡ some (tt, synced p sb s)
unfolding rd_sect wr_sect sync_inode
sync_inode-synced p sb s numbered found =
    let has_number : ltb 0 (s.inode_table p).i_num ≡ true = ground arith in
    rw (sync_inode, found, has_number, ◌>>=◌, ◌>>◌) refl
