-- ===== src/Files/Transfer/Grown.antt =====
-- The end of `do_rdwt` of fs/fs.c after a write that makes the file longer: the new size in the
-- inode table and in the sector of the inode.
use mini_operate_system.Prelude.{
  ℕ, ◌+◌, ◌-◌, ◌*◌, ◌/◌, ◌%◌, ◌≤◌, ◌<◌, ◌≡◌, ◌∙◌, refl, arith, true, false, ◌==◌, ltb, some, update,
}
use mini_operate_system.Files.Disk.{
  FileSystem, Inode, SuperBlock, ◌>>=◌, ◌>>◌, sector_size, splice, get32, rd_sect, wr_sect,
  write_sector,
}
use mini_operate_system.Files.Inodes.{
  get_super_block, sync_inode, inode_sector, inode_offset, store_inode, load_inode,
}
use mini_operate_system.Files.Inodes.Sync.{get_super_block-same}
use mini_operate_system.Files.Inodes.Roundtrip.{get32-same, Fits, SameFile, store_inode-roundtrip}
use mini_operate_system.Files.Transfer.Once.{file_byte}
use mini_operate_system.Files.Transfer.Inside.{finish}

-- The state after `sync_inode` of inode `pin` with the size `end`.
abbrev pub grown : ℕ → ℕ → SuperBlock → FileSystem → FileSystem
grown pin end sb s =
    let p = record (s.inode_table pin) { i_size = end } in
    let sect = inode_sector sb p.i_num in
    let buf =
      store_inode p (inode_offset p.i_num) (splice s.fsbuf 0 sector_size (s.disk p.i_dev sect)) in
    record s {
      inode_table = update s.inode_table pin p;
      fsbuf = buf;
      disk = write_sector s.disk p.i_dev sect buf;
    }

pub finish-grown :
    (pin end len : ℕ) (sb : SuperBlock) (s : FileSystem)
    → (s.inode_table pin).i_size < end
    → 0 < (s.inode_table pin).i_num
    → get_super_block (s.inode_table pin).i_dev s ≡ some (sb, s)
    → finish pin end len s ≡ some (len, grown pin end sb s)
unfolding sync_inode rd_sect wr_sect
finish-grown pin end len sb s longer numbered found =
    let p = record (s.inode_table pin) { i_size = end } in
    let s2 = record s { inode_table = update s.inode_table pin p } in
    let more : ltb (s.inode_table pin).i_size end ≡ true = ground arith in
    let own : pin == pin ≡ true = ground arith in
    let self : update s.inode_table pin p pin ≡ p = rw (own) refl in
    let has_number : ltb 0 (s.inode_table pin).i_num ≡ true = ground arith in
    let found2 = get_super_block-same (s.inode_table pin).i_dev sb s s2 refl found in
    rw (finish, more, self, found2, self, has_number, self, ◌>>=◌, ◌>>◌) refl

-- The sectors of the file are not the one of the inode.
pub file_byte-grown :
    (pin end k : ℕ) (sb : SuperBlock) (s : FileSystem)
    → inode_sector sb (s.inode_table pin).i_num < (s.inode_table pin).i_start_sector
    → file_byte (grown pin end sb s).disk (s.inode_table pin) k
      ≡ file_byte s.disk (s.inode_table pin) k
file_byte-grown pin end k sb s ahead =
    let p = s.inode_table pin in
    let other : p.i_start_sector + k / sector_size == inode_sector sb p.i_num ≡ false =
      ground arith in
    let own : p.i_dev == p.i_dev ≡ true = ground arith in rw (own, other) refl

load_inode-same :
    (a b : ℕ → ℕ) (at : ℕ) (p q : Inode)
    → at + 16 ≤ sector_size
    → ((i : ℕ) → i < sector_size → a i ≡ b i)
    → SameFile (load_inode b at q) p
    → SameFile (load_inode a at q) p
unfolding load_inode
load_inode-same a b at p q le same f =
    let word : (i : ℕ) → i + 4 ≤ sector_size → get32 a i ≡ get32 b i =
      λ i lt. get32-same a b i lt same in
    record {
      mode = word at (omega arith) ∙ f.mode;
      size = word (at + 4) (omega arith) ∙ f.size;
      start_sector = word (at + 8) (omega arith) ∙ f.start_sector;
      nr_sectors = word (at + 12) (omega arith) ∙ f.nr_sectors;
    }

pub grown-stored :
    (pin end : ℕ) (sb : SuperBlock) (s : FileSystem) (q : Inode)
    → Fits (record (s.inode_table pin) { i_size = end })
    → let p = s.inode_table pin in
      SameFile
        (load_inode
          ((grown pin end sb s).disk p.i_dev (inode_sector sb p.i_num))
          (inode_offset p.i_num)
          q)
        (record p { i_size = end })
unfolding inode_offset
grown-stored pin end sb s q fits =
    let p = s.inode_table pin in
    let sect = inode_sector sb p.i_num in
    let at = (p.i_num - 1) % 16 * 32 in
    let disk = (grown pin end sb s).disk in
    let buf = (grown pin end sb s).fsbuf in
    load_inode-same (disk p.i_dev sect) buf at (record p { i_size = end }) q (omega arith)
      (λ i lt.
        let own : p.i_dev == p.i_dev ≡ true = ground arith in
        let here_too : sect == sect ≡ true = ground arith in
        let byte : ltb i sector_size ≡ true = ground arith in rw (own, here_too, byte) refl)
      (store_inode-roundtrip (record p { i_size = end }) q at _ fits)

pub inode-grown :
    (pin end : ℕ) (sb : SuperBlock) (s : FileSystem)
    → (grown pin end sb s).inode_table pin ≡ record (s.inode_table pin) { i_size = end }
inode-grown pin end sb s = let own : pin == pin ≡ true = ground arith in rw (own) refl
