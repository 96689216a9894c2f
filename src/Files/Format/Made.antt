-- ===== src/Files/Format/Made.antt =====
-- `mkfs` of fs/fs.c and the super block that it leaves.
use mini_operate_system.Prelude.{
  ℕ, zero, suc, ◌+◌, ◌-◌, ◌<◌, ◌≡◌, ◌∙◌, refl, ap, fun_ext, arith, some, true, false, ◌==◌, ltb,
  leb, update,
}
use mini_operate_system.Files.Disk.{
  SuperBlock, FileSystem, F, ◌>>=◌, ◌>>◌, sector_size, splice, wr_sect,
}
use mini_operate_system.Files.Inodes.{set_fsbuf}
use mini_operate_system.Files.Format.{
  fill, root_dev, new_super_block, super_block_words, put_words, load_super_block,
  write_super_block, write_inode_map, write_zeros, write_sector_map, write_inodes, write_root, mkfs,
  read_super_block, set_bits,
}
use mini_operate_system.Files.Format.Words.{
  IsStorable, super_block-roundtrip, load_super_block-same,
}

-- The step returns and keeps sector 1 of the root device and the table of super blocks.
abbrev pub Keeps : F (Unit {0}) → Type 0
Keeps m =
    (s : FileSystem)
    → (s' : FileSystem) × (m s ≡ some (tt, s'))
      × (s'.disk root_dev 1 ≡ s.disk root_dev 1)
      × (s'.super_block ≡ s.super_block)

Keeps-then : (m k : F (Unit {0})) → Keeps m → Keeps k → Keeps (m >> k)
Keeps-then m k a b s =
    let (s1, e1, d1, t1) = a s in
    let (s2, e2, d2, t2) = b s1 in (s2, rw (e1, ◌>>=◌, ◌>>◌) e2, d2 ∙ d1, t2 ∙ t1)

Keeps-set_fsbuf : (f : (ℕ → ℕ) → ℕ → ℕ) → Keeps (set_fsbuf f)
Keeps-set_fsbuf f s = (record s { fsbuf = f s.fsbuf }, refl, refl, refl)

Keeps-wr_sect : (n : ℕ) → 1 < n → Keeps (wr_sect root_dev n)
unfolding wr_sect
Keeps-wr_sect n lt s =
    (_, refl, fun_ext (λ i. let other : 1 == n ≡ false = ground arith in ground arith), refl)

Keeps-write_zeros : (n sect : ℕ) → 1 < sect → Keeps (write_zeros n sect)
unfolding write_zeros
Keeps-write_zeros zero sect lt = λ s. (s, refl, refl, refl)
Keeps-write_zeros (suc n) sect lt =
    Keeps-then (wr_sect root_dev sect) (write_zeros n (suc sect)) (Keeps-wr_sect sect lt)
      (Keeps-write_zeros n (suc sect) (omega arith))

Keeps-write_inode_map : Keeps write_inode_map
unfolding write_inode_map set_bits
Keeps-write_inode_map s = Keeps-wr_sect 2 (omega arith) (record s { fsbuf = _ })

Keeps-write_sector_map : (sb : SuperBlock) → Keeps (write_sector_map sb)
unfolding write_sector_map
Keeps-write_sector_map sb s =
    let zeros = write_zeros (sb.nr_smap_sectors - 1) (2 + sb.nr_imap_sectors + 1) in
    Keeps-then (wr_sect root_dev (2 + sb.nr_imap_sectors)) (fill 0 >> zeros)
      (Keeps-wr_sect (2 + sb.nr_imap_sectors) (omega arith))
      (λ s.
        Keeps-write_zeros (sb.nr_smap_sectors - 1) (2 + sb.nr_imap_sectors + 1) (omega arith)
          (record s { fsbuf = _ }))
      (record s { fsbuf = _ })

Keeps-write_inodes : (sb : SuperBlock) → Keeps (write_inodes sb)
unfolding write_inodes
Keeps-write_inodes sb s =
    Keeps-wr_sect (2 + sb.nr_imap_sectors + sb.nr_smap_sectors) (omega arith)
      (record s { fsbuf = _ })

Keeps-write_root : (sb : SuperBlock) → 1 < sb.n_1st_sector → Keeps (write_root sb)
unfolding write_root
Keeps-write_root sb lt s = Keeps-wr_sect sb.n_1st_sector lt (record s { fsbuf = _ })

-- What `write_super_block` leaves on the disk.
record IsWritten (sb : SuperBlock) (s s' : FileSystem) : Type 0 where
  bytes :
      (i : ℕ)
      → i < sector_size
      → s'.disk root_dev 1 i
        ≡ put_words 0 (super_block_words sb) (splice s.fsbuf 0 sector_size (λ k. 0x90)) i
  slots : s'.super_block ≡ s.super_block

write_super_block-IsWritten :
    (sb : SuperBlock) (s : FileSystem)
    → (s' : FileSystem) × (write_super_block sb s ≡ some (tt, s')) × IsWritten sb s s'
unfolding write_super_block wr_sect
write_super_block-IsWritten sb s = (
  _,
  refl,
  record {
    bytes = λ i lt.
        let own : root_dev == root_dev ≡ true = ground arith in
        let byte : ltb i sector_size ≡ true = ground arith in rw (own, byte) refl;
    slots = refl;
  },
)

abbrev loaded : ℕ → FileSystem → FileSystem
loaded dev s =
    let b = splice s.fsbuf 0 sector_size (s.disk dev 1) in
    record s { fsbuf = b; super_block = update s.super_block 0 (load_super_block b dev) }

read_super_block-free :
    (dev : ℕ) (s : FileSystem)
    → (s.super_block 0).sb_dev ≡ 0
    → read_super_block dev s ≡ some (tt, loaded dev s)
unfolding read_super_block
read_super_block-free dev s empty = rw (empty) refl

-- After `mkfs`, `read_super_block` finds on the root device the super block that `mkfs` computed for
-- the size of the device, and takes it to the first slot of the table, which was free. The fields fit
-- their 32 bits.
pub mkfs-read_super_block :
    (size : ℕ) (s : FileSystem)
    → IsStorable (new_super_block size)
    → (s.super_block 0).sb_dev ≡ 0
    → (s' : FileSystem) × ((do mkfs size; read_super_block root_dev) s ≡ some (tt, s'))
      × (s'.super_block 0 ≡ record (new_super_block size) { sb_dev = root_dev })
unfolding mkfs
mkfs-read_super_block size s fits empty =
    let sb = new_super_block size in
    let (s1, e1, w) = write_super_block-IsWritten sb s in
    let (s2, e2, disk, slots) =
      Keeps-then write_inode_map (write_sector_map sb >> (write_inodes sb >> write_root sb))
        Keeps-write_inode_map
        (Keeps-then (write_sector_map sb) (write_inodes sb >> write_root sb)
          (Keeps-write_sector_map sb)
          (Keeps-then (write_inodes sb) (write_root sb) (Keeps-write_inodes sb)
            (Keeps-write_root sb (unfold new_super_block in omega arith))))
        s1 in
    let empty2 = ap (λ (t : ℕ → SuperBlock). (t 0).sb_dev) (slots ∙ w.slots) ∙ empty in
    let same =
      load_super_block-same (splice s2.fsbuf 0 sector_size (s2.disk root_dev 1))
        (put_words 0 (super_block_words sb) (splice s.fsbuf 0 sector_size (λ k. 0x90))) root_dev
        (λ j lt.
          let low : leb 0 j ≡ true = ground arith in
          let high : ltb j (0 + sector_size) ≡ true = ground arith in
          let start : j - 0 ≡ j = omega arith in
          rw (low, high, start) (ap (λ (f : ℕ → ℕ). f j) disk ∙ w.bytes j (omega arith))) in
    (
      loaded root_dev s2,
      rw (e1, e2, ◌>>=◌, ◌>>◌) (read_super_block-free root_dev s2 empty2),
      same ∙ super_block-roundtrip sb _ root_dev fits,
    )
