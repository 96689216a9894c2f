-- ===== src/Files/Maps/Restore.antt =====
-- `alloc_imap_bit` of fs/open.c and "Free the inode map bit" of `do_unlink` in fs/link.c.
use mini_operate_system.Prelude.{
  ℕ, ◌/◌, ◌%◌, ◌<◌, ◌≡◌, ◌≢◌, inl, inr, refl, ap, ◌∙◌, Bool, ◌==◌, ◌&&◌, ltb, arith, true, false,
  some, update, Bool-cases,
}
use mini_operate_system.Files.Disk.{
  FileSystem, SuperBlock, F, assert, ◌>>◌, sector_size, splice, write_sector, rd_sect, wr_sect,
  has_bit, set_bit, clear_bit,
}
use mini_operate_system.Files.Inodes.{get_super_block}
use mini_operate_system.Files.Maps.{alloc_imap_bit}
use mini_operate_system.Files.Maps.Bits.{set_bit-has_bit, clear_bit-set_bit}
use mini_operate_system.Files.Maps.First.{Taken, alloc_imap_bit-Taken}
use mini_operate_system.Files.Unlink.{free_imap_bit}

assert_passes :
    {B : Type 0} (b : Bool) (k : F B) (s : FileSystem) → b ≡ true → (assert b >> k) s ≡ k s
assert_passes b k s e = rw (e) refl

-- The disks of two states hold the same bytes.
abbrev pub SameDisk : FileSystem → FileSystem → Type 0
SameDisk s t = (d n i : ℕ) → t.disk d n i ≡ s.disk d n i

module _ (dev : ℕ) (s : FileSystem) (nr : ℕ) (s' : FileSystem) (t : Taken dev s nr s') where
  abbrev buf : ℕ → ℕ
  buf = splice s'.fsbuf 0 sector_size (s'.disk dev 2)

  abbrev row : ℕ
  row = nr / 8

  abbrev after : ℕ → ℕ
  after = update buf row (clear_bit (buf row) (nr % 8))

  abbrev freed : FileSystem
  freed = record s' { fsbuf = after; disk = write_sector s'.disk dev 2 after }

  bit_lt : nr % 8 < 8
  bit_lt = omega arith

  clear : has_bit (s.disk dev 2 row) (nr % 8) ≡ false
  clear = t.was_free

  in_buf : (i : ℕ) → i < sector_size → buf i ≡ s'.disk dev 2 i
  in_buf i h = ground arith

  row_buf : buf row ≡ set_bit (s.disk dev 2 row) (nr % 8)
  row_buf = in_buf row t.inside ∙ t.byte

  row_restored : clear_bit (buf row) (nr % 8) ≡ s.disk dev 2 row
  row_restored = ap (λ b. clear_bit b (nr % 8)) row_buf ∙ clear_bit-set_bit _ _ bit_lt clear

  free_imap_bit-freed : free_imap_bit dev nr s' ≡ some (tt, freed)
  unfolding free_imap_bit rd_sect wr_sect
  free_imap_bit-freed =
      let inside : ltb row sector_size ≡ true = (let h = t.inside in ground arith) in
      let set : has_bit (buf row) (nr % 8) ≡ true =
        ap (λ b. has_bit b (nr % 8)) row_buf ∙ set_bit-has_bit _ _ bit_lt in
      assert_passes _ _ s' inside ∙ assert_passes _ _ (record s' { fsbuf = buf }) set

  freed-SameDisk : SameDisk s freed
  freed-SameDisk d n i = elim (Bool-cases ((d == dev) && ((n == 2) && ltb i sector_size))) [
    | inr out ↦
        let kept : freed.disk d n i ≡ s'.disk d n i = rw (out) refl in
        elim (Bool-cases ((d == dev) && (n == 2))) [
          | inr other ↦ kept ∙ t.sectors d n i (ground arith)
          | inl own ↦
              let d_own : d ≡ dev = ground arith in
              let n_own : n ≡ 2 = ground arith in
              let far : i ≢ row = (let h = t.inside in ground arith) in
              let e = t.bytes i far in kept ∙ rw (d_own, n_own) e
        ]
    | inl own ↦
        let d_own : d ≡ dev = ground arith in
        let n_own : n ≡ 2 = ground arith in
        let lt : i < sector_size = ground arith in
        let now : freed.disk d n i ≡ after i = rw (own) refl in
        now
        ∙ rw (d_own, n_own)
            (elim (Bool-cases (i == row)) [
              | inl here ↦
                  let e : i ≡ row = ground arith in
                  let w : after row ≡ clear_bit (buf row) (nr % 8) = ground arith in
                  rw (e) (w ∙ row_restored)
              | inr far ↦
                  let w : after i ≡ buf i = ground arith in
                  w ∙ in_buf i lt ∙ t.bytes i (ground arith)
            ])
  ]

module _ (s : FileSystem) (dev : ℕ) (sb : SuperBlock) (known : get_super_block dev s ≡ some (sb, s))
    (some_map : 0 < sb.nr_imap_sectors) (bytes : (j : ℕ) → s.disk dev 2 j < 256) where
  -- On a device with a super block and an inode map whose first sector is not full and holds bytes
  -- below 256, what
  -- `alloc_imap_bit` takes can be given back: freeing the inode number that it returned passes its
  -- checks, and afterwards every byte of the disks is as it was before the call.
  pub alloc_imap_bit-free_imap_bit :
      (j : ℕ)
      → j < sector_size
      → s.disk dev 2 j ≢ 255
      → (nr : ℕ) × (s' : FileSystem) × (s'' : FileSystem) × (alloc_imap_bit dev s ≡ some (nr, s'))
        × (free_imap_bit dev nr s' ≡ some (tt, s''))
        × SameDisk s s''
  alloc_imap_bit-free_imap_bit j lt room =
      let (nr, s', e, t) = alloc_imap_bit-Taken s dev sb known some_map bytes j lt room in
      (
        nr,
        s',
        freed dev s nr s' t,
        e,
        free_imap_bit-freed dev s nr s' t,
        freed-SameDisk dev s nr s' t,
      )
