-- ===== src/Files/Inodes.antt =====
-- `get_super_block` of fs/fs.c, and `get_inode`, `put_inode`, `sync_inode` and `new_inode` of
-- fs/open.c.
pub mod Counts
pub mod Reload
pub mod Roundtrip
pub mod Sync
use mini_operate_system.Prelude.{
  ℕ, zero, suc, ◌+◌, ◌-◌, ◌*◌, ◌/◌, ◌%◌, Bool, true, false, ◌&&◌, ◌==◌, ltb, leb, if◌then◌else◌,
  Option, none, some, update,
}
use mini_operate_system.Files.Disk.{
  SuperBlock, Inode, FileSystem, F, ◌>>=◌, ◌>>◌, pure, fail, assert, get, sector_size, nr_inode,
  nr_super_block, inode_size, i_regular, rd_sect, wr_sect, get32, put32,
}

-- The search of `get_super_block` in the `n` slots from `i` on; it panics if there is none.
unfoldable pub find_super_block : ℕ → ℕ → ℕ → F SuperBlock
find_super_block zero i dev s = none
find_super_block (suc n) i dev s = elim ((s.super_block i).sb_dev == dev) [
  | true ↦ some (s.super_block i, s)
  | false ↦ find_super_block n (suc i) dev s
]

unfoldable pub get_super_block : ℕ → F SuperBlock
get_super_block dev = find_super_block nr_super_block 0 dev

pub data Found : Type 0 where
  held : ℕ → Found
  free : Option ℕ → Found

-- The loop of `get_inode` over the `n` inodes from `p` on; `q` is the first free one so far.
unfoldable pub find_inode : ℕ → ℕ → Option ℕ → ℕ → ℕ → (ℕ → Inode) → Found
find_inode zero p q dev num t = free q
find_inode (suc n) p q dev num t = elim (ltb 0 (t p).i_cnt) [
  | true ↦ elim (((t p).i_dev == dev) && ((t p).i_num == num)) [
    | true ↦ held p
    | false ↦ find_inode n (suc p) q dev num t
  ]
  | false ↦ find_inode n (suc p) (elim q [ some i ↦ some i | none ↦ some p ]) dev num t
]

abbrev pub set_inode : ℕ → (Inode → Inode) → F (Unit {0})
set_inode p f s = some (tt, record s { inode_table = update s.inode_table p (f (s.inode_table p)) })

abbrev pub inodes_per_sector : ℕ
inodes_per_sector = sector_size / inode_size

-- The sector of inode `num` and its place in it.
unfoldable pub inode_sector : SuperBlock → ℕ → ℕ
inode_sector sb num =
    1 + 1 + sb.nr_imap_sectors + sb.nr_smap_sectors + (num - 1) / inodes_per_sector

unfoldable pub inode_offset : ℕ → ℕ
inode_offset num = (num - 1) % inodes_per_sector * inode_size

-- The four fields that an inode has on the disk.
unfoldable pub load_inode : (ℕ → ℕ) → ℕ → Inode → Inode
load_inode b at p = record p {
  i_mode = get32 b at;
  i_size = get32 b (at + 4);
  i_start_sector = get32 b (at + 8);
  i_nr_sectors = get32 b (at + 12);
}

unfoldable pub store_inode : Inode → ℕ → (ℕ → ℕ) → ℕ → ℕ
store_inode p at b =
    put32 p.i_nr_sectors (at + 12)
      (put32 p.i_start_sector (at + 8) (put32 p.i_size (at + 4) (put32 p.i_mode at b)))

-- `get_inode`; the number 0 gives the null pointer.
unfoldable pub get_inode : ℕ → ℕ → F (Option ℕ)
get_inode dev num = if num == 0 then pure none else (do
  s ← get
  elim (find_inode nr_inode 0 none dev num s.inode_table) [
    | held p ↦ (do set_inode p (λ i. record i { i_cnt = i.i_cnt + 1 }); pure (some p))
    | free none ↦ fail
    | free (some q) ↦ (do
      set_inode q (λ i. record i { i_dev = dev; i_num = num; i_cnt = 1 })
      sb ← get_super_block dev
      rd_sect dev (inode_sector sb num)
      s ← get
      set_inode q (load_inode s.fsbuf (inode_offset num))
      pure (some q))
  ])

unfoldable pub put_inode : ℕ → F (Unit {0})
put_inode p = do
  s ← get
  assert (ltb 0 (s.inode_table p).i_cnt)
  set_inode p (λ i. record i { i_cnt = i.i_cnt - 1 })

abbrev pub set_fsbuf : ((ℕ → ℕ) → ℕ → ℕ) → F (Unit {0})
set_fsbuf f s = some (tt, record s { fsbuf = f s.fsbuf })

-- `sync_inode`; for an inode without a number it writes below the buffer.
unfoldable pub sync_inode : ℕ → F (Unit {0})
sync_inode p = do
  s ← get
  let i = s.inode_table p
  sb ← get_super_block i.i_dev
  assert (ltb 0 i.i_num)
  rd_sect i.i_dev (inode_sector sb i.i_num)
  set_fsbuf (store_inode i (inode_offset i.i_num))
  wr_sect i.i_dev (inode_sector sb i.i_num)

abbrev pub nr_default_file_sects : ℕ
nr_default_file_sects = 2048

-- `new_inode`; the inode number 0 makes it use the null pointer.
unfoldable pub new_inode : ℕ → ℕ → ℕ → F ℕ
new_inode dev inode_nr start_sect = do
  p ← get_inode dev inode_nr
  elim p [
    | none ↦ fail
    | some p ↦ (do
      set_inode p (λ i. record {
        i_mode = i_regular;
        i_size = 0;
        i_start_sector = start_sect;
        i_nr_sectors = nr_default_file_sects;
        i_dev = dev;
        i_cnt = 1;
        i_num = inode_nr;
      })
      sync_inode p
      pure p)
  ]
