-- ===== src/Files/Format.antt =====
-- `mkfs`, `read_super_block` and `init_fs` of fs/fs.c. The size of the root device, which `mkfs` asks
-- the disk driver for, is an argument.
pub mod Words
mod Examples
pub mod Made
use mini_operate_system.Prelude.{
  ℕ, zero, suc, ◌+◌, ◌-◌, ◌*◌, ◌/◌, ◌%◌, ◌^◌, Bool, true, false, ◌&&◌, ◌==◌, ltb, leb,
  if◌then◌else◌, Option, none, some, List, [], ◌∷◌, get_or, length, update,
}
use mini_operate_system.Files.Disk.{
  SuperBlock, Inode, FileDesc, FileSystem, F, ◌>>=◌, ◌>>◌, pure, fail, assert, get, sector_size,
  nr_inode, nr_super_block, inode_size, dir_entry_size, splice, rd_sect, wr_sect, get32, put32,
  set_bit,
}
use mini_operate_system.Files.Inodes.{
  get_super_block, get_inode, set_fsbuf, store_inode, nr_default_file_sects,
}

abbrev pub magic_v1 : ℕ
magic_v1 = 0x111

abbrev pub i_directory : ℕ
i_directory = 0x040000

abbrev pub i_char_special : ℕ
i_char_special = 0x020000

-- MAKE_DEV, MAJOR and MINOR of include/const.h.
unfoldable pub make_dev : ℕ → ℕ → ℕ
make_dev a b = a * 2 ^ 8 + b % 2 ^ 8

unfoldable pub major : ℕ → ℕ
major x = x / 2 ^ 8 % 2 ^ 8

unfoldable pub minor : ℕ → ℕ
minor x = x % 2 ^ 8

-- DEV_HD, DEV_CHAR_TTY and MINOR_hd2a.
abbrev pub dev_hd : ℕ
dev_hd = 3

abbrev pub dev_char_tty : ℕ
dev_char_tty = 4

abbrev pub minor_hd2a : ℕ
minor_hd2a = 0x20

unfoldable pub root_dev : ℕ
unfolding make_dev
root_dev = make_dev dev_hd minor_hd2a

abbrev pub nr_terminals : ℕ
nr_terminals = 3

abbrev pub bits_per_sector : ℕ
bits_per_sector = sector_size * 8

-- The super block that `mkfs` computes.
unfoldable pub new_super_block : ℕ → SuperBlock
new_super_block size =
    let nr_inode_sectors = bits_per_sector * inode_size / sector_size in
    let nr_smap_sectors = size / bits_per_sector + 1 in
    record {
      magic = magic_v1;
      nr_inodes = bits_per_sector;
      nr_sectors = size;
      nr_imap_sectors = 1;
      nr_smap_sectors = nr_smap_sectors;
      n_1st_sector = 1 + 1 + 1 + nr_smap_sectors + nr_inode_sectors;
      nr_inode_sectors = nr_inode_sectors;
      root_inode = 1;
      inode_size = inode_size;
      inode_isize_off = 4;
      inode_start_off = 8;
      dir_ent_size = dir_entry_size;
      dir_ent_inode_off = 0;
      dir_ent_fname_off = 4;
      sb_dev = 0;
    }

-- The 14 fields of a super block on the disk, each a `u32`.
unfoldable pub super_block_words : SuperBlock → List ℕ
super_block_words sb =
    sb.magic ∷ sb.nr_inodes ∷ sb.nr_sectors ∷ sb.nr_imap_sectors ∷ sb.nr_smap_sectors
    ∷ sb.n_1st_sector ∷ sb.nr_inode_sectors ∷ sb.root_inode ∷ sb.inode_size ∷ sb.inode_isize_off
    ∷ sb.inode_start_off ∷ sb.dir_ent_size ∷ sb.dir_ent_inode_off ∷ sb.dir_ent_fname_off ∷ []

unfoldable pub put_words : ℕ → List ℕ → (ℕ → ℕ) → ℕ → ℕ
put_words at [] b = b
put_words at (w ∷ ws) b = put_words (at + 4) ws (put32 w at b)

-- `*(SUPER_BLOCK*) fsbuf`, with `sb_dev` set to the device.
unfoldable pub load_super_block : (ℕ → ℕ) → ℕ → SuperBlock
load_super_block b dev = record {
  magic = get32 b 0;
  nr_inodes = get32 b 4;
  nr_sectors = get32 b 8;
  nr_imap_sectors = get32 b 12;
  nr_smap_sectors = get32 b 16;
  n_1st_sector = get32 b 20;
  nr_inode_sectors = get32 b 24;
  root_inode = get32 b 28;
  inode_size = get32 b 32;
  inode_isize_off = get32 b 36;
  inode_start_off = get32 b 40;
  dir_ent_size = get32 b 44;
  dir_ent_inode_off = get32 b 48;
  dir_ent_fname_off = get32 b 52;
  sb_dev = dev;
}

-- `kmemset(fsbuf, byte, SECTOR_SIZE)`.
abbrev pub fill : ℕ → F (Unit {0})
fill byte = set_fsbuf (λ b. splice b 0 sector_size (λ i. byte))

-- "Write Super Block to the disk".
unfoldable pub write_super_block : SuperBlock → F (Unit {0})
write_super_block sb = do
  fill 0x90
  set_fsbuf (put_words 0 (super_block_words sb))
  wr_sect root_dev 1

-- `fsbuf[at] |= 1 << k` for the `n` bits from `k` on.
unfoldable pub set_bits : ℕ → ℕ → ℕ → ℕ
set_bits zero k byte = byte
set_bits (suc n) k byte = set_bits n (suc k) (set_bit byte k)

-- "Write Inode Map to the disk".
unfoldable pub write_inode_map : F (Unit {0})
write_inode_map = do
  fill 0
  set_fsbuf (λ b. update b 0 (set_bits (nr_terminals + 2) 0 (b 0)))
  s ← get
  assert (s.fsbuf 0 == 0x1F)
  wr_sect root_dev 2

-- The loop that writes a sector of zeros to the `n` sectors from `sect` on.
unfoldable pub write_zeros : ℕ → ℕ → F (Unit {0})
write_zeros zero sect = pure tt
write_zeros (suc n) sect = do wr_sect root_dev sect; write_zeros n (suc sect)

-- "Write Sector Map to the disk".
unfoldable pub write_sector_map : SuperBlock → F (Unit {0})
write_sector_map sb = do
  let nr_sectors = nr_default_file_sects + 1
  fill 0
  set_fsbuf (λ b. splice b 0 (nr_sectors / 8) (λ i. 0xFF))
  set_fsbuf (λ b. update b (nr_sectors / 8) (set_bits (nr_sectors % 8) 0 (b (nr_sectors / 8))))
  wr_sect root_dev (2 + sb.nr_imap_sectors)
  fill 0
  write_zeros (sb.nr_smap_sectors - 1) (2 + sb.nr_imap_sectors + 1)

-- An inode on the disk: its mode, its size, its first sector and its number of sectors.
unfoldable pub disk_inode : ℕ → ℕ → ℕ → ℕ → ℕ → (ℕ → ℕ) → ℕ → ℕ
disk_inode mode size start nr at b =
    put32 nr (at + 12) (put32 start (at + 8) (put32 size (at + 4) (put32 mode at b)))

-- The inodes of the terminals, `n` of them from terminal `i` on.
unfoldable pub terminal_inodes : ℕ → ℕ → (ℕ → ℕ) → ℕ → ℕ
terminal_inodes zero i b = b
terminal_inodes (suc n) i b =
    terminal_inodes n (suc i)
      (disk_inode i_char_special 0 (make_dev dev_char_tty i) 0 (inode_size * (i + 1)) b)

-- "Write Inode Array to the disk".
unfoldable pub write_inodes : SuperBlock → F (Unit {0})
write_inodes sb = do
  fill 0
  set_fsbuf (disk_inode i_directory (dir_entry_size * 4) sb.n_1st_sector nr_default_file_sects 0)
  set_fsbuf (terminal_inodes nr_terminals 0)
  wr_sect root_dev (2 + sb.nr_imap_sectors + sb.nr_smap_sectors)

-- The characters of a C string with its final 0, at an address.
unfoldable pub put_string : ℕ → List ℕ → (ℕ → ℕ) → ℕ → ℕ
put_string at name b = splice b at (length name + 1) (λ i. get_or name i 0)

-- The name `dev_tty%d`, where the terminal's number has one digit.
abbrev pub tty_name : ℕ → List ℕ
tty_name i = b'd' ∷ b'e' ∷ b'v' ∷ b'_' ∷ b't' ∷ b't' ∷ b'y' ∷ (b'0' + i) ∷ []

unfoldable pub terminal_entries : ℕ → ℕ → (ℕ → ℕ) → ℕ → ℕ
terminal_entries zero i b = b
terminal_entries (suc n) i b = terminal_entries n (suc i) (
    put_string (dir_entry_size * (i + 1) + 4) (tty_name i)
      (put32 (i + 2) (dir_entry_size * (i + 1)) b))

-- The root directory.
unfoldable pub write_root : SuperBlock → F (Unit {0})
write_root sb = do
  fill 0
  set_fsbuf (λ b. put_string 4 (b'.' ∷ []) (put32 1 0 b))
  set_fsbuf (terminal_entries nr_terminals 0)
  wr_sect root_dev sb.n_1st_sector

unfoldable pub mkfs : ℕ → F (Unit {0})
mkfs size = do
  let sb = new_super_block size
  write_super_block sb
  write_inode_map
  write_sector_map sb
  write_inodes sb
  write_root sb

-- `read_super_block`, with its search for a free slot: the first must be free.
unfoldable pub read_super_block : ℕ → F (Unit {0})
read_super_block dev s =
    let b = splice s.fsbuf 0 sector_size (s.disk dev 1) in
    if (s.super_block 0).sb_dev == 0
    then some
        (tt, record s { fsbuf = b; super_block = update s.super_block 0 (load_super_block b dev) })
    else none

abbrev pub zero_inode : Inode
zero_inode = record {
  i_mode = 0;
  i_size = 0;
  i_start_sector = 0;
  i_nr_sectors = 0;
  i_dev = 0;
  i_cnt = 0;
  i_num = 0;
}

abbrev pub zero_desc : FileDesc
zero_desc = record { fd_mode = 0; fd_pos = 0; fd_inode = none }

-- The loops of `init_fs` over the tables; the super blocks only get NO_DEV.
unfoldable pub clear_tables : FileSystem → FileSystem
clear_tables s = record s {
  f_desc_table = λ i. if ltb i 256 then zero_desc else s.f_desc_table i;
  inode_table = λ i. if ltb i nr_inode then zero_inode else s.inode_table i;
  super_block = λ i.
      if ltb i nr_super_block then record (s.super_block i) { sb_dev = 0 } else s.super_block i;
}

-- `init_fs`, without the opening of the root device.
unfoldable pub init_fs : ℕ → F (Unit {0})
init_fs size = do
  (λ s. some (tt, clear_tables s))
  mkfs size
  read_super_block root_dev
  sb ← get_super_block root_dev
  assert (sb.magic == magic_v1)
  root ← get_inode root_dev 1
  elim root [ none ↦ fail | some p ↦ (λ s. some (tt, record s { root_inode = p })) ]
