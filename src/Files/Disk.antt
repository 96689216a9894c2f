-- ===== src/Files/Disk.antt =====
-- The state of the file system's task (include/fs.h, kernel/global.c), sectors of the disk, and
-- numbers in a sector. The disk driver is the boundary: RD_SECT and WR_SECT copy one sector.
use mini_operate_system.Kernel.Protect.{vir2linear}
use mini_operate_system.Prelude.{
  ℕ, ◌+◌, ◌-◌, ◌*◌, ◌/◌, ◌%◌, ◌^◌, Bool, ◌&&◌, ◌==◌, ltb, leb, if◌then◌else◌, Option, none, some,
}

-- `SUPER_BLOCK`. NO_DEV = 0 marks a free slot.
pub record SuperBlock : Type 0 where
  pub magic : ℕ
  pub nr_inodes : ℕ
  pub nr_sectors : ℕ
  pub nr_imap_sectors : ℕ
  pub nr_smap_sectors : ℕ
  pub n_1st_sector : ℕ
  pub nr_inode_sectors : ℕ
  pub root_inode : ℕ
  pub inode_size : ℕ
  pub inode_isize_off : ℕ
  pub inode_start_off : ℕ
  pub dir_ent_size : ℕ
  pub dir_ent_inode_off : ℕ
  pub dir_ent_fname_off : ℕ
  pub sb_dev : ℕ

-- `INODE`.
pub record Inode : Type 0 where
  pub i_mode : ℕ
  pub i_size : ℕ
  pub i_start_sector : ℕ
  pub i_nr_sectors : ℕ
  pub i_dev : ℕ
  pub i_cnt : ℕ
  pub i_num : ℕ

-- `FILE_DESC`; a null `fd_inode` is `none`.
pub record FileDesc : Type 0 where
  pub fd_mode : ℕ
  pub fd_pos : ℕ
  pub fd_inode : Option ℕ

-- `disk dev sector offset` and `fsbuf offset` are bytes. A pointer to an inode is an index of
-- `inode_table`, and one to a file descriptor an index of `f_desc_table`. `filp p` is the table of
-- open files of process `p`. `mem` is the memory of all processes by its linear addresses, apart from
-- `fsbuf`, which no buffer of a caller overlaps, and `seg_base p` is `ldt_proc_id2base(p)`.
pub record FileSystem : Type 0 where
  pub disk : ℕ → ℕ → ℕ → ℕ
  pub fsbuf : ℕ → ℕ
  pub inode_table : ℕ → Inode
  pub super_block : ℕ → SuperBlock
  pub root_inode : ℕ
  pub f_desc_table : ℕ → FileDesc
  pub filp : ℕ → ℕ → Option ℕ
  pub mem : ℕ → ℕ
  pub seg_base : ℕ → ℕ

-- The linear address of `va` in the data segment of process `p`.
abbrev pub linear : FileSystem → ℕ → ℕ → ℕ
linear s p va = vir2linear (s.seg_base p) va

-- `none`: an assertion fails or the task panics, either of which stops the machine, or the code
-- uses a pointer that it has not set or an index below its array.
abbrev pub F : Type 0 → Type 0
F A = FileSystem → Option (A × FileSystem)

infixl 5 ◌>>=◌ ◌>>◌
abbrev pub ◌>>=◌ : {A B : Type 0} → F A → (A → F B) → F B
◌>>=◌ m f s = elim (m s) [ some (a, s') ↦ f a s' | none ↦ none ]

abbrev pub ◌>>◌ : {B : Type 0} → F (Unit {0}) → F B → F B
m >> k = m >>= λ _. k

abbrev pub pure : {A : Type 0} → A → F A
pure a s = some (a, s)

abbrev pub fail : {A : Type 0} → F A
fail s = none

abbrev pub assert : Bool → F (Unit {0})
assert b s = if b then some (tt, s) else none

abbrev pub get : F FileSystem
get s = some (s, s)

abbrev pub sector_size : ℕ
sector_size = 512

abbrev pub nr_inode : ℕ
nr_inode = 4096

abbrev pub nr_super_block : ℕ
nr_super_block = 8

abbrev pub inode_size : ℕ
inode_size = 32

abbrev pub dir_entry_size : ℕ
dir_entry_size = 16

abbrev pub max_filename_len : ℕ
max_filename_len = 12

abbrev pub i_regular : ℕ
i_regular = 0x100000

-- `a` with the `n` elements from `at` on replaced by those of `b` from 0 on.
abbrev pub splice : (ℕ → ℕ) → ℕ → ℕ → (ℕ → ℕ) → ℕ → ℕ
splice a at n b i = if leb at i && ltb i (at + n) then b (i - at) else a i

-- RD_SECT and WR_SECT.
unfoldable pub rd_sect : ℕ → ℕ → F (Unit {0})
rd_sect dev n s = some (tt, record s { fsbuf = splice s.fsbuf 0 sector_size (s.disk dev n) })

abbrev pub write_sector : (ℕ → ℕ → ℕ → ℕ) → ℕ → ℕ → (ℕ → ℕ) → ℕ → ℕ → ℕ → ℕ
write_sector disk dev n buf d m i =
    if (d == dev) && ((m == n) && ltb i sector_size) then buf i else disk d m i

unfoldable pub wr_sect : ℕ → ℕ → F (Unit {0})
wr_sect dev n s = some (tt, record s { disk = write_sector s.disk dev n s.fsbuf })

-- A `u32` in a buffer, least byte first.
unfoldable pub get32 : (ℕ → ℕ) → ℕ → ℕ
get32 b i = b i + b (i + 1) * 2 ^ 8 + b (i + 2) * 2 ^ 16 + b (i + 3) * 2 ^ 24

abbrev pub byte_of : ℕ → ℕ → ℕ
byte_of x i =
    if i == 0
    then x % 2 ^ 8
    else if i == 1
    then x / 2 ^ 8 % 2 ^ 8
    else if i == 2
    then x / 2 ^ 16 % 2 ^ 8
    else x / 2 ^ 24 % 2 ^ 8

unfoldable pub put32 : ℕ → ℕ → (ℕ → ℕ) → ℕ → ℕ
put32 x at b = splice b at 4 (byte_of x)

-- `(byte >> k) & 1`, `byte |= 1 << k` and `byte &= ~(1 << k)`.
abbrev pub has_bit : ℕ → ℕ → Bool
has_bit byte k = byte / 2 ^ k % 2 == 1

abbrev pub set_bit : ℕ → ℕ → ℕ
set_bit byte k = if has_bit byte k then byte else byte + 2 ^ k

abbrev pub clear_bit : ℕ → ℕ → ℕ
clear_bit byte k = if has_bit byte k then byte - 2 ^ k else byte
