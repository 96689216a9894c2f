-- ===== src/Files/Transfer.antt =====
-- `do_rdwt` of fs/fs.c, with `rw_sector` for several sectors at once.
mod Examples
pub mod Grown
pub mod Grow
pub mod Inside
pub mod Once
pub mod Read
pub mod Roundtrip
pub mod Write
use mini_operate_system.Prelude.{
  ℕ, zero, suc, ◌+◌, ◌-◌, ◌*◌, ◌/◌, ◌%◌, ◌^◌, Bool, true, false, ◌&&◌, ◌||◌, ◌==◌, ltb, leb,
  if◌then◌else◌, Option, none, some, update,
}
use mini_operate_system.Files.Disk.{
  linear, Inode, FileDesc, FileSystem, F, ◌>>=◌, ◌>>◌, pure, fail, assert, get, sector_size,
  nr_inode, i_regular, splice,
}
use mini_operate_system.Files.Inodes.{set_inode, sync_inode}
use mini_operate_system.Files.Format.{i_directory, i_char_special, major, minor}
use mini_operate_system.Files.Open.{nr_file_desc, type_of_mode, has_rdwr}

-- The most sectors that the driver transfers at one request: `hd_rdwt` of kernel/hd.c writes their
-- number to a register of 8 bits.
abbrev pub driver_sectors : ℕ
driver_sectors = 255

-- `rw_sector` on the `n` sectors from `sect` on, between the disk and `fsbuf`. The driver keeps 8 bits
-- of `n`, so that a request for more sectors has no result.
unfoldable pub rd_sects : ℕ → ℕ → ℕ → F (Unit {0})
rd_sects dev sect n = do
  assert (leb n driver_sectors)
  (λ s. some (
    tt,
    record s {
      fsbuf =
          splice s.fsbuf 0 (n * sector_size)
            (λ k. s.disk dev (sect + k / sector_size) (k % sector_size));
    },
  ))

unfoldable pub wr_sects : ℕ → ℕ → ℕ → F (Unit {0})
wr_sects dev sect n = do
  assert (leb n driver_sectors)
  (λ s. some (
    tt,
    record s {
      disk = λ d m i.
          if (d == dev) && (leb sect m && (ltb m (sect + n) && ltb i sector_size))
          then s.fsbuf ((m - sect) * sector_size + i)
          else s.disk d m i;
    },
  ))

abbrev pub min : ℕ → ℕ → ℕ
min a b = if ltb a b then a else b

-- FSBUF_SIZE >> SECTOR_SIZE_SHIFT.
abbrev pub fsbuf_sectors : ℕ
fsbuf_sectors = 2048

-- The two ways of `kmemcpy`: from `fsbuf` to the address `at` of process `src`, and back.
abbrev pub to_user : ℕ → ℕ → ℕ → ℕ → F (Unit {0})
to_user src at off n s =
    some (tt, record s { mem = splice s.mem (linear s src at) n (λ k. s.fsbuf (off + k)) })

abbrev pub from_user : ℕ → ℕ → ℕ → ℕ → F (Unit {0})
from_user src at off n s =
    some (tt, record s { fsbuf = splice s.fsbuf off n (λ k. s.mem (linear s src at + k)) })

abbrev pub set_pos : ℕ → (ℕ → ℕ) → F (Unit {0})
set_pos d f s = some (
  tt,
  record s {
    f_desc_table =
        update s.f_desc_table d
          (record (s.f_desc_table d) { fd_pos = f (s.f_desc_table d).fd_pos });
  },
)

-- What a transfer does not change.
pub record Job : Type 0 where
  pub writes : Bool
  pub src : ℕ
  pub buf : ℕ
  pub desc : ℕ
  pub dev : ℕ
  pub chunk : ℕ
  pub last : ℕ

-- The `for` loop at sector `i`, with at most `fuel` rounds; `chunk` is not 0 if a round is made.
unfoldable pub transfer : ℕ → Job → ℕ → ℕ → ℕ → ℕ → F ℕ
transfer zero j i off bytes_rw bytes_left = fail
transfer (suc fuel) j i off bytes_rw bytes_left = elim (leb i j.last) [
  | false ↦ pure bytes_rw
  | true ↦ (do
    let bytes = min bytes_left (j.chunk * sector_size - off)
    rd_sects j.dev i j.chunk
    if j.writes
        then (do from_user j.src (j.buf + bytes_rw) off bytes; wr_sects j.dev i j.chunk)
        else to_user j.src (j.buf + bytes_rw) off bytes
    set_pos j.desc (λ pos. pos + bytes)
    transfer fuel j (i + j.chunk) 0 (bytes_rw + bytes) (bytes_left - bytes))
]

-- The transfer for a regular file or a directory. The loop makes a round for each chunk, so as many
-- rounds as there are sectors, and one to end, are enough.
unfoldable pub rdwt_file : Bool → ℕ → ℕ → ℕ → ℕ → ℕ → ℕ → F ℕ
rdwt_file writes src d pos pin buf len = do
  s ← get
  let p = s.inode_table pin
  assert ((p.i_mode == i_regular) || (p.i_mode == i_directory))
  let limit = if writes then p.i_nr_sectors * sector_size else p.i_size
  let pos_end = min (pos + len) limit
  let first = p.i_start_sector + pos / sector_size
  let last = p.i_start_sector + pos_end / sector_size
  let chunk = min (last + 1 - first) fsbuf_sectors
  let j : Job = record {
    writes = writes;
    src = src;
    buf = buf;
    desc = d;
    dev = p.i_dev;
    chunk = chunk;
    last = last;
  }
  bytes_rw ← transfer (suc (last + 1 - first)) j first (pos % sector_size) 0 len
  s ← get
  if ltb (s.inode_table pin).i_size (s.f_desc_table d).fd_pos
      then (do set_inode pin (λ i. record i { i_size = (s.f_desc_table d).fd_pos }); sync_inode pin)
      else pure tt
  pure bytes_rw

-- `do_rdwt` for a request READ or WRITE of process `src`: the number of bytes, or `none` for -1.
-- `device` is the request to the driver of a character device, with the count that it answers; the
-- assertion wants its major number to be TASK_TTY = 3.
unfoldable pub do_rdwt : (Bool → ℕ → ℕ → ℕ → ℕ → F ℕ) → Bool → ℕ → ℕ → ℕ → ℕ → F (Option ℕ)
do_rdwt device writes src fd buf len = do
  s ← get
  elim (s.filp src fd) [
    | none ↦ fail
    | some d ↦ (do
      assert (ltb d nr_file_desc)
      elim (has_rdwr (s.f_desc_table d).fd_mode) [
        | false ↦ pure none
        | true ↦ elim (s.f_desc_table d).fd_inode [
          | none ↦ fail
          | some pin ↦ (do
            assert (ltb pin nr_inode)
            let p = s.inode_table pin
            elim (type_of_mode p.i_mode == i_char_special) [
              | true ↦ (do
                assert (major p.i_start_sector == 3)
                cnt ← device writes (minor p.i_start_sector) src buf len
                assert (cnt == len)
                pure (some cnt))
              | false ↦ (do
                n ← rdwt_file writes src d (s.f_desc_table d).fd_pos pin buf len
                pure (some n))
            ])
        ]
      ])
  ]
