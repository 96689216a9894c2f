-- ===== src/Files/Transfer/Inside.antt =====
-- Reads and writes of `do_rdwt` of fs/fs.c inside a file.
use mini_operate_system.Prelude.{
  ℕ, suc, ◌+◌, ◌-◌, ◌*◌, ◌/◌, ◌%◌, ◌≤◌, ◌<◌, ◌≡◌, refl, sym, ◌∙◌, subst, arith, Bool, true, false,
  ltb, if◌then◌else◌, some, lt→ltb,
}
use mini_operate_system.Files.Disk.{
  Inode, FileSystem, F, ◌>>=◌, ◌>>◌, pure, sector_size, nr_inode, i_regular,
}
use mini_operate_system.Files.Inodes.{set_inode, sync_inode}
use mini_operate_system.Files.Open.{nr_file_desc, type_of_mode, has_rdwr}
use mini_operate_system.Files.Transfer.{
  driver_sectors, Job, min, fsbuf_sectors, transfer, rdwt_file, do_rdwt,
}
use mini_operate_system.Files.Transfer.Once.{moved, transfer-once, moved-inode_table, fd_pos-moved}

-- Process `src` has the regular file of inode `pin` open for reading and writing as `fd`.
pub record IsOpen (s : FileSystem) (src fd d pin : ℕ) : Type 0 where
  pub filp : s.filp src fd ≡ some d
  pub desc : d < nr_file_desc
  pub mode : has_rdwr (s.f_desc_table d).fd_mode ≡ true
  pub inode : (s.f_desc_table d).fd_inode ≡ some pin
  pub number : pin < nr_inode
  pub regular : (s.inode_table pin).i_mode ≡ i_regular

-- The bytes from `pos` to `pos + len` lie in the file and in sectors that the
-- driver transfers at once.
pub record IsInside (p : Inode) (pos len : ℕ) : Type 0 where
  pub size : pos + len ≤ p.i_size
  pub sectors : p.i_size ≤ p.i_nr_sectors * sector_size
  pub chunk : (pos + len) / sector_size + 1 ≤ pos / sector_size + driver_sectors

abbrev pub job : Bool → Inode → ℕ → ℕ → ℕ → ℕ → ℕ → Job
job writes p src d pos buf len = record {
  writes = writes;
  src = src;
  buf = buf;
  desc = d;
  dev = p.i_dev;
  chunk = (pos + len) / sector_size + 1 - pos / sector_size;
  last = p.i_start_sector + (pos + len) / sector_size;
}

-- The state after a read or a write inside the file.
abbrev pub inside : Bool → ℕ → ℕ → ℕ → ℕ → ℕ → FileSystem → FileSystem
inside writes src d pin buf len s =
    let p = s.inode_table pin in
    let pos = (s.f_desc_table d).fd_pos in
    moved (job writes p src d pos buf len) (p.i_start_sector + pos / sector_size)
      (pos % sector_size) 0 len s

-- The end of `rdwt_file`, where the position behind the bytes is `end`.
abbrev pub finish : ℕ → ℕ → ℕ → F ℕ
finish pin end len s =
    ((if ltb (s.inode_table pin).i_size end
          then (do set_inode pin (λ i. record i { i_size = end }); sync_inode pin)
          else pure tt)
        >> pure len)
      s

pub rdwt_file-moved :
    (s : FileSystem) (writes : Bool) (src d pin buf len : ℕ)
    → let p = s.inode_table pin in
      let pos = (s.f_desc_table d).fd_pos in
      p.i_mode ≡ i_regular
      → pos + len ≤ (if writes then p.i_nr_sectors * sector_size else p.i_size)
      → (pos + len) / sector_size + 1 ≤ pos / sector_size + driver_sectors
      → rdwt_file writes src d pos pin buf len s
        ≡ finish pin (pos + len) len (inside writes src d pin buf len s)
unfolding rdwt_file
rdwt_file-moved s writes src d pin buf len regular limit chunk =
    let p = s.inode_table pin in
    let pos = (s.f_desc_table d).fd_pos in
    let j = job writes p src d pos buf len in
    let first = p.i_start_sector + pos / sector_size in
    let end : min (pos + len) (if writes then p.i_nr_sectors * sector_size else p.i_size)
        ≡ pos + len =
      ground arith in
    let span : p.i_start_sector + (pos + len) / sector_size + 1 - first
        ≡ (pos + len) / sector_size + 1 - pos / sector_size =
      omega arith in
    let whole : min ((pos + len) / sector_size + 1 - pos / sector_size) fsbuf_sectors
        ≡ (pos + len) / sector_size + 1 - pos / sector_size =
      ground arith in
    let rounds : (pos + len) / sector_size + 1 - pos / sector_size
        ≡ suc ((pos + len) / sector_size - pos / sector_size) =
      omega arith in
    let once =
      subst
        (λ n.
          transfer (suc n) j first (pos % sector_size) 0 len s
          ≡ some (len, moved j first (pos % sector_size) 0 len s))
        (sym rounds)
        (transfer-once s j ((pos + len) / sector_size - pos / sector_size) first (pos % sector_size)
          len (omega arith) (omega arith) (omega arith) (omega arith)) in
    let same = moved-inode_table j first (pos % sector_size) 0 len s in
    let moved_on = fd_pos-moved j first (pos % sector_size) 0 len s in
    rw (regular, end, span, whole, once, same, moved_on, ◌>>=◌, ◌>>◌) refl

pub do_rdwt-moved :
    (device : Bool → ℕ → ℕ → ℕ → ℕ → F ℕ) (s : FileSystem) (writes : Bool)
    (src fd d pin buf len n : ℕ) (s' : FileSystem)
    → IsOpen s src fd d pin
    → rdwt_file writes src d (s.f_desc_table d).fd_pos pin buf len s ≡ some (n, s')
    → do_rdwt device writes src fd buf len s ≡ some (some n, s')
unfolding do_rdwt type_of_mode
do_rdwt-moved device s writes src fd d pin buf len n s' o done =
    let open_desc = o.filp in
    let open_mode = o.mode in
    let open_inode = o.inode in
    let regular = o.regular in
    let desc : ltb d nr_file_desc ≡ true = lt→ltb _ _ o.desc in
    let number : ltb pin nr_inode ≡ true = lt→ltb _ _ o.number in
    rw (open_desc, desc, open_mode, open_inode, number, regular, done, ◌>>=◌, ◌>>◌) refl

pub do_rdwt-inside :
    (device : Bool → ℕ → ℕ → ℕ → ℕ → F ℕ) (s : FileSystem) (writes : Bool)
    (src fd d pin buf len : ℕ)
    → IsOpen s src fd d pin
    → IsInside (s.inode_table pin) (s.f_desc_table d).fd_pos len
    → do_rdwt device writes src fd buf len s ≡ some (some len, inside writes src d pin buf len s)
do_rdwt-inside device s writes src fd d pin buf len o h =
    let p = s.inode_table pin in
    let pos = (s.f_desc_table d).fd_pos in
    let size = h.size in
    let sectors = h.sectors in
    let fits : ltb p.i_size (pos + len) ≡ false = ground arith in
    let same =
      moved-inode_table (job writes p src d pos buf len) (p.i_start_sector + pos / sector_size)
        (pos % sector_size) 0 len s in
    do_rdwt-moved device s writes src fd d pin buf len len (inside writes src d pin buf len s) o (
      rdwt_file-moved s writes src d pin buf len o.regular (ground arith) h.chunk
      ∙ rw (finish, same, fits, ◌>>=◌, ◌>>◌) refl)
