-- ===== src/Files/Transfer/Once.antt =====
-- A transfer of `do_rdwt` of fs/fs.c that fits one chunk.
use mini_operate_system.Prelude.{
  ℕ, suc, ◌+◌, ◌-◌, ◌*◌, ◌/◌, ◌%◌, ◌≤◌, ◌<◌, ◌≡◌, refl, inl, inr, arith, true, false, ◌&&◌, ◌==◌,
  ltb, leb, if◌then◌else◌, some, update, Bool-cases, ◌∙◌,
}
use mini_operate_system.Files.Disk.{linear, ◌>>=◌, ◌>>◌, Inode, FileSystem, sector_size, splice}
use mini_operate_system.Files.Transfer.{driver_sectors, Job, rd_sects, wr_sects, min, transfer}

-- Byte `k` of the file of inode `p`.
abbrev pub file_byte : (ℕ → ℕ → ℕ → ℕ) → Inode → ℕ → ℕ
file_byte disk p k = disk p.i_dev (p.i_start_sector + k / sector_size) (k % sector_size)

-- The state after a round at sector `i` that moves `n` bytes, `done` bytes being moved before.
unfoldable pub moved : Job → ℕ → ℕ → ℕ → ℕ → FileSystem → FileSystem
moved j i off done n s =
    let buf =
      splice s.fsbuf 0 (j.chunk * sector_size)
        (λ k. s.disk j.dev (i + k / sector_size) (k % sector_size)) in
    let new = splice buf off n (λ k. s.mem (linear s j.src (j.buf + done) + k)) in
    let s' : FileSystem =
      if j.writes
      then record s {
        fsbuf = new;
        disk = λ d m a.
            if (d == j.dev) && (leb i m && (ltb m (i + j.chunk) && ltb a sector_size))
            then new ((m - i) * sector_size + a)
            else s.disk d m a;
      }
      else record s {
        fsbuf = buf;
        mem = splice s.mem (linear s j.src (j.buf + done)) n (λ k. buf (off + k));
      } in
    record s' {
      f_desc_table =
          update s.f_desc_table j.desc
            (record (s.f_desc_table j.desc) { fd_pos = (s.f_desc_table j.desc).fd_pos + n });
    }

pub transfer-round :
    (s : FileSystem) (j : Job) (fuel i off done left : ℕ)
    → i ≤ j.last
    → j.chunk ≤ driver_sectors
    → let n = min left (j.chunk * sector_size - off) in
      transfer (suc fuel) j i off done left s
      ≡ transfer fuel j (i + j.chunk) 0 (done + n) (left - n) (moved j i off done n s)
unfolding transfer rd_sects wr_sects moved
transfer-round s j fuel i off done left le short =
    let served : leb j.chunk driver_sectors ≡ true = ground arith in
    let first : leb i j.last ≡ true = ground arith in
    elim (Bool-cases j.writes) [
      | inl w ↦ rw (transfer, first) (simp (w, served, ◌>>=◌, ◌>>◌) refl)
      | inr r ↦ rw (transfer, first) (simp (r, served, ◌>>=◌, ◌>>◌) refl)
    ]

pub transfer-end :
    (s : FileSystem) (j : Job) (fuel i off done left : ℕ)
    → j.last < i
    → transfer (suc fuel) j i off done left s ≡ some (done, s)
unfolding transfer
transfer-end s j fuel i off done left gt =
    let over : leb i j.last ≡ false = ground arith in rw (transfer, over) refl

pub transfer-once :
    (s : FileSystem) (j : Job) (fuel i off len : ℕ)
    → i ≤ j.last
    → j.chunk ≤ driver_sectors
    → j.last < i + j.chunk
    → off + len ≤ j.chunk * sector_size
    → transfer (suc (suc fuel)) j i off 0 len s ≡ some (len, moved j i off 0 len s)
transfer-once s j fuel i off len le short once fits =
    let all : min len (j.chunk * sector_size - off) ≡ len = ground arith in
    let none_done : 0 + len ≡ len = omega arith in
    transfer-round s j (suc fuel) i off 0 len le short
    ∙ rw (all, none_done)
        (transfer-end (moved j i off 0 len s) j fuel (i + j.chunk) 0 len (len - len) once)

pub moved-inode_table :
    (j : Job) (i off done n : ℕ) (s : FileSystem)
    → (moved j i off done n s).inode_table ≡ s.inode_table
unfolding moved
moved-inode_table j i off done n s = elim (Bool-cases j.writes) [
  | inl w ↦ simp (w) refl
  | inr r ↦ simp (r) refl
]

pub fd_pos-moved :
    (j : Job) (i off done n : ℕ) (s : FileSystem)
    → ((moved j i off done n s).f_desc_table j.desc).fd_pos ≡ (s.f_desc_table j.desc).fd_pos + n
unfolding moved
fd_pos-moved j i off done n s =
    let here_too : j.desc == j.desc ≡ true = ground arith in simp (here_too) refl

pub moved-super_block :
    (j : Job) (i off done n : ℕ) (s : FileSystem)
    → (moved j i off done n s).super_block ≡ s.super_block
unfolding moved
moved-super_block j i off done n s = elim (Bool-cases j.writes) [
  | inl w ↦ simp (w) refl
  | inr r ↦ simp (r) refl
]
