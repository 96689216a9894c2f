-- ===== src/Files/Transfer/Write.antt =====
-- What a write of `do_rdwt` of fs/fs.c does inside a file.
use mini_operate_system.Prelude.{
  ℕ, ◌+◌, ◌-◌, ◌*◌, ◌/◌, ◌%◌, ◌≤◌, ◌<◌, ◌≡◌, ◌≢◌, ◌⊎◌, refl, inl, inr, arith, true, false, ◌&&◌,
  ◌==◌, ltb, leb, Bool-cases,
}
use mini_operate_system.Files.Disk.{linear, FileSystem, sector_size}
use mini_operate_system.Files.Transfer.Once.{moved, file_byte}
use mini_operate_system.Files.Transfer.Inside.{inside}

-- The effect of a write.
pub record IsWritten (s s' : FileSystem) (src d pin buf len : ℕ) : Type 0 where
  pub bytes :
      (k : ℕ)
      → k < len
      → file_byte s'.disk (s.inode_table pin) ((s.f_desc_table d).fd_pos + k)
        ≡ s.mem (linear s src buf + k)
  pub others :
      let p = s.inode_table pin in
      let at = p.i_start_sector * sector_size + (s.f_desc_table d).fd_pos in
      (dev m a : ℕ)
      → (dev ≢ p.i_dev) ⊎ ((m * sector_size + a < at) ⊎ (at + len ≤ m * sector_size + a))
      → s'.disk dev m a ≡ s.disk dev m a
  pub memory : s'.mem ≡ s.mem
  pub inodes : s'.inode_table ≡ s.inode_table
  pub pos : (s'.f_desc_table d).fd_pos ≡ (s.f_desc_table d).fd_pos + len

pub inside-IsWritten :
    (s : FileSystem) (src d pin buf len : ℕ)
    → IsWritten s (inside true src d pin buf len s) src d pin buf len
unfolding moved
inside-IsWritten s src d pin buf len =
    let p = s.inode_table pin in
    let pos = (s.f_desc_table d).fd_pos in
    record {
      bytes = λ k lt.
          let dev : p.i_dev == p.i_dev ≡ true = ground arith in
          let lo : leb (p.i_start_sector + pos / sector_size)
                (p.i_start_sector + (pos + k) / sector_size)
              ≡ true =
            ground arith in
          let hi : ltb (p.i_start_sector + (pos + k) / sector_size) (
                p.i_start_sector
                + pos / sector_size
                + ((pos + len) / sector_size + 1 - pos / sector_size))
              ≡ true =
            ground arith in
          let byte : ltb ((pos + k) % sector_size) sector_size ≡ true = ground arith in
          let x : (p.i_start_sector
                    + (pos + k) / sector_size
                    - (p.i_start_sector + pos / sector_size))
                  * sector_size
                + (pos + k) % sector_size
              ≡ pos % sector_size + k =
            omega arith in
          let lo' : leb (pos % sector_size) (pos % sector_size + k) ≡ true = ground arith in
          let hi' : ltb (pos % sector_size + k) (pos % sector_size + len) ≡ true = ground arith in
          let back : pos % sector_size + k - pos % sector_size ≡ k = omega arith in
          let start : buf + 0 ≡ buf = omega arith in
          rw (dev, lo, hi, byte, x, lo', hi', back, start) refl;
      others = λ dev m a out.
          let n = (pos + len) / sector_size + 1 - pos / sector_size in
          let first = p.i_start_sector + pos / sector_size in
          elim (Bool-cases
            ((dev == p.i_dev) && (leb first m && (ltb m (first + n) && ltb a sector_size)))) [
              | inr out_of ↦ rw (out_of) refl
              | inl within ↦
                  let at_dev : dev ≡ p.i_dev = ground arith in
                  let low : first ≤ m = ground arith in
                  let high : m < first + n = ground arith in
                  let byte : a < sector_size = ground arith in
                  let x = (m - first) * sector_size + a in
                  let apart : (x < pos % sector_size) ⊎ (pos % sector_size + len ≤ x) = elim out [
                    | inl not_dev ↦ absurd (not_dev at_dev)
                    | inr far ↦ omega arith
                  ] in
                  let bounded : x < 0 + n * sector_size = omega arith in
                  let off : leb (pos % sector_size) x && ltb x (pos % sector_size + len) ≡ false =
                    ground arith in
                  let on : leb 0 x && ltb x (0 + n * sector_size) ≡ true = ground arith in
                  let sect : first + (x - 0) / sector_size ≡ m = omega arith in
                  let place : (x - 0) % sector_size ≡ a = omega arith in
                  rw (within, off, on, sect, place, at_dev) refl
            ];
      memory = refl;
      inodes = refl;
      pos = let here_too : d == d ≡ true = ground arith in simp (here_too) refl;
    }
