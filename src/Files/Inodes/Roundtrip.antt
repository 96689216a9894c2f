-- ===== src/Files/Inodes/Roundtrip.antt =====
-- Inodes on the disk, as `sync_inode` and `get_inode` of fs/open.c write and read them.
use mini_operate_system.Prelude.{ℕ, ◌+◌, ◌-◌, ◌%◌, ◌^◌, ◌≤◌, ◌<◌, ◌≡◌, ◌⊎◌, ◌∙◌, refl, arith}
use mini_operate_system.Files.Disk.{sector_size, Inode, get32, put32, byte_of}
use mini_operate_system.Files.Inodes.{load_inode, store_inode}

put32-inside : (x at i : ℕ) (b : ℕ → ℕ) → i < 4 → put32 x at b (at + i) ≡ byte_of x i
unfolding put32
put32-inside x at i b lt = let e : at + i - at ≡ i = omega arith in ground arith

pub put32-outside : (x at i : ℕ) (b : ℕ → ℕ) → (i < at) ⊎ (at + 4 ≤ i) → put32 x at b i ≡ b i
unfolding put32
put32-outside x at i b out = ground arith

put32-first : (x at : ℕ) (b : ℕ → ℕ) → put32 x at b at ≡ x % 2 ^ 8
unfolding put32
put32-first x at b = let e : at - at ≡ 0 = omega arith in ground arith

pub get32-put32 : (x at : ℕ) (b : ℕ → ℕ) → x < 2 ^ 32 → get32 (put32 x at b) at ≡ x
unfolding get32
get32-put32 x at b lt = omega (
  arith,
  put32-first x at b,
  put32-inside x at 1 b (omega arith),
  put32-inside x at 2 b (omega arith),
  put32-inside x at 3 b (omega arith),
)

pub get32-outside :
    (x at i : ℕ) (b : ℕ → ℕ) → (i + 4 ≤ at) ⊎ (at + 4 ≤ i) → get32 (put32 x at b) i ≡ get32 b i
unfolding get32
get32-outside x at i b out = rw (
  put32-outside x at i b (omega arith),
  put32-outside x at (i + 1) b (omega arith),
  put32-outside x at (i + 2) b (omega arith),
  put32-outside x at (i + 3) b (omega arith),
)

pub get32-same :
    (a b : ℕ → ℕ) (i : ℕ)
    → i + 4 ≤ sector_size
    → ((j : ℕ) → j < sector_size → a j ≡ b j)
    → get32 a i ≡ get32 b i
unfolding get32
get32-same a b i le same =
    rw
      (
        same i (omega arith),
        same (i + 1) (omega arith),
        same (i + 2) (omega arith),
        same (i + 3) (omega arith),
      )
      refl

-- The four fields fit their 32 bits.
pub record Fits (p : Inode) : Type 0 where
  pub mode : p.i_mode < 2 ^ 32
  pub size : p.i_size < 2 ^ 32
  pub start_sector : p.i_start_sector < 2 ^ 32
  pub nr_sectors : p.i_nr_sectors < 2 ^ 32

-- The same four fields.
pub record SameFile (p q : Inode) : Type 0 where
  pub mode : p.i_mode ≡ q.i_mode
  pub size : p.i_size ≡ q.i_size
  pub start_sector : p.i_start_sector ≡ q.i_start_sector
  pub nr_sectors : p.i_nr_sectors ≡ q.i_nr_sectors

-- What `sync_inode` writes for an inode, `get_inode` reads back: the mode, the size, the first
-- sector and the number of sectors, if each fits 32 bits, at every place in the sector.
pub store_inode-roundtrip :
    (p q : Inode) (at : ℕ) (b : ℕ → ℕ) → Fits p → SameFile (load_inode (store_inode p at b) at q) p
unfolding load_inode store_inode
store_inode-roundtrip p q at b f =
    let b1 = put32 p.i_mode at b in
    let b2 = put32 p.i_size (at + 4) b1 in
    let b3 = put32 p.i_start_sector (at + 8) b2 in
    let top = get32-outside p.i_nr_sectors (at + 12) in
    let mid = get32-outside p.i_start_sector (at + 8) in
    record {
      mode =
          top at b3 (omega arith)
          ∙ mid at b2 (omega arith)
          ∙ get32-outside p.i_size (at + 4) at b1 (omega arith)
          ∙ get32-put32 p.i_mode at b f.mode;
      size =
          top (at + 4) b3 (omega arith)
          ∙ mid (at + 4) b2 (omega arith)
          ∙ get32-put32 p.i_size (at + 4) b1 f.size;
      start_sector =
          top (at + 8) b3 (omega arith) ∙ get32-put32 p.i_start_sector (at + 8) b2 f.start_sector;
      nr_sectors = get32-put32 p.i_nr_sectors (at + 12) b3 f.nr_sectors;
    }

-- Two inodes of one sector do not overlap: writing one leaves the other as it was.
pub store_inode-others :
    (p q : Inode) (at at' : ℕ) (b : ℕ → ℕ)
    → (at + 32 ≤ at') ⊎ (at' + 32 ≤ at)
    → SameFile (load_inode (store_inode p at b) at' q) (load_inode b at' q)
unfolding load_inode store_inode
store_inode-others p q at at' b apart =
    let all : (i : ℕ) → (at + 16 ≤ i) ⊎ (i + 4 ≤ at) → get32 (store_inode p at b) i ≡ get32 b i =
      λ i out.
        get32-outside p.i_nr_sectors (at + 12) i _ (omega arith)
        ∙ get32-outside p.i_start_sector (at + 8) i _ (omega arith)
        ∙ get32-outside p.i_size (at + 4) i _ (omega arith)
        ∙ get32-outside p.i_mode at i b (omega arith) in
    record {
      mode = all at' (omega arith);
      size = all (at' + 4) (omega arith);
      start_sector = all (at' + 8) (omega arith);
      nr_sectors = all (at' + 12) (omega arith);
    }
