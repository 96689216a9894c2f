-- ===== src/Files/Maps.antt =====
-- The maps of used inodes and sectors: `alloc_imap_bit` and `alloc_smap_bit` of fs/open.c.
pub mod Bits
pub mod First
pub mod Restore
use mini_operate_system.Prelude.{
  ℕ, zero, suc, ◌+◌, ◌-◌, ◌*◌, ◌/◌, ◌%◌, ◌^◌, Bool, true, false, ◌&&◌, ◌==◌, ltb, leb,
  if◌then◌else◌, Option, none, some, update,
}
use mini_operate_system.Files.Disk.{
  SuperBlock, FileSystem, F, ◌>>=◌, ◌>>◌, pure, fail, assert, get, sector_size, rd_sect, wr_sect,
  has_bit, set_bit,
}
use mini_operate_system.Files.Inodes.{get_super_block, set_fsbuf}

-- `for (; ((byte >> k) & 1) != 0; k++)`, which ends on a byte that is not 0xFF: 8 rounds are enough.
unfoldable pub first_zero : ℕ → ℕ → ℕ → ℕ
first_zero zero byte k = k
first_zero (suc n) byte k = elim (has_bit byte k) [ true ↦ first_zero n byte (suc k) | false ↦ k ]

-- The first byte that is not 0xFF among the `n` from `j` on.
unfoldable pub find_byte : ℕ → ℕ → (ℕ → ℕ) → Option ℕ
find_byte zero j b = none
find_byte (suc n) j b = elim (b j == 0xFF) [ true ↦ find_byte n (suc j) b | false ↦ some j ]

-- `alloc_imap_bit`. The `return` stands inside the loop over the sectors of the map, so that only
-- the first one is searched, and 0 is the result if it is full.
unfoldable pub alloc_imap_bit : ℕ → F ℕ
alloc_imap_bit dev = do
  sb ← get_super_block dev
  if sb.nr_imap_sectors == 0 then fail else (do
    rd_sect dev 2
    s ← get
    elim (find_byte sector_size 0 s.fsbuf) [
      | none ↦ pure 0
      | some j ↦ (do
        let k = first_zero 8 (s.fsbuf j) 0
        set_fsbuf (λ b. update b j (set_bit (b j) k))
        wr_sect dev 2
        pure (j * 8 + k))
    ])

-- The loop over the bits of one byte, from bit `k` on: each must be free and is taken, until none
-- is left to take.
unfoldable pub take_bits : ℕ → ℕ → ℕ → ℕ → Option (ℕ × ℕ)
take_bits zero k byte left = some (byte, left)
take_bits (suc n) k byte left = elim (has_bit byte k) [
  | true ↦ none
  | false ↦ elim (left - 1 == 0) [
    | true ↦ some (set_bit byte k, 0)
    | false ↦ take_bits n (suc k) (set_bit byte k) (left - 1)
  ]
]

-- What the loops of `alloc_smap_bit` carry: `free_sect_nr` and `nr_sects_to_alloc`.
pub record Alloc : Type 0 where
  pub free_sect_nr : ℕ
  pub left : ℕ

-- The loop over the `n` bytes from `j` on of sector `i` of the map. Sector numbers start at the
-- first data sector, `n_1st_sector`, for bit 1.
unfoldable pub take_bytes : ℕ → ℕ → ℕ → ℕ → Alloc → F Alloc
take_bytes zero i j n_1st a = pure a
take_bytes (suc n) i j n_1st a = elim (ltb 0 a.left) [
  | false ↦ pure a
  | true ↦ (do
    s ← get
    elim ((a.free_sect_nr == 0) && (s.fsbuf j == 0xFF)) [
      | true ↦ take_bytes n i (suc j) n_1st a
      | false ↦ (do
        let k = if a.free_sect_nr == 0 then first_zero 8 (s.fsbuf j) 0 else 0
        let sect = (i * sector_size + j) * 8 + k + n_1st - 1
        let start = if a.free_sect_nr == 0 then sect else a.free_sect_nr
        elim (take_bits (8 - k) k (s.fsbuf j) a.left) [
          | none ↦ fail
          | some (byte, left) ↦ (do
            set_fsbuf (λ b. update b j byte)
            take_bytes n i (suc j) n_1st (record { free_sect_nr = start; left = left }))
        ])
    ])
]

-- The loop over the `n` sectors of the map from `i` on.
unfoldable pub take_sectors : ℕ → ℕ → ℕ → SuperBlock → Alloc → F Alloc
take_sectors zero i dev sb a = pure a
take_sectors (suc n) i dev sb a = do
  rd_sect dev (2 + sb.nr_imap_sectors + i)
  a ← take_bytes sector_size i 0 sb.n_1st_sector a
  if a.free_sect_nr == 0 then pure tt else wr_sect dev (2 + sb.nr_imap_sectors + i)
  elim (a.left == 0) [ true ↦ pure a | false ↦ take_sectors n (suc i) dev sb a ]

unfoldable pub alloc_smap_bit : ℕ → ℕ → F ℕ
alloc_smap_bit dev nr_sects_to_alloc = do
  sb ← get_super_block dev
  a ←
      take_sectors sb.nr_smap_sectors 0 dev sb
        (record { free_sect_nr = 0; left = nr_sects_to_alloc })
  assert (a.left == 0)
  pure a.free_sect_nr
