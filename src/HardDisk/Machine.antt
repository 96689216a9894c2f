-- ===== src/HardDisk/Machine.antt =====
-- What the driver of kernel/hd.c works on: the machine, its own state, commands and bytes.
use mini_operate_system.Prelude.{
  ℕ, ◌+◌, ◌-◌, ◌*◌, ◌/◌, ◌%◌, ◌^◌, ℤ, Bool, ◌&&◌, ◌==◌, ltb, leb, if◌then◌else◌, Option, none, some,
}
use mini_operate_system.HardDisk.Registers.{
  max_prim, minor_hd1a, nr_prim_per_drive, nr_sub_per_drive,
}

-- `HD_CMD`.
pub record HdCmd : Type 0 where
  pub features : ℕ
  pub count : ℕ
  pub lba_low : ℕ
  pub lba_mid : ℕ
  pub lba_high : ℕ
  pub device : ℕ
  pub command : ℕ

-- `PART_INFO`.
pub record PartInfo : Type 0 where
  pub base : ℕ
  pub size : ℕ

-- What the driver uses of the machine: the port instructions, `get_ticks`, and the wait for an
-- interrupt. `port_read port n` gives the `n` bytes that it stores.
pub record Hardware (H : Type 0) : Type 0 where
  pub in_byte : ℕ → H → ℕ × H
  pub out_byte : ℕ → ℕ → H → H
  pub port_read : ℕ → ℕ → H → (ℕ → ℕ) × H
  pub port_write : ℕ → ℕ → (ℕ → ℕ) → H → H
  pub get_ticks : H → ℕ × H
  pub interrupt_wait : H → H

-- The state of the driver. `hd_info` has one drive; `memory` is by linear address.
pub record Driver (H : Type 0) : Type 0 where
  pub machine : H
  pub open_cnt : ℤ
  pub primary : ℕ → PartInfo
  pub logical : ℕ → PartInfo
  pub hdbuf : ℕ → ℕ
  pub memory : ℕ → ℕ

-- `none`: an assertion fails or the task panics, either of which stops the machine; the code uses an
-- index outside its array; or the fuel of `waitfor` runs out.
abbrev pub D : Type 0 → Type 0 → Type 0
D H A = Driver H → Option (A × Driver H)

infixl 5 ◌>>=◌ ◌>>◌
abbrev pub ◌>>=◌ : {H A B : Type 0} → D H A → (A → D H B) → D H B
◌>>=◌ m f s = elim (m s) [ some (a, s') ↦ f a s' | none ↦ none ]

abbrev pub ◌>>◌ : {H B : Type 0} → D H (Unit {0}) → D H B → D H B
m >> k = m >>= λ _. k

abbrev pub pure : {H A : Type 0} → A → D H A
pure a s = some (a, s)

abbrev pub assert : {H : Type 0} → Bool → D H (Unit {0})
assert b s = if b then some (tt, s) else none

abbrev pub get : {H : Type 0} → D H (Driver H)
get s = some (s, s)

abbrev pub on_machine : {H : Type 0} → (H → H) → D H (Unit {0})
on_machine f s = some (tt, record s { machine = f s.machine })

-- `a` with the `n` elements from `at` on replaced by those of `b` from 0 on.
abbrev pub splice : (ℕ → ℕ) → ℕ → ℕ → (ℕ → ℕ) → ℕ → ℕ
splice a at n b i = if leb at i && ltb i (at + n) then b (i - at) else a i

-- DRIVE_OF_DEV. A number from 10 to 15 gives a negative quotient, which C cuts to 0.
unfoldable pub drive_of_dev : ℕ → ℕ
drive_of_dev dev =
    if leb dev max_prim then dev / nr_prim_per_drive else (dev - minor_hd1a) / nr_sub_per_drive

-- MAKE_DEVICE_REG for `lba` and `drv` below 2.
unfoldable pub make_device_reg : ℕ → ℕ → ℕ → ℕ
make_device_reg lba drv lba_highest = 0xA0 + lba * 2 ^ 6 + drv * 2 ^ 4 + lba_highest % 2 ^ 4

-- The command for `count` sectors from `sect_nr` on, as `hd_rdwt` and `get_part_table` build it.
unfoldable pub sector_command : ℕ → ℕ → ℕ → ℕ → HdCmd
sector_command drive count sect_nr command = record {
  features = 0;
  count = count % 2 ^ 8;
  lba_low = sect_nr % 2 ^ 8;
  lba_mid = sect_nr / 2 ^ 8 % 2 ^ 8;
  lba_high = sect_nr / 2 ^ 16 % 2 ^ 8;
  device = make_device_reg 1 drive (sect_nr / 2 ^ 24 % 2 ^ 4);
  command = command;
}

-- `(status & mask) == val`, for a mask of one bit.
abbrev pub masked : ℕ → ℕ → ℕ
masked status mask = status / mask % 2 * mask

-- A sector's bytes as 16-bit and 32-bit numbers.
abbrev pub word : (ℕ → ℕ) → ℕ → ℕ
word b i = b (2 * i) + b (2 * i + 1) * 2 ^ 8

abbrev pub get32 : (ℕ → ℕ) → ℕ → ℕ
get32 b i = b i + b (i + 1) * 2 ^ 8 + b (i + 2) * 2 ^ 16 + b (i + 3) * 2 ^ 24

-- A `u32` at an address, least byte first.
abbrev pub store32 : ℕ → ℕ → (ℕ → ℕ) → ℕ → ℕ
store32 x at m = splice m at 4 (λ i.
    if i == 0
    then x % 2 ^ 8
    else if i == 1
    then x / 2 ^ 8 % 2 ^ 8
    else if i == 2
    then x / 2 ^ 16 % 2 ^ 8
    else x / 2 ^ 24 % 2 ^ 8)
