-- ===== src/HardDisk/Command.antt =====
-- The commands of kernel/hd.c, and what a drive does with them.
use mini_operate_system.Prelude.{
  ℕ, suc, ◌+◌, ◌-◌, ◌*◌, ◌/◌, ◌%◌, ◌^◌, ◌<◌, ◌≡◌, refl, arith, true, some, ltb, ◌==◌, lt→ltb,
}
use mini_operate_system.HardDisk.{waitfor, waitfor_loop, registers, hd_cmd_out}
use mini_operate_system.HardDisk.Machine.{
  HdCmd, Hardware, Driver, ◌>>=◌, ◌>>◌, sector_command, make_device_reg, masked,
}
use mini_operate_system.HardDisk.Registers.{
  reg_status, reg_data, status_busy, hd_timeout, time_int_freq, sector_size, ata_read,
}

-- The sector that the registers name: 24 bits in three registers and 4 in the device register.
unfoldable pub lba_of : HdCmd → ℕ
lba_of c = c.lba_low + c.lba_mid * 2 ^ 8 + c.lba_high * 2 ^ 16 + c.device % 2 ^ 4 * 2 ^ 24

-- Every field is a byte, and the device register asks for drive 0 and for LBA.
pub record IsLba (c : HdCmd) : Type 0 where
  pub features : c.features < 2 ^ 8
  pub count : c.count < 2 ^ 8
  pub low : c.lba_low < 2 ^ 8
  pub mid : c.lba_mid < 2 ^ 8
  pub high : c.lba_high < 2 ^ 8
  pub device : c.device < 2 ^ 8
  pub lba : c.device / 2 ^ 6 % 2 ≡ 1
  pub drive : c.device / 2 ^ 4 % 2 ≡ 0

-- The registers of a command name its sector: each fits a byte, the device register asks for LBA
-- and drive 0, and a drive that puts them together gets the number of the first sector back, if it
-- has 28 bits. The number of sectors is kept up to 255.
pub sector_command-roundtrip :
    (count sect_nr command : ℕ)
    → sect_nr < 2 ^ 28
    → count < 2 ^ 8
    → let c = sector_command 0 count sect_nr command in
      IsLba c × (lba_of c ≡ sect_nr) × (c.count ≡ count)
unfolding sector_command make_device_reg lba_of
sector_command-roundtrip count sect_nr command lt lt' = (
  record {
    features = omega arith;
    count = omega arith;
    low = omega arith;
    mid = omega arith;
    high = omega arith;
    device = omega arith;
    lba = omega arith;
    drive = omega arith;
  },
  omega arith,
  omega arith,
)

-- The documented behaviour of a drive with the sectors `disk`: an idle one is not busy within the
-- time that `waitfor` gives it. After the command to read `n` sectors each interrupt announces the
-- data of the next one, and after the last one the drive is idle again.
pub record IsDrive {H : Type 0} (hw : Hardware H) (disk : ℕ → ℕ → ℕ) (Idle : H → Type 0)
    (Sends : ℕ → ℕ → H → Type 0) : Type 0 where
  pub in_time :
      (h : H)
      → Idle h
      → let first = hw.get_ticks h in
        let second = hw.get_ticks first.1 in
        (second.0 - first.0) * 1000 / time_int_freq < hd_timeout
  pub not_busy :
      (h : H)
      → Idle h
      → let second = hw.get_ticks ((hw.get_ticks h).1) in
        masked ((hw.in_byte reg_status second.1).0) status_busy ≡ 0
  pub obeys :
      (h : H) (c : HdCmd)
      → Idle h
      → IsLba c
      → 0 < c.count
      → c.command ≡ ata_read
      → let second = hw.get_ticks ((hw.get_ticks h).1) in
        Sends (lba_of c) c.count (registers hw c ((hw.in_byte reg_status second.1).1))
  pub delivers :
      (h : H) (lba n i : ℕ)
      → Sends lba (suc n) h
      → i < sector_size
      → (hw.port_read reg_data sector_size (hw.interrupt_wait h)).0 i ≡ disk lba i
  pub next :
      (h : H) (lba n : ℕ)
      → Sends lba (suc n) h
      → Sends (suc lba) n ((hw.port_read reg_data sector_size (hw.interrupt_wait h)).1)
  pub finished : (h : H) (lba : ℕ) → Sends lba 0 h → Idle h

-- The machine when the registers of a command to an idle drive are written.
abbrev pub commanded : {H : Type 0} → Hardware H → HdCmd → Driver H → Driver H
commanded hw c s =
    let second = hw.get_ticks ((hw.get_ticks s.machine).1) in
    record s { machine = registers hw c ((hw.in_byte reg_status second.1).1) }

pub hd_cmd_out-commanded :
    {H : Type 0} (hw : Hardware H) (disk : ℕ → ℕ → ℕ) (Idle : H → Type 0)
    (Sends : ℕ → ℕ → H → Type 0) (patience : ℕ) (c : HdCmd) (s : Driver H)
    → IsDrive hw disk Idle Sends
    → Idle s.machine
    → hd_cmd_out hw (suc patience) c s ≡ some (tt, commanded hw c s)
unfolding hd_cmd_out waitfor waitfor_loop
hd_cmd_out-commanded hw disk Idle Sends patience c s d idle =
    let first = hw.get_ticks s.machine in
    let second = hw.get_ticks first.1 in
    let soon : ltb ((second.0 - first.0) * 1000 / time_int_freq) hd_timeout ≡ true =
      lt→ltb _ _ (d.in_time s.machine idle) in
    let free : masked ((hw.in_byte reg_status second.1).0) status_busy == 0 ≡ true =
      let e = d.not_busy s.machine idle in rw (e) refl in
    rw (soon, free, ◌>>=◌, ◌>>◌) refl
