-- ===== src/HardDisk/Partitions.antt =====
-- The partition tables of kernel/hd.c, and the requests that the driver serves.
pub mod Chain
use mini_operate_system.Prelude.{
  ℕ, zero, suc, ◌+◌, ◌-◌, ◌*◌, ◌/◌, ◌%◌, ◌^◌, ℤ, pos, negsuc, Bool, true, false, ◌==◌, negate,
  Option, none, some, update, if◌then◌else◌,
}
use mini_operate_system.HardDisk.{hd_cmd_out, read_data, hd_identify, hd_rdwt, hd_close, hd_ioctl}
use mini_operate_system.HardDisk.Machine.{
  HdCmd, PartInfo, Hardware, Driver, D, ◌>>=◌, ◌>>◌, pure, assert, get, get32, sector_command,
  drive_of_dev,
}
use mini_operate_system.HardDisk.Registers.{
  ata_read, nr_part_per_drive, nr_sub_per_part, nr_prim_per_drive,
}

abbrev pub partition_table_offset : ℕ
partition_table_offset = 0x1BE

abbrev pub no_part : ℕ
no_part = 0

abbrev pub ext_part : ℕ
ext_part = 5

-- The fields of `PART_ENTRY` that the code reads.
pub record PartEntry : Type 0 where
  pub sys_id : ℕ
  pub lba_start_sector : ℕ
  pub sector_num : ℕ

-- Entry `i` of the table in a boot sector.
unfoldable pub part_entry : (ℕ → ℕ) → ℕ → PartEntry
part_entry b i =
    let at = partition_table_offset + 16 * i in
    record {
      sys_id = b (at + 4);
      lba_start_sector = get32 b (at + 8);
      sector_num = get32 b (at + 12);
    }

-- `info.base = …; info.size = …` for an entry relative to sector `s`.
abbrev pub part_info : ℕ → PartEntry → PartInfo
part_info s e = record { base = (s + e.lba_start_sector) % 2 ^ 32; size = e.sector_num }

-- `x++` of an `int`.
abbrev succ_ℤ : ℤ → ℤ
succ_ℤ (pos n) = pos (n + 1)
succ_ℤ (negsuc zero) = pos 0
succ_ℤ (negsuc (suc n)) = negsuc n

abbrev is_zero_ℤ : ℤ → Bool
is_zero_ℤ (pos zero) = true
is_zero_ℤ (pos (suc n)) = false
is_zero_ℤ (negsuc n) = false

-- The messages that `task_hd` knows; `unknown` makes it panic.
pub data DriverRequest : Type 0 where
  dev_open dev_close : ℕ → DriverRequest
  dev_read dev_write : ℕ → ℕ → ℕ → ℕ → DriverRequest
  dev_ioctl : ℕ → ℕ → ℕ → DriverRequest
  unknown : DriverRequest

module _ {H : Type 0} (hw : Hardware H) (patience : ℕ) where
  unfoldable pub get_part_table : ℕ → ℕ → D H (ℕ → PartEntry)
  get_part_table drive sect_nr = do
    hd_cmd_out hw patience (sector_command drive 1 sect_nr ata_read)
    read_data hw
    s ← get
    pure (part_entry s.hdbuf)

  -- The loop of `partition` for P_EXTENDED, with `n` partitions to go, number `dev_nr` next, whose
  -- table lies in sector `s`.
  unfoldable pub extended_loop : ℕ → ℕ → ℕ → ℕ → ℕ → D H (Unit {0})
  extended_loop zero drive ext_start_sect dev_nr sect = pure tt
  extended_loop (suc n) drive ext_start_sect dev_nr sect = do
    table ← get_part_table drive sect
    (λ s. some (tt, record s { logical = update s.logical dev_nr (part_info sect (table 0)) }))
    elim ((table 1).sys_id == no_part) [
      | true ↦ pure tt
      | false ↦
          extended_loop n drive ext_start_sect (suc dev_nr)
            ((ext_start_sect + (table 1).lba_start_sector) % 2 ^ 32)
    ]

  -- `partition` for P_EXTENDED; `device` is the number of a primary partition.
  unfoldable pub partition_extended : ℕ → D H (Unit {0})
  partition_extended device = do
    let j = device % nr_prim_per_drive
    s ← get
    let ext_start_sect = (s.primary j).base
    extended_loop nr_sub_per_part (drive_of_dev device) ext_start_sect ((j - 1) * nr_sub_per_part)
        ext_start_sect

  -- The loop of `partition` for P_PRIMARY over the `n` entries from `i` on: `nr_prim_parts`.
  unfoldable pub primary_loop : ℕ → ℕ → (ℕ → PartEntry) → ℕ → ℕ → D H ℕ
  primary_loop zero device table i nr_prim_parts = pure nr_prim_parts
  primary_loop (suc n) device table i nr_prim_parts = elim ((table i).sys_id == no_part) [
    | true ↦ primary_loop n device table (suc i) nr_prim_parts
    | false ↦ (do
      (λ s. some (
        tt,
        record s {
          primary =
              update s.primary (i + 1)
                (record { base = (table i).lba_start_sector; size = (table i).sector_num });
        },
      ))
      if (table i).sys_id == ext_part then partition_extended (device + (i + 1)) else pure tt
      primary_loop n device table (suc i) (nr_prim_parts + 1))
  ]

  -- `partition` for P_PRIMARY; the table of drive `n` is read from its sector `n`.
  unfoldable pub partition_primary : ℕ → D H (Unit {0})
  partition_primary device = do
    let drive = drive_of_dev device
    table ← get_part_table drive drive
    n ← primary_loop nr_part_per_drive device table 0 0
    assert (negate (n == 0))

  -- `hd_open`, without `print_hdinfo`. `cmd` is what `hd_identify` finds on its stack.
  unfoldable pub hd_open : HdCmd → ℕ → D H (Unit {0})
  hd_open cmd device = do
    let drive = drive_of_dev device
    assert (drive == 0)
    hd_identify hw patience cmd drive
    s ← get
    (λ s. some (tt, record s { open_cnt = succ_ℤ s.open_cnt }))
    if is_zero_ℤ s.open_cnt then partition_primary (drive * nr_prim_per_drive) else pure tt

  -- One round of `task_hd`; a request has the linear address of its buffer.
  unfoldable pub serve : HdCmd → DriverRequest → D H (Unit {0})
  serve cmd (dev_open device) = hd_open cmd device
  serve cmd (dev_close device) = hd_close hw device
  serve cmd (dev_read device position cnt la) = hd_rdwt hw patience true device position cnt la
  serve cmd (dev_write device position cnt la) = hd_rdwt hw patience false device position cnt la
  serve cmd (dev_ioctl request device la) = hd_ioctl hw request device la
  serve cmd unknown = λ s. none
