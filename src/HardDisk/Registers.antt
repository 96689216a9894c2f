-- ===== src/HardDisk/Registers.antt =====
-- The registers, the commands and the numbers of include/hd.h.
use mini_operate_system.Prelude.{ℕ, ◌+◌, ◌-◌, ◌*◌}

-- The registers of include/hd.h.
abbrev pub reg_dev_ctrl : ℕ
reg_dev_ctrl = 0x3F6

abbrev pub reg_data : ℕ
reg_data = 0x1F0

abbrev pub reg_features : ℕ
reg_features = 0x1F1

abbrev pub reg_nsector : ℕ
reg_nsector = 0x1F2

abbrev pub reg_lba_low : ℕ
reg_lba_low = 0x1F3

abbrev pub reg_lba_mid : ℕ
reg_lba_mid = 0x1F4

abbrev pub reg_lba_high : ℕ
reg_lba_high = 0x1F5

abbrev pub reg_device : ℕ
reg_device = 0x1F6

abbrev pub reg_cmd : ℕ
reg_cmd = 0x1F7

-- REG_STATUS is REG_CMD.
abbrev pub reg_status : ℕ
reg_status = 0x1F7

abbrev pub status_busy : ℕ
status_busy = 0x80

abbrev pub status_drq : ℕ
status_drq = 0x8

abbrev pub hd_timeout : ℕ
hd_timeout = 500

abbrev pub time_int_freq : ℕ
time_int_freq = 100

abbrev pub ata_identify : ℕ
ata_identify = 0xEC

abbrev pub ata_read : ℕ
ata_read = 0x20

abbrev pub ata_write : ℕ
ata_write = 0x30

abbrev pub sector_size : ℕ
sector_size = 512

abbrev pub minor_hd1a : ℕ
minor_hd1a = 0x10

abbrev pub nr_part_per_drive : ℕ
nr_part_per_drive = 4

abbrev pub nr_sub_per_part : ℕ
nr_sub_per_part = 16

abbrev pub nr_sub_per_drive : ℕ
nr_sub_per_drive = nr_sub_per_part * nr_part_per_drive

abbrev pub nr_prim_per_drive : ℕ
nr_prim_per_drive = nr_part_per_drive + 1

abbrev pub max_prim : ℕ
max_prim = 2 * nr_prim_per_drive - 1
