-- ===== src/HardDisk.antt =====
-- kernel/hd.c: the hard disk driver. The controller, the clock and the interrupts are a parameter.
pub mod Machine
pub mod Registers
mod Examples
pub mod Command
pub mod Partitions
pub mod Reading
use mini_operate_system.Prelude.{
  ℕ, zero, suc, ◌+◌, ◌-◌, ◌*◌, ◌/◌, ◌%◌, ◌^◌, ℤ, pos, pred_ℤ, Bool, true, false, ◌&&◌, ◌==◌, ltb,
  leb, if◌then◌else◌, Option, none, some, update,
}
use mini_operate_system.HardDisk.Registers.{
  ata_identify, ata_read, ata_write, hd_timeout, max_prim, minor_hd1a, nr_prim_per_drive,
  nr_sub_per_drive, reg_cmd, reg_data, reg_dev_ctrl, reg_device, reg_features, reg_lba_high,
  reg_lba_low, reg_lba_mid, reg_nsector, reg_status, sector_size, status_busy, status_drq,
  time_int_freq,
}
use mini_operate_system.HardDisk.Machine.{
  ◌>>=◌, ◌>>◌, D, Driver, Hardware, HdCmd, PartInfo, assert, drive_of_dev, get, make_device_reg,
  masked, on_machine, pure, sector_command, splice, store32, word,
}

module _ {H : Type 0} (hw : Hardware H) where
  -- The loop of `waitfor` that began at tick `t`, with at most `fuel` rounds.
  unfoldable pub waitfor_loop : ℕ → ℕ → ℕ → ℕ → ℕ → D H Bool
  waitfor_loop zero t mask val timeout s = none
  waitfor_loop (suc fuel) t mask val timeout s =
      let (now, h) = hw.get_ticks s.machine in
      elim (ltb ((now - t) * 1000 / time_int_freq) timeout) [
        | false ↦ some (false, record s { machine = h })
        | true ↦
            let (status, h') = hw.in_byte reg_status h in
            elim (masked status mask == val) [
              | true ↦ some (true, record s { machine = h' })
              | false ↦ waitfor_loop fuel t mask val timeout (record s { machine = h' })
            ]
      ]

  unfoldable pub waitfor : ℕ → ℕ → ℕ → ℕ → D H Bool
  waitfor fuel mask val timeout s =
      let (t, h) = hw.get_ticks s.machine in
      waitfor_loop fuel t mask val timeout (record s { machine = h })

  -- The eight writes of `hd_cmd_out`.
  unfoldable pub registers : HdCmd → H → H
  registers cmd h =
      let h1 = hw.out_byte reg_dev_ctrl 0 h in
      let h2 = hw.out_byte reg_features cmd.features h1 in
      let h3 = hw.out_byte reg_nsector cmd.count h2 in
      let h4 = hw.out_byte reg_lba_low cmd.lba_low h3 in
      let h5 = hw.out_byte reg_lba_mid cmd.lba_mid h4 in
      let h6 = hw.out_byte reg_lba_high cmd.lba_high h5 in
      let h7 = hw.out_byte reg_device cmd.device h6 in hw.out_byte reg_cmd cmd.command h7

  -- `hd_cmd_out`: the task panics if the drive stays busy.
  unfoldable pub hd_cmd_out : ℕ → HdCmd → D H (Unit {0})
  hd_cmd_out fuel cmd = do
    ready ← waitfor fuel status_busy 0 hd_timeout
    assert ready
    on_machine (registers cmd)

  -- `interrupt_wait` and `port_read(REG_DATA, hdbuf, SECTOR_SIZE)`.
  unfoldable pub read_data : D H (Unit {0})
  read_data s =
      let (b, h) = hw.port_read reg_data sector_size (hw.interrupt_wait s.machine) in
      some (tt, record s { machine = h; hdbuf = splice s.hdbuf 0 sector_size b })

  -- The loop of `hd_rdwt`, with at most `fuel` rounds of a sector each.
  unfoldable pub rdwt_loop : ℕ → ℕ → Bool → ℕ → ℕ → D H (Unit {0})
  rdwt_loop zero patience reads la bytes_left = λ s. none
  rdwt_loop (suc fuel) patience reads la bytes_left = elim (bytes_left == 0) [
    | true ↦ pure tt
    | false ↦ (do
      let bytes = if ltb sector_size bytes_left then sector_size else bytes_left
      if reads
          then (do
            read_data
            (λ s. some (tt, record s { memory = splice s.memory la bytes s.hdbuf })))
          else (do
            ready ← waitfor patience status_drq status_drq hd_timeout
            assert ready
            (λ s. some (
              tt,
              record s {
                machine =
                    hw.interrupt_wait
                      (hw.port_write reg_data bytes (λ i. s.memory (la + i)) s.machine);
              },
            )))
      rdwt_loop fuel patience reads (la + bytes) (bytes_left - bytes))
  ]

  -- The first sector of the partition of a device; `hd_info[0]` has 64 logical ones. For a device
  -- from 9 to 15 the code uses a negative index.
  unfoldable pub part_of : Driver H → ℕ → Option PartInfo
  part_of s dev =
      if ltb dev max_prim
      then some (s.primary dev)
      else if ltb dev minor_hd1a
      then none
      else some (s.logical ((dev - minor_hd1a) % nr_sub_per_drive))

  -- `hd_rdwt` for DEVICE, POSITION, CNT and the linear address of BUF. The first assertion compares
  -- with `1 << 31`, which becomes 2 ^ 64 - 2 ^ 31 as a `u64`.
  unfoldable pub hd_rdwt : ℕ → Bool → ℕ → ℕ → ℕ → ℕ → D H (Unit {0})
  hd_rdwt patience reads dev position cnt la = do
    let drive = drive_of_dev dev
    assert (drive == 0)
    assert (ltb (position / 2 ^ 9) (2 ^ 64 - 2 ^ 31))
    assert (position % 2 ^ 9 == 0)
    s ← get
    elim (part_of s dev) [
      | none ↦ (λ s. none)
      | some p ↦ (do
        let sect_nr = (position / 2 ^ 9 % 2 ^ 32 + p.base) % 2 ^ 32
        hd_cmd_out patience (
            sector_command drive ((cnt + sector_size - 1) / sector_size) sect_nr
              (if reads then ata_read else ata_write))
        rdwt_loop (suc (cnt / sector_size + 1)) patience reads la cnt)
    ]

  -- `hd_ioctl`: the PART_INFO of a device for DIOCTL_GET_GEO = 0. It does not assert that the drive
  -- is 0, the only one that `hd_info` has.
  unfoldable pub hd_ioctl : ℕ → ℕ → ℕ → D H (Unit {0})
  hd_ioctl request dev la = do
    assert (request == 0)
    assert (drive_of_dev dev == 0)
    s ← get
    elim (part_of s dev) [
      | none ↦ (λ s. none)
      | some p ↦ (λ s.
          some (tt, record s { memory = store32 p.size (la + 4) (store32 p.base la s.memory) }))
    ]

  unfoldable pub hd_close : ℕ → D H (Unit {0})
  hd_close dev = do
    assert (drive_of_dev dev == 0)
    (λ s. some (tt, record s { open_cnt = pred_ℤ s.open_cnt }))

  -- `hd_identify`: it leaves the sector command's fields, here `cmd`, as they lie on the stack. The
  -- report that it prints is left out.
  unfoldable pub hd_identify : ℕ → HdCmd → ℕ → D H (Unit {0})
  hd_identify patience cmd drive = do
    hd_cmd_out patience (record cmd { device = make_device_reg 0 drive 0; command = ata_identify })
    read_data
    (λ s. some (
      tt,
      record s {
        primary =
            update s.primary 0
              (record { base = 0; size = (word s.hdbuf 61 * 2 ^ 16 + word s.hdbuf 60) % 2 ^ 32 });
      },
    ))
