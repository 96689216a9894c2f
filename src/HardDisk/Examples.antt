-- ===== src/HardDisk/Examples.antt =====
-- The theorems on kernel/hd.c with a concrete drive.
use mini_operate_system.Prelude.{
  ℕ, suc, ◌+◌, ◌-◌, ◌*◌, ◌/◌, ◌%◌, ◌^◌, ◌≡◌, refl, ap, arith, pos, true, some, ◌==◌, if◌then◌else◌,
}
use mini_operate_system.HardDisk.{hd_rdwt, part_of, registers}
use mini_operate_system.HardDisk.Machine.{Hardware, Driver, drive_of_dev}
use mini_operate_system.HardDisk.Command.{IsDrive, lba_of}
use mini_operate_system.HardDisk.Reading.{IsRead, hd_rdwt-IsRead}
use mini_operate_system.HardDisk.Partitions.{extended_loop, part_entry}
use mini_operate_system.HardDisk.Partitions.Chain.{chain, laid, IsNear, extended_loop-chain}

-- An extended partition from sector 5000 on, with two logical ones of 50 sectors: each begins in the
-- sector behind its table, and the second table lies in sector 5100.
abbrev disk : ℕ → ℕ → ℕ
disk n i =
    if i == 0x1BE + 8
    then 1
    else if i == 0x1BE + 12
    then 50
    else if i == 0x1BE + 16 + 4
    then (if n == 5000 then 5 else 0)
    else if i == 0x1BE + 16 + 8
    then (if n == 5000 then 100 else 0)
    else 0

-- The registers of a drive, the sector that it sends next, and how many it still sends.
record Sim : Type 0 where
  nsector : ℕ
  low : ℕ
  mid : ℕ
  high : ℕ
  dev : ℕ
  lba : ℕ
  left : ℕ

abbrev write_register : ℕ → ℕ → Sim → Sim
write_register port x h =
    if port == 0x1F2
    then record h { nsector = x }
    else if port == 0x1F3
    then record h { low = x }
    else if port == 0x1F4
    then record h { mid = x }
    else if port == 0x1F5
    then record h { high = x }
    else if port == 0x1F6
    then record h { dev = x }
    else if port == 0x1F7
    then record h {
      lba = h.low + h.mid * 2 ^ 8 + h.high * 2 ^ 16 + h.dev % 2 ^ 4 * 2 ^ 24;
      left = h.nsector;
    }
    else h

abbrev sim : Hardware Sim
sim = record {
  in_byte = λ port h. (0x50, h);
  out_byte = write_register;
  port_read = λ port n h. (disk h.lba, record h { lba = suc h.lba; left = h.left - 1 });
  port_write = λ port n b h. h;
  get_ticks = λ h. (0, h);
  interrupt_wait = λ h. h;
}

abbrev Anytime : Sim → Type 0
Anytime h = Unit

abbrev Sends : ℕ → ℕ → Sim → Type 0
Sends lba n h = (h.lba ≡ lba) × (h.left ≡ n)

sim-IsDrive : IsDrive sim disk Anytime Sends
unfolding lba_of registers
sim-IsDrive = record {
  in_time = λ h i. omega arith;
  not_busy = λ h i. refl;
  obeys = λ h c i l lt e. (refl, refl);
  delivers = λ h lba n i (at, left) lt. rw (at) refl;
  next = λ h lba n (at, left). (ap suc at, omega arith);
  finished = λ h lba e. tt;
}

abbrev start : Driver Sim
start = record {
  machine = record { nsector = 0; low = 0; mid = 0; high = 0; dev = 0; lba = 0; left = 0 };
  open_cnt = pos 1;
  primary = λ i. record { base = 63; size = 1000 };
  logical = λ i. record { base = 5000; size = 1000 };
  hdbuf = λ i. 0;
  memory = λ a. 0;
}

-- Two sectors and a byte of the first logical partition.
hd_rdwt-IsRead_example :
    (s' : Driver Sim) × (hd_rdwt sim 1 true 0x10 1024 1025 4096 start ≡ some (tt, s'))
    × IsRead disk Anytime (1024 / 512 + 5000) 4096 1025 start s'
hd_rdwt-IsRead_example =
    hd_rdwt-IsRead sim disk Anytime Sends sim-IsDrive 0 start 0x10 1024 1025 4096
      (record { base = 5000; size = 1000 }) tt (unfold drive_of_dev in refl)
      (unfold part_of in refl) refl (omega arith) (omega arith) (omega arith)

near : IsNear 2 disk 5000 5000
unfolding IsNear part_entry
near = (omega arith, (omega arith, tt))

extended_loop-chain_example :
    (s' : Driver Sim) × (extended_loop sim 1 2 0 5000 16 5000 start ≡ some (tt, s'))
    × (s'.logical ≡ laid 16 (chain 2 disk 5000 5000) start.logical)
    × (s'.primary ≡ start.primary)
    × (s'.memory ≡ start.memory)
    × Anytime s'.machine
extended_loop-chain_example =
    extended_loop-chain sim disk Anytime Sends sim-IsDrive 0 2 5000 16 5000 start tt near
