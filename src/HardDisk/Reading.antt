-- ===== src/HardDisk/Reading.antt =====
-- A read of `hd_rdwt` of kernel/hd.c, sector by sector.
use mini_operate_system.Prelude.{
  ℕ, zero, suc, ◌+◌, ◌-◌, ◌*◌, ◌/◌, ◌%◌, ◌^◌, ◌<◌, ◌≤◌, ◌≡◌, ◌⊎◌, ◌∙◌, refl, subst, inl, inr, arith,
  true, false, ◌&&◌, some, ltb, leb, ◌==◌, if◌then◌else◌, Bool-cases,
}
use mini_operate_system.HardDisk.{read_data, rdwt_loop, hd_rdwt, part_of}
use mini_operate_system.HardDisk.Machine.{
  Hardware, Driver, PartInfo, ◌>>=◌, ◌>>◌, splice, drive_of_dev, sector_command,
}
use mini_operate_system.HardDisk.Registers.{sector_size, ata_read, reg_data}
use mini_operate_system.HardDisk.Command.{
  IsDrive, lba_of, sector_command-roundtrip, commanded, hd_cmd_out-commanded,
}

-- The state after one sector has come to `la`, `bytes` of it wanted.
abbrev pub one_read : {H : Type 0} → Hardware H → ℕ → ℕ → Driver H → Driver H
one_read hw la bytes s =
    let answer = hw.port_read reg_data sector_size (hw.interrupt_wait s.machine) in
    let buf = splice s.hdbuf 0 sector_size answer.0 in
    record s { machine = answer.1; hdbuf = buf; memory = splice s.memory la bytes buf }

-- What a read of `len` bytes from sector `lba` on to address `la` makes of the state.
pub record IsRead {H : Type 0} (disk : ℕ → ℕ → ℕ) (Idle : H → Type 0) (lba la len : ℕ)
    (s s' : Driver H) : Type 0 where
  pub bytes :
      (i : ℕ) → i < len → s'.memory (la + i) ≡ disk (lba + i / sector_size) (i % sector_size)
  pub others : (a : ℕ) → (a < la) ⊎ (la + len ≤ a) → s'.memory a ≡ s.memory a
  pub idle : Idle s'.machine
  pub primary : s'.primary ≡ s.primary
  pub logical : s'.logical ≡ s.logical

module _ {H : Type 0} (hw : Hardware H) (disk : ℕ → ℕ → ℕ) (Idle : H → Type 0)
    (Sends : ℕ → ℕ → H → Type 0) (d : IsDrive hw disk Idle Sends) (patience : ℕ) where
  rdwt_loop-end :
      (fuel la : ℕ) (s : Driver H) → rdwt_loop hw (suc fuel) patience true la 0 s ≡ some (tt, s)
  unfolding rdwt_loop
  rdwt_loop-end fuel la s = refl

  rdwt_loop-round :
      (fuel la left : ℕ) (s : Driver H)
      → 0 < left
      → let bytes = if ltb sector_size left then sector_size else left in
        rdwt_loop hw (suc fuel) patience true la left s
        ≡ rdwt_loop hw fuel patience true (la + bytes) (left - bytes) (one_read hw la bytes s)
  unfolding rdwt_loop read_data
  rdwt_loop-round fuel la left s lt =
      let more : left == 0 ≡ false = ground arith in rw (rdwt_loop, more) refl

  -- The first sector of a read.
  one_read-first :
      (lba n la bytes i : ℕ) (s : Driver H)
      → Sends lba (suc n) s.machine
      → bytes ≤ sector_size
      → i < bytes
      → (one_read hw la bytes s).memory (la + i) ≡ disk (lba + i / sector_size) (i % sector_size)
  one_read-first lba n la bytes i s sends le lt =
      let low : leb la (la + i) ≡ true = ground arith in
      let high : ltb (la + i) (la + bytes) ≡ true = ground arith in
      let back : la + i - la ≡ i = omega arith in
      let low' : leb 0 i ≡ true = ground arith in
      let high' : ltb i (0 + sector_size) ≡ true = ground arith in
      let start : i - 0 ≡ i = omega arith in
      let sect : lba + i / sector_size ≡ lba = omega arith in
      let place : i % sector_size ≡ i = omega arith in
      rw (low, high, back, low', high', start, sect, place)
        (d.delivers s.machine lba n i sends (omega arith))

  one_read-others :
      (la bytes a : ℕ) (s : Driver H)
      → (a < la) ⊎ (la + bytes ≤ a)
      → (one_read hw la bytes s).memory a ≡ s.memory a
  one_read-others la bytes a s out =
      let no : leb la a && ltb a (la + bytes) ≡ false = ground arith in rw (no) refl

  IsRead-more :
      (lba n la left bytes : ℕ) (s s' : Driver H)
      → Sends lba (suc n) s.machine
      → bytes ≤ sector_size
      → bytes ≤ left
      → (bytes ≡ sector_size) ⊎ (bytes ≡ left)
      → IsRead disk Idle (suc lba) (la + bytes) (left - bytes) (one_read hw la bytes s) s'
      → IsRead disk Idle lba la left s s'
  IsRead-more lba n la left bytes s s' sends le le' full r = record {
    bytes = λ i lt. elim (Bool-cases (ltb i bytes)) [
      | inl first ↦
          r.others (la + i) (ground arith)
          ∙ one_read-first lba n la bytes i s sends le (ground arith)
      | inr later ↦
          let far : bytes ≤ i = ground arith in
          let whole : bytes ≡ sector_size = omega arith in
          let at : la + bytes + (i - bytes) ≡ la + i = omega arith in
          let sect : suc lba + (i - bytes) / sector_size ≡ lba + i / sector_size = omega arith in
          let place : (i - bytes) % sector_size ≡ i % sector_size = omega arith in
          rw (at, sect, place) at (r.bytes (i - bytes) (omega arith))
    ];
    others = λ a out. r.others a (omega arith) ∙ one_read-others la bytes a s (omega arith);
    idle = r.idle;
    primary = r.primary;
    logical = r.logical;
  }

  rdwt_loop-IsRead :
      (n fuel lba la left : ℕ) (s : Driver H)
      → Sends lba n s.machine
      → left ≤ n * sector_size
      → n * sector_size < left + sector_size
      → n < fuel
      → (s' : Driver H) × (rdwt_loop hw fuel patience true la left s ≡ some (tt, s'))
        × IsRead disk Idle lba la left s s'
  rdwt_loop-IsRead n zero lba la left s sends enough tight lt = absurd (omega arith)
  rdwt_loop-IsRead zero (suc fuel) lba la left s sends enough tight lt =
      let done : left ≡ 0 = omega arith in
      (
        s,
        rw (done) (rdwt_loop-end fuel la s),
        record {
          bytes = λ i below. absurd (omega arith);
          others = λ a out. refl;
          idle = d.finished s.machine lba sends;
          primary = refl;
          logical = refl;
        },
      )
  rdwt_loop-IsRead (suc n) (suc fuel) lba la left s sends enough tight lt =
      let bytes = if ltb sector_size left then sector_size else left in
      let le : bytes ≤ sector_size = ground arith in
      let le' : bytes ≤ left = ground arith in
      let full : (bytes ≡ sector_size) ⊎ (bytes ≡ left) = ground arith in
      let last : (bytes ≡ sector_size) ⊎ (n ≡ 0) = elim full [
        | inl e ↦ inl e
        | inr e ↦ omega arith
      ] in
      let (s', e, r) =
        rdwt_loop-IsRead n fuel (suc lba) (la + bytes) (left - bytes) (one_read hw la bytes s)
          (d.next s.machine lba n sends) (omega arith) (omega arith) (omega arith) in
      (
        s',
        rdwt_loop-round fuel la left s (omega arith) ∙ e,
        IsRead-more lba n la left bytes s s' sends le le' full r,
      )

module _ {H : Type 0} (hw : Hardware H) (disk : ℕ → ℕ → ℕ) (Idle : H → Type 0)
    (Sends : ℕ → ℕ → H → Type 0) (d : IsDrive hw disk Idle Sends) (patience : ℕ) where
  -- A read request of `hd_rdwt` brings the sectors of the partition to the caller's memory: byte `i`
  -- of the buffer becomes byte `i` of the partition from the position on, every other byte of memory
  -- keeps its value, and the drive is idle again. The request is for 1 byte to 255 sectors, at a
  -- multiple of the sector size, the drive is the first one, obeys its commands and is idle, and the
  -- sectors have numbers of 28 bits.
  pub hd_rdwt-IsRead :
      (s : Driver H) (dev position cnt la : ℕ) (p : PartInfo)
      → Idle s.machine
      → drive_of_dev dev ≡ 0
      → part_of hw s dev ≡ some p
      → position % sector_size ≡ 0
      → 0 < cnt
      → cnt ≤ 255 * sector_size
      → position / sector_size + p.base < 2 ^ 28
      → (s' : Driver H) × (hd_rdwt hw (suc patience) true dev position cnt la s ≡ some (tt, s'))
        × IsRead disk Idle (position / sector_size + p.base) la cnt s s'
  unfolding hd_rdwt
  hd_rdwt-IsRead s dev position cnt la p idle first part aligned some_bytes few near =
      let n = (cnt + sector_size - 1) / sector_size in
      let lba = position / sector_size + p.base in
      let c = sector_command 0 n lba ata_read in
      let (fields, at, count) = sector_command-roundtrip n lba ata_read near (omega arith) in
      let start = hd_cmd_out-commanded hw disk Idle Sends patience c s d idle in
      let own : drive_of_dev dev == 0 ≡ true = rw (first) refl in
      let bounded : ltb (position / 2 ^ 9) (2 ^ 64 - 2 ^ 31) ≡ true = ground arith in
      let on_sector : position % 2 ^ 9 == 0 ≡ true = rw (aligned) refl in
      let sect : (position / 2 ^ 9 % 2 ^ 32 + p.base) % 2 ^ 32 ≡ lba = omega arith in
      let told = d.obeys s.machine c idle fields (omega arith) (unfold sector_command in refl) in
      let m = (commanded hw c s).machine in
      let sends = subst (λ x. Sends x n m) at (subst (λ x. Sends (lba_of c) x m) count told) in
      let (s', e, r) =
        rdwt_loop-IsRead hw disk Idle Sends d (suc patience) n (suc (cnt / sector_size + 1)) lba la
          cnt (commanded hw c s) sends (omega arith) (omega arith) (omega arith) in
      (
        s',
        rw (own, bounded, on_sector, part, first, sect, start, ◌>>=◌, ◌>>◌) e,
        record {
          bytes = r.bytes;
          others = r.others;
          idle = r.idle;
          primary = r.primary;
          logical = r.logical;
        },
      )
