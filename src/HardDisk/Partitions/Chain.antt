-- ===== src/HardDisk/Partitions/Chain.antt =====
-- The chain of logical partitions that `partition` of kernel/hd.c follows.
use mini_operate_system.Prelude.{
  ℕ, zero, suc, ◌+◌, ◌-◌, ◌*◌, ◌%◌, ◌^◌, ◌<◌, ◌≡◌, ◌∙◌, refl, subst, ap, inl, inr, arith,
  Bool-cases, true, false, some, ltb, leb, ◌==◌, List, [], ◌∷◌, update,
}
use mini_operate_system.HardDisk.{read_data}
use mini_operate_system.HardDisk.Machine.{
  Hardware, Driver, PartInfo, ◌>>=◌, ◌>>◌, sector_command, splice, get32,
}
use mini_operate_system.HardDisk.Registers.{sector_size, ata_read, reg_data}
use mini_operate_system.HardDisk.Command.{
  IsDrive, lba_of, sector_command-roundtrip, commanded, hd_cmd_out-commanded,
}
use mini_operate_system.HardDisk.Partitions.{
  PartEntry, part_entry, part_info, get_part_table, extended_loop,
}

-- A number of 32 bits at byte `at` of a boot sector, least byte first.
abbrev pub number_at : (ℕ → ℕ) → ℕ → ℕ
number_at b at = b at + 2 ^ 8 * b (at + 1) + 2 ^ 16 * b (at + 2) + 2 ^ 24 * b (at + 3)

-- The logical partition that the first entry of the boot sector `sect` describes: its start counts
-- from `sect`.
abbrev pub logical_at : (ℕ → ℕ → ℕ) → ℕ → PartInfo
logical_at disk sect = record {
  base = (sect + number_at (disk sect) 454) % 2 ^ 32;
  size = number_at (disk sect) 458;
}

-- The boot sector that the second entry names: it counts from the extended partition's start.
abbrev pub next_at : (ℕ → ℕ → ℕ) → ℕ → ℕ → ℕ
next_at disk ext_start_sect sect = (ext_start_sect + number_at (disk sect) 470) % 2 ^ 32

-- The logical partitions, `n` at most, of the chain in sector `sect` of the disk. The second entry's
-- kind is at byte 466.
unfoldable pub chain : ℕ → (ℕ → ℕ → ℕ) → ℕ → ℕ → List PartInfo
chain zero disk ext_start_sect sect = []
chain (suc n) disk ext_start_sect sect = logical_at disk sect ∷ (elim (disk sect 466 == 0) [
  | true ↦ []
  | false ↦ chain n disk ext_start_sect (next_at disk ext_start_sect sect)
])

-- The sectors of the chain have numbers of 28 bits.
unfoldable pub IsNear : ℕ → (ℕ → ℕ → ℕ) → ℕ → ℕ → Type 0
IsNear zero disk ext_start_sect sect = Unit
IsNear (suc n) disk ext_start_sect sect =
    (sect < 2 ^ 28) × IsNear n disk ext_start_sect (next_at disk ext_start_sect sect)

get32-number_at : (b : ℕ → ℕ) (at : ℕ) → get32 b at ≡ number_at b at
get32-number_at b at = omega arith

part_info-logical_at :
    (disk : ℕ → ℕ → ℕ) (sect : ℕ) → part_info sect (part_entry (disk sect) 0) ≡ logical_at disk sect
unfolding part_entry
part_info-logical_at disk sect =
    rw (get32-number_at (disk sect) 454, get32-number_at (disk sect) 458) refl

-- A table with the elements of a list from index `at` on.
abbrev pub laid : ℕ → List PartInfo → (ℕ → PartInfo) → ℕ → PartInfo
laid at [] t = t
laid at (x ∷ xs) t = laid (suc at) xs (update t at x)

part_entry-same :
    (a b : ℕ → ℕ) (i : ℕ)
    → i < 4
    → ((j : ℕ) → j < sector_size → a j ≡ b j)
    → part_entry a i ≡ part_entry b i
unfolding part_entry
part_entry-same a b i lt same =
    let at = 0x1BE + 16 * i in
    rw
      (
        same (at + 4) (omega arith),
        same (at + 8) (omega arith),
        same (at + 8 + 1) (omega arith),
        same (at + 8 + 2) (omega arith),
        same (at + 8 + 3) (omega arith),
        same (at + 12) (omega arith),
        same (at + 12 + 1) (omega arith),
        same (at + 12 + 2) (omega arith),
        same (at + 12 + 3) (omega arith),
      )
      refl

-- The parts of the state that reading a table keeps.
pub record SameParts {H : Type 0} (Idle : H → Type 0) (s s' : Driver H) : Type 0 where
  pub idle : Idle s'.machine
  pub primary : s'.primary ≡ s.primary
  pub logical : s'.logical ≡ s.logical
  pub memory : s'.memory ≡ s.memory

module _ {H : Type 0} (hw : Hardware H) (disk : ℕ → ℕ → ℕ) (Idle : H → Type 0)
    (Sends : ℕ → ℕ → H → Type 0) (d : IsDrive hw disk Idle Sends) (patience : ℕ) where
  get_part_table-read :
      (s : Driver H) (sect : ℕ)
      → Idle s.machine
      → sect < 2 ^ 28
      → (table : ℕ → PartEntry) × (s' : Driver H) × (get_part_table hw (suc patience) 0 sect s
          ≡ some (table, s'))
        × ((i : ℕ) → i < 4 → table i ≡ part_entry (disk sect) i)
        × SameParts Idle s s'
  unfolding get_part_table read_data
  get_part_table-read s sect idle near =
      let c = sector_command 0 1 sect ata_read in
      let (fields, at, count) = sector_command-roundtrip 1 sect ata_read near (omega arith) in
      let start = hd_cmd_out-commanded hw disk Idle Sends patience c s d idle in
      let told = d.obeys s.machine c idle fields (omega arith) (unfold sector_command in refl) in
      let m = (commanded hw c s).machine in
      let sends = subst (λ x. Sends x 1 m) at (subst (λ x. Sends (lba_of c) x m) count told) in
      let answer = hw.port_read reg_data sector_size (hw.interrupt_wait m) in
      let buf = splice s.hdbuf 0 sector_size answer.0 in
      (
        part_entry buf,
        record (commanded hw c s) { machine = answer.1; hdbuf = buf },
        rw (start, ◌>>=◌, ◌>>◌) refl,
        λ i lt. part_entry-same buf (disk sect) i lt (λ j below.
            let low : leb 0 j ≡ true = ground arith in
            let high : ltb j (0 + sector_size) ≡ true = ground arith in
            let own : j - 0 ≡ j = omega arith in
            rw (low, high, own) (d.delivers m sect 0 j sends below)),
        record {
          idle = d.finished answer.1 (suc sect) (d.next m sect 0 sends);
          primary = refl;
          logical = refl;
          memory = refl;
        },
      )

  -- The loop over an extended partition stores the partitions of its chain: number `dev_nr` and the
  -- ones behind it are those that the boot sectors on the disk describe, each relative to its own
  -- sector, up to the first that has no next one and `n` at most; no other partition and no memory
  -- changes. The drive obeys its commands and is idle, and the boot sectors have numbers of 28 bits.
  pub extended_loop-chain :
      (n ext_start_sect dev_nr sect : ℕ) (s : Driver H)
      → Idle s.machine
      → IsNear n disk ext_start_sect sect
      → (s' : Driver H) × (extended_loop hw (suc patience) n 0 ext_start_sect dev_nr sect s
          ≡ some (tt, s'))
        × (s'.logical ≡ laid dev_nr (chain n disk ext_start_sect sect) s.logical)
        × (s'.primary ≡ s.primary)
        × (s'.memory ≡ s.memory)
        × Idle s'.machine
  unfolding extended_loop chain IsNear part_entry
  extended_loop-chain zero ext dev_nr sect s idle near = (s, refl, refl, refl, refl, idle)
  extended_loop-chain (suc n) ext dev_nr sect s idle (here_near, rest) =
      let (table, s1, e1, entries, same) = get_part_table-read s sect idle here_near in
      let info = logical_at disk sect in
      let beyond = next_at disk ext sect in
      let own : part_info sect (part_entry (disk sect) 0) ≡ info = part_info-logical_at disk sect in
      let onward : (ext + (part_entry (disk sect) 1).lba_start_sector) % 2 ^ 32 ≡ beyond =
        ap (λ x. (ext + x) % 2 ^ 32) (get32-number_at (disk sect) 470) in
      let s2 = record s1 { logical = update s1.logical dev_nr info } in
      let zeroth = entries 0 (omega arith) in
      let first = entries 1 (omega arith) in
      elim (Bool-cases (disk sect 466 == 0)) [
        | inl last ↦ (
          s2,
          rw (e1, zeroth, own, first, last, ◌>>=◌, ◌>>◌) refl,
          rw (last) (ap (λ (t : ℕ → PartInfo). update t dev_nr info) same.logical),
          same.primary,
          same.memory,
          same.idle,
        )
        | inr more ↦
            let (s', e, l, p, m, i) =
              extended_loop-chain n ext (suc dev_nr) beyond s2 same.idle rest in
            (
              s',
              rw (e1, zeroth, own, first, more, first, onward, ◌>>=◌, ◌>>◌) e,
              rw (more) (
                  l
                  ∙ ap
                      (λ (t : ℕ → PartInfo).
                        laid (suc dev_nr) (chain n disk ext beyond) (update t dev_nr info))
                      same.logical),
              p ∙ same.primary,
              m ∙ same.memory,
              i,
            )
      ]
