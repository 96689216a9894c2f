-- ===== src/Files/Inodes/Reload.antt =====
-- `get_inode` of fs/open.c on an inode that the table no longer holds: the table as a cache of the
-- inodes on the disk.
use mini_operate_system.Prelude.{
  ℕ, zero, suc, ◌+◌, ◌-◌, ◌≤◌, ◌<◌, ◌≡◌, ◌≢◌, refl, sym, subst, ap, ◌∙◌, inl, inr, arith, true,
  false, ◌&&◌, ◌==◌, ltb, none, some, update, Bool-cases, if◌then◌else◌,
}
use mini_operate_system.Files.Disk.{
  FileSystem, SuperBlock, Inode, ◌>>=◌, ◌>>◌, sector_size, splice, rd_sect, nr_inode,
}
use mini_operate_system.Files.Inodes.{
  free, find_inode, get_super_block, get_inode, put_inode, sync_inode, inode_sector, inode_offset,
  load_inode, store_inode,
}
use mini_operate_system.Files.Inodes.Counts.{IsHeld}
use mini_operate_system.Files.Inodes.Roundtrip.{Fits, SameFile, get32-same, store_inode-roundtrip}
use mini_operate_system.Files.Inodes.Sync.{get_super_block-same, synced, sync_inode-synced}

-- The table does not hold the inode in the `n` places from `p` on.
abbrev Absent : ℕ → ℕ → ℕ → ℕ → (ℕ → Inode) → Type 0
Absent n p dev num t = (k : ℕ) → p ≤ k → k < p + n → ¬ IsHeld dev num (t k)

-- A place that is in use holds another inode.
pub other_inode :
    (dev num : ℕ) (i : Inode)
    → ¬ IsHeld dev num i
    → ltb 0 i.i_cnt ≡ true
    → ((i.i_dev == dev) && (i.i_num == num)) ≡ false
other_inode dev num i absent used = elim (Bool-cases ((i.i_dev == dev) && (i.i_num == num))) [
  | inr other ↦ other
  | inl same ↦
      absurd
        (absent (record { in_use = ground arith; device = ground arith; number = ground arith }))
]

-- The first free place found is kept to the end.
find_inode-some :
    (n p r dev num : ℕ) (t : ℕ → Inode)
    → Absent n p dev num t
    → find_inode n p (some r) dev num t ≡ free (some r)
unfolding find_inode
find_inode-some zero p r dev num t absent = refl
find_inode-some (suc n) p r dev num t absent =
    let rest =
      find_inode-some n (suc p) r dev num t (λ k h h'. absent k (omega arith) (omega arith)) in
    elim (Bool-cases (ltb 0 (t p).i_cnt)) [
      | inr unused ↦ rw (find_inode, unused) rest
      | inl used ↦
          let other = other_inode dev num (t p) (absent p (omega arith) (omega arith)) used in
          rw (find_inode, used, other) rest
    ]

-- The search passes a table that does not hold the inode and gives a free place of it.
find_inode-free :
    (n p dev num j : ℕ) (t : ℕ → Inode)
    → Absent n p dev num t
    → p ≤ j
    → j < p + n
    → (t j).i_cnt ≡ 0
    → (r : ℕ) × (find_inode n p none dev num t ≡ free (some r)) × ((t r).i_cnt ≡ 0)
unfolding find_inode
find_inode-free zero p dev num j t absent le lt room = absurd (omega arith)
find_inode-free (suc n) p dev num j t absent le lt room =
    let later : Absent n (suc p) dev num t = λ k h h'. absent k (omega arith) (omega arith) in
    elim (Bool-cases (ltb 0 (t p).i_cnt)) [
      | inr unused ↦
          let e = find_inode-some n (suc p) p dev num t later in
          (p, rw (find_inode, unused) e, ground arith)
      | inl used ↦
          let other = other_inode dev num (t p) (absent p (omega arith) (omega arith)) used in
          let far : p ≢ j = λ e. ground arith in
          let (r, e, h) =
            find_inode-free n (suc p) dev num j t later (omega arith) (omega arith) room in
          (r, rw (find_inode, used, other) e, h)
    ]

-- Reading an inode from two buffers with the same bytes.
load_inode-same :
    (a b : ℕ → ℕ) (at : ℕ) (x y : Inode)
    → at + 16 ≤ sector_size
    → ((j : ℕ) → j < sector_size → a j ≡ b j)
    → SameFile (load_inode a at x) (load_inode b at y)
unfolding load_inode
load_inode-same a b at x y le same = record {
  mode = get32-same a b at (omega arith) same;
  size = get32-same a b (at + 4) (omega arith) same;
  start_sector = get32-same a b (at + 8) (omega arith) same;
  nr_sectors = get32-same a b (at + 12) (omega arith) same;
}

SameFile-trans : (x y z : Inode) → SameFile x y → SameFile y z → SameFile x z
SameFile-trans x y z f g = record {
  mode = f.mode ∙ g.mode;
  size = f.size ∙ g.size;
  start_sector = f.start_sector ∙ g.start_sector;
  nr_sectors = f.nr_sectors ∙ g.nr_sectors;
}

-- What `get_inode` makes of place `q` of the table when it reads inode `num` of device `dev`.
abbrev loaded : ℕ → ℕ → ℕ → SuperBlock → FileSystem → FileSystem
loaded dev num q sb s =
    let i = record (s.inode_table q) { i_dev = dev; i_num = num; i_cnt = 1 } in
    let t = update s.inode_table q i in
    let buf = splice s.fsbuf 0 sector_size (s.disk dev (inode_sector sb num)) in
    record s { fsbuf = buf; inode_table = update t q (load_inode buf (inode_offset num) (t q)) }

module _ (dev num q : ℕ) (sb : SuperBlock) (s : FileSystem) where
  abbrev taken : Inode
  taken = record (s.inode_table q) { i_dev = dev; i_num = num; i_cnt = 1 }

  loaded_at :
      (loaded dev num q sb s).inode_table q
      ≡ load_inode
          (splice s.fsbuf 0 sector_size (s.disk dev (inode_sector sb num)))
          (inode_offset num)
          taken
  loaded_at = let self : (q == q) ≡ true = ground arith in rw (self) refl

  loaded_elsewhere : (j : ℕ) → j ≢ q → (loaded dev num q sb s).inode_table j ≡ s.inode_table j
  loaded_elsewhere j ne = let far : (q == j) ≡ false = ground arith in rw (far) refl

get_inode-loaded :
    (dev num q : ℕ) (sb : SuperBlock) (s : FileSystem)
    → num ≢ 0
    → find_inode nr_inode 0 none dev num s.inode_table ≡ free (some q)
    → get_super_block dev s ≡ some (sb, s)
    → get_inode dev num s ≡ some (some q, loaded dev num q sb s)
unfolding get_inode rd_sect
get_inode-loaded dev num q sb s some_number missed found =
    let nonzero : (num == 0) ≡ false = ground arith in
    let i = record (s.inode_table q) { i_dev = dev; i_num = num; i_cnt = 1 } in
    let again =
      get_super_block-same dev sb s (record s { inode_table = update s.inode_table q i }) refl
        found in
    rw (nonzero, if◌then◌else◌, ◌>>=◌, missed, ◌>>◌, again) refl

abbrev released : ℕ → FileSystem → FileSystem
released p s = record s {
  inode_table =
      update s.inode_table p (record (s.inode_table p) { i_cnt = (s.inode_table p).i_cnt - 1 });
}

put_inode-released :
    (p : ℕ) (s : FileSystem) → 0 < (s.inode_table p).i_cnt → put_inode p s ≡ some (tt, released p s)
unfolding put_inode
put_inode-released p s used =
    let used' : ltb 0 (s.inode_table p).i_cnt ≡ true = ground arith in rw (put_inode, used') refl

-- Place `q` of the table of `s'` holds the inode that place `p` of the table of `s` held, and the
-- other inodes in use are as they were.
pub record Reloaded (p : ℕ) (s : FileSystem) (q : ℕ) (s' : FileSystem) : Type 0 where
  pub file : SameFile (s'.inode_table q) (s.inode_table p)
  pub device : (s'.inode_table q).i_dev ≡ (s.inode_table p).i_dev
  pub number : (s'.inode_table q).i_num ≡ (s.inode_table p).i_num
  pub count : (s'.inode_table q).i_cnt ≡ 1
  pub others : (j : ℕ) → j ≢ p → 0 < (s.inode_table j).i_cnt → s'.inode_table j ≡ s.inode_table j

module _ (s : FileSystem) (p : ℕ) (sb : SuperBlock) (once : (s.inode_table p).i_cnt ≡ 1)
    (numbered : 0 < (s.inode_table p).i_num)
    (known : get_super_block (s.inode_table p).i_dev s ≡ some (sb, s)) where
  abbrev dev : ℕ
  dev = (s.inode_table p).i_dev

  abbrev num : ℕ
  num = (s.inode_table p).i_num

  abbrev gone : FileSystem
  gone = released p (synced p sb s)

  gone-unused : (gone.inode_table p).i_cnt ≡ 0
  gone-unused = ground arith

  gone-Absent :
      ((k : ℕ) → k < nr_inode → k ≢ p → ¬ IsHeld dev num (s.inode_table k))
      → Absent nr_inode 0 dev num gone.inode_table
  gone-Absent single k le lt hold = elim (Bool-cases (p == k)) [
    | inl own ↦
        let e : p ≡ k = ground arith in
        let h = subst (λ j. 0 < (gone.inode_table j).i_cnt) (sym e) hold.in_use in
        absurd (omega (arith, gone-unused))
    | inr other ↦
        let far : k ≢ p = ground arith in
        let same : gone.inode_table k ≡ s.inode_table k = rw (other) refl in
        single k lt far (rw (← same) hold)
  ]

  abbrev disk_sector : ℕ
  disk_sector = inode_sector sb num

  sector_written :
      (j : ℕ)
      → j < sector_size
      → splice gone.fsbuf 0 sector_size (gone.disk dev disk_sector) j
        ≡ store_inode
            (s.inode_table p)
            (inode_offset num)
            (splice s.fsbuf 0 sector_size (s.disk dev disk_sector))
            j
  sector_written j lt = ground arith

  offset_inside : inode_offset num + 16 ≤ sector_size
  unfolding inode_offset
  offset_inside = omega arith

  read_back :
      (q : ℕ)
      → Fits (s.inode_table p)
      → SameFile ((loaded dev num q sb gone).inode_table q) (s.inode_table p)
  read_back q fits =
      let i = s.inode_table p in
      let b = splice s.fsbuf 0 sector_size (s.disk dev disk_sector) in
      let stored = store_inode i (inode_offset num) b in
      let again =
        load_inode-same _ stored (inode_offset num) (taken dev num q sb gone) i offset_inside
          sector_written in
      subst (λ x. SameFile x i) (sym (loaded_at dev num q sb gone))
        (SameFile-trans _ _ i again (store_inode-roundtrip i i (inode_offset num) b fits))

  loaded-Reloaded :
      (q : ℕ)
      → Fits (s.inode_table p)
      → (gone.inode_table q).i_cnt ≡ 0
      → Reloaded p s q (loaded dev num q sb gone)
  unfolding load_inode
  loaded-Reloaded q fits room =
      let at = loaded_at dev num q sb gone in
      record {
        file = read_back q fits;
        device = ap (λ (i : Inode). i.i_dev) at;
        number = ap (λ (i : Inode). i.i_num) at;
        count = ap (λ (i : Inode). i.i_cnt) at;
        others = λ j ne used.
            let far : (p == j) ≡ false = ground arith in
            let kept : gone.inode_table j ≡ s.inode_table j = rw (far) refl in
            let apart : j ≢ q = λ e.
              let none_in_use = subst (λ k. (gone.inode_table k).i_cnt ≡ 0) (sym e) room in
              let same = ap (λ (i : Inode). i.i_cnt) kept in omega (arith, none_in_use, same) in
            loaded_elsewhere dev num q sb gone j apart ∙ kept;
      }

  -- After `sync_inode` and `put_inode` of an inode with one reference, `get_inode` of its number
  -- reads it back from the disk: all three succeed, and the place of the table that it gives holds
  -- the same mode, size, first sector, number of sectors, device and number, with one reference.
  -- Every other inode in use stays as it was. The inode has a number, fields that fit 32 bits, a
  -- super block for its device, and no other place in the table.
  pub sync_inode-get_inode :
      p < nr_inode
      → Fits (s.inode_table p)
      → ((k : ℕ) → k < nr_inode → k ≢ p → ¬ IsHeld dev num (s.inode_table k))
      → (q : ℕ) × (s' : FileSystem) × ((sync_inode p >> (put_inode p >> get_inode dev num)) s
          ≡ some (some q, s'))
        × Reloaded p s q s'
  sync_inode-get_inode inside fits single =
      let (q, missed, room) =
        find_inode-free nr_inode 0 dev num p gone.inode_table (gone-Absent single) (omega arith)
          (omega arith) gone-unused in
      let first = sync_inode-synced p sb s numbered known in
      let second = put_inode-released p (synced p sb s) (omega arith) in
      let again = get_super_block-same dev sb s gone refl known in
      let third = get_inode-loaded dev num q sb gone (omega arith) missed again in
      (
        q,
        loaded dev num q sb gone,
        rw (◌>>◌, ◌>>=◌, first, second, third) refl,
        loaded-Reloaded q fits room,
      )
