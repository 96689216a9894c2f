-- ===== src/Files/Path/Added.antt =====
-- `new_dir_entry` and `search_file` of fs/open.c: a file that has been entered in the root directory
-- is found by its name.
use mini_operate_system.Prelude.{
  ℕ, ◌+◌, ◌-◌, ◌*◌, ◌≤◌, ◌<◌, ◌≡◌, ◌⊎◌, refl, sym, subst, ap, ◌∙◌, inl, inr, arith, Bool, true,
  false, ◌==◌, ◌||◌, ltb, leb, some, none, List, update,
}
use mini_operate_system.Files.Disk.{
  FileSystem, SuperBlock, Inode, ◌>>=◌, ◌>>◌, sector_size, dir_entry_size, max_filename_len, splice,
  get32, rd_sect, wr_sect,
}
use mini_operate_system.Files.Inodes.{get_super_block, inode_sector}
use mini_operate_system.Files.Inodes.Sync.{synced, sync_inode-synced, get_super_block-same}
use mini_operate_system.Files.Inodes.Roundtrip.{get32-same}
use mini_operate_system.Files.Path.{
  same_name, hit, search_sector, search_file, strip_name, Place, free_in_sector, free_entry,
  put_dir_entry, new_dir_entry, nr_dir_blks, nr_dir_entries, entries_per_sector,
}
use mini_operate_system.Files.Path.Entry.{
  same_name_same, search_sector-hit, Free, free_in_sector-Free, put_dir_entry-outside,
  put_dir_entry-number, put_dir_entry-name,
}
use mini_operate_system.Files.Path.Enter.{
  first_sector, CanEnter, sector_buffer, entered, grows, search_file-first, grows-free,
  grows-behind,
}

module _ (s : FileSystem) (dir nr n k : ℕ) (f : Bool) (name : List ℕ) (sb : SuperBlock)
    (t : ℕ → Inode) (z : ℕ) (c : CanEnter s dir nr n name sb) where
  abbrev dir_inode : Inode
  dir_inode = s.inode_table dir

  blocks : nr_dir_blks dir_inode ≡ 1
  blocks = let e = c.size in let h = c.some_entry in let h' = c.room in omega arith

  entries : nr_dir_entries dir_inode ≡ n
  entries = let e = c.size in omega arith

  abbrev found_place : Place
  found_place = record { i = 0; m = k + 1; pde = some k; is_free = f }

  free_entry-first :
      Free
        (sector_buffer s dir)
        n
        (free_in_sector entries_per_sector 0 0 0 n (sector_buffer s dir))
        k
        f
      → free_entry 1 n (record { i = 0; m = 0; pde = none; is_free = false }) dir_inode s
        ≡ some (found_place, record s { fsbuf = sector_buffer s dir })
  unfolding free_entry rd_sect
  free_entry-first free =
      let start : dir_inode.i_start_sector + 0 ≡ dir_inode.i_start_sector = omega arith in
      let stop : (ltb n (k + 1) || f) ≡ true = let r = free.room in ground arith in
      rw (free_entry, ◌>>=◌, ◌>>◌, start, free.place, stop, start, free.place) refl

  new_dir_entry-entered :
      Free
        (sector_buffer s dir)
        n
        (free_in_sector entries_per_sector 0 0 0 n (sector_buffer s dir))
        k
        f
      → ((x : FileSystem)
          → x.inode_table ≡ s.inode_table
          → grows f dir x ≡ some (tt, record x { inode_table = t }))
      → t dir ≡ record dir_inode { i_size = z }
      → new_dir_entry dir nr name s ≡ some (tt, synced dir sb (entered s dir k nr name t))
  unfolding new_dir_entry wr_sect
  new_dir_entry-entered free sets own =
      let start : dir_inode.i_start_sector + 0 ≡ dir_inode.i_start_sector = omega arith in
      let step = sets (record s { fsbuf = sector_buffer s dir }) refl in
      let e = entered s dir k nr name t in
      let numbered : 0 < (t dir).i_num = subst (λ (d : Inode). 0 < d.i_num) (sym own) c.numbered in
      let found : get_super_block (t dir).i_dev e ≡ some (sb, e) =
        subst (λ (d : Inode). get_super_block d.i_dev e ≡ some (sb, e)) (sym own)
          (get_super_block-same dir_inode.i_dev sb s e refl c.found) in
      rw (new_dir_entry, blocks, entries, ◌>>=◌, ◌>>◌, free_entry-first free, step, start)
        (sync_inode-synced dir sb e numbered found)

  -- The directory's sector after the entry.
  abbrev after : FileSystem
  after = synced dir sb (entered s dir k nr name t)

  sector-after :
      t dir ≡ record dir_inode { i_size = z }
      → (i : ℕ) → i < sector_size
      → first_sector after dir i ≡ put_dir_entry k nr name (sector_buffer s dir) i
  sector-after own i lt =
      let b = put_dir_entry k nr name (sector_buffer s dir) in
      let away : dir_inode.i_start_sector == inode_sector sb dir_inode.i_num ≡ false =
        ground (arith, c.elsewhere) in
      let here : dir_inode.i_start_sector == dir_inode.i_start_sector ≡ true = ground arith in
      let dev : dir_inode.i_dev == dir_inode.i_dev ≡ true = ground arith in
      let byte : ltb i sector_size ≡ true = ground arith in rw (own, dev, away, here, byte) refl

  place_bound :
      Free
        (sector_buffer s dir)
        n
        (free_in_sector entries_per_sector 0 0 0 n (sector_buffer s dir))
        k
        f
      → k ≤ n
  place_bound free = let r = free.room in ground arith

  -- The buffer that the search reads.
  search_sector-after :
      (b : ℕ → ℕ) (m : ℕ)
      → Free
          (sector_buffer s dir)
          n
          (free_in_sector entries_per_sector 0 0 0 n (sector_buffer s dir))
          k
          f
      → ((i : ℕ) → i < sector_size → b i ≡ put_dir_entry k nr name (sector_buffer s dir) i)
      → k ≤ m
      → search_sector entries_per_sector 0 0 m name b ≡ hit nr
  search_sector-after b m free same le =
      let old = sector_buffer s dir in
      let new = put_dir_entry k nr name old in
      let low : k ≤ n = place_bound free in
      let room = c.room in
      let short = c.short in
      let buffer : (i : ℕ) → i < sector_size → old i ≡ first_sector s dir i = λ i lt.
        let low : leb 0 i ≡ true = ground arith in
        let byte : ltb i sector_size ≡ true = ground arith in
        let back : i - 0 ≡ i = omega arith in rw (low, byte, back) refl in
      let place : (k ≡ n) ⊎ ((k < n) × (get32 (first_sector s dir) (k * dir_entry_size) ≡ 0)) =
        elim free.room [
          | inl (_, lt, z) ↦ inr (
            lt,
            get32-same (first_sector s dir) old (k * dir_entry_size) (omega arith)
                  (λ i lt. sym (buffer i lt))
                ∙ z,
          )
          | inr (_, e) ↦ inl e
        ] in
      let number : get32 b (k * dir_entry_size) ≡ nr =
        get32-same b new (k * dir_entry_size) (omega arith) same
        ∙ put_dir_entry-number k nr name old short c.word in
      let named : same_name max_filename_len 0 name b (k * dir_entry_size + 4) ≡ true =
        same_name_same max_filename_len 0 name new b (k * dir_entry_size + 4)
          (λ l lt. same (k * dir_entry_size + 4 + l) (omega arith))
        ∙ put_dir_entry-name k nr name old short
            (λ l lt. buffer (k * dir_entry_size + 4 + l) (omega arith) ∙ c.clean k l place lt) in
      let others : (i : ℕ)
          → i < k
          → same_name max_filename_len 0 name b (i * dir_entry_size + 4) ≡ false =
        λ i lt.
          same_name_same max_filename_len 0 name (first_sector s dir) b (i * dir_entry_size + 4)
            (λ l lt'.
              same (i * dir_entry_size + 4 + l) (omega arith)
              ∙ put_dir_entry-outside k nr name old short (i * dir_entry_size + 4 + l) (omega arith)
              ∙ buffer (i * dir_entry_size + 4 + l) (omega arith))
          ∙ c.fresh i (omega arith) in
      search_sector-hit entries_per_sector 0 0 k m name b refl (omega arith) (omega arith) le others
        named
      ∙ ap hit number

  new_dir_entry-found :
      (path : List ℕ) (m : ℕ)
      → Free
          (sector_buffer s dir)
          n
          (free_in_sector entries_per_sector 0 0 0 n (sector_buffer s dir))
          k
          f
      → ((x : FileSystem)
          → x.inode_table ≡ s.inode_table
          → grows f dir x ≡ some (tt, record x { inode_table = t }))
      → t dir ≡ record dir_inode { i_size = z }
      → z ≡ m * dir_entry_size
      → k ≤ m
      → 0 < m
      → m ≤ entries_per_sector
      → s.root_inode ≡ dir
      → strip_name path ≡ some name
      → (s' : FileSystem) × (s'' : FileSystem) × (new_dir_entry dir nr name s ≡ some (tt, s'))
        × (search_file path s' ≡ some (nr, s''))
  new_dir_entry-found path m free sets own size le some_entry room root e =
      let at : first_sector after s.root_inode ≡ first_sector after dir =
        ap (first_sector after) root in
      let b = splice after.fsbuf 0 sector_size (first_sector after s.root_inode) in
      let same : (i : ℕ) → i < sector_size → b i ≡ put_dir_entry k nr name (sector_buffer s dir) i =
        λ i lt.
          let low : leb 0 i ≡ true = ground arith in
          let byte : ltb i sector_size ≡ true = ground arith in
          let back : i - 0 ≡ i = omega arith in
          rw (low, byte, back) (ap (λ (g : ℕ → ℕ). g i) at ∙ sector-after own i lt) in
      let sized : (t s.root_inode).i_size ≡ m * dir_entry_size =
        ap (λ (j : ℕ). (t j).i_size) root ∙ ap (λ (d : Inode). d.i_size) own ∙ size in
      let (s'', found) =
        search_file-first after path name m nr e sized some_entry room
          (search_sector-after b m free same le) in
      (after, s'', new_dir_entry-entered free sets own, found)

-- A new entry in the root directory is found: after `new_dir_entry` of a name and a number,
-- `search_file` of a path with that name gives the number. The conditions are those of `CanEnter`.
pub new_dir_entry-search_file :
    (s : FileSystem) (nr n : ℕ) (name path : List ℕ) (sb : SuperBlock)
    → CanEnter s s.root_inode nr n name sb
    → strip_name path ≡ some name
    → (s' : FileSystem) × (s'' : FileSystem) × (new_dir_entry s.root_inode nr name s
        ≡ some (tt, s'))
      × (search_file path s' ≡ some (nr, s''))
new_dir_entry-search_file s nr n name path sb c e =
    let dir = s.root_inode in
    let t = s.inode_table in
    let (k, f, free) =
      free_in_sector-Free entries_per_sector 0 0 n (sector_buffer s dir) refl (omega arith)
        (let r = c.room in omega arith) in
    let room = c.room in
    let some_entry = c.some_entry in
    elim free.room [
      | inl (taken, lt, z) ↦
          new_dir_entry-found s dir nr n k f name sb t (t dir).i_size c path n free
            (λ x same. rw taken (grows-free dir t x same)) refl c.size (omega arith) some_entry
            (omega arith) refl e
      | inr (behind, last) ↦
          let p = record (t dir) { i_size = (t dir).i_size + dir_entry_size } in
          let own : dir == dir ≡ true = ground arith in
          let size = c.size in
          new_dir_entry-found s dir nr n k f name sb (update t dir p) p.i_size c path (n + 1) free
            (λ x same. rw behind (grows-behind dir t x same)) (rw (own) refl) (omega arith)
            (omega arith) (omega arith) (omega arith) refl e
    ]
