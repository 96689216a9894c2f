-- ===== src/Files/Path/Lookup.antt =====
-- `search_file` of fs/open.c changes nothing but the buffer.
use mini_operate_system.Prelude.{
  ℕ, zero, suc, ◌+◌, ◌≡◌, ◌⊎◌, refl, inl, inr, leb, some, List, Bool-cases, Option-cases,
}
use mini_operate_system.Files.Disk.{Inode, FileSystem, ◌>>=◌, ◌>>◌, sector_size, splice, rd_sect}
use mini_operate_system.Files.Path.{
  Search, hit, counted, entries_per_sector, search_sector, search_dir, search_file, strip_path,
  strip_name, nr_dir_blks, nr_dir_entries,
}

Search-cases : (x : Search) → ((r : ℕ) × (x ≡ hit r)) ⊎ ((m : ℕ) × (x ≡ counted m))
Search-cases (hit r) = inl (r, refl)
Search-cases (counted m) = inr (m, refl)

search_dir-buffer :
    (n i m entries : ℕ) (dir : Inode) (name : List ℕ) (s : FileSystem)
    → (r : ℕ) × (buf : ℕ → ℕ) × (search_dir n i m entries dir name s
        ≡ some (r, record s { fsbuf = buf }))
unfolding search_dir rd_sect
search_dir-buffer zero i m entries dir name s = (0, s.fsbuf, refl)
search_dir-buffer (suc n) i m entries dir name s =
    let b = splice s.fsbuf 0 sector_size (s.disk dir.i_dev (dir.i_start_sector + i)) in
    elim (Bool-cases (leb m entries)) [
      | inr past ↦ (0, s.fsbuf, rw (search_dir, past) refl)
      | inl more ↦ elim (Search-cases (search_sector entries_per_sector 0 m entries name b)) [
        | inl (r, e) ↦ (r, b, rw (search_dir, more, ◌>>=◌, ◌>>◌, e) refl)
        | inr (m', e) ↦
            let (r, buf, later) =
              search_dir-buffer n (suc i) m' entries dir name (record s { fsbuf = b }) in
            (r, buf, rw (search_dir, more, ◌>>=◌, ◌>>◌, e) later)
      ]
    ]

-- `search_file` always gives a number, and the state it leaves differs in the buffer alone.
pub search_file-buffer :
    (path : List ℕ) (s : FileSystem)
    → (r : ℕ) × (buf : ℕ → ℕ) × (search_file path s ≡ some (r, record s { fsbuf = buf }))
unfolding search_file strip_path
search_file-buffer path s = elim (Option-cases (strip_name path)) [
  | inl e ↦ (0, s.fsbuf, rw (search_file, ◌>>=◌, strip_path, e) refl)
  | inr (name, e) ↦
      let dir = s.inode_table s.root_inode in
      let (r, buf, found) =
        search_dir-buffer (nr_dir_blks dir) 0 0 (nr_dir_entries dir) dir name s in
      (r, buf, rw (search_file, ◌>>=◌, strip_path, e, ◌>>=◌) found)
]
