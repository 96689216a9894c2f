-- ===== src/Files/Open/Existing.antt =====
-- `do_open` and `do_close` of fs/fs.c on a file of the root directory.
use mini_operate_system.Prelude.{
  ℕ, zero, suc, ◌+◌, ◌*◌, ◌<◌, ◌≤◌, ◌≡◌, ◌≢◌, refl, ap, ◌∙◌, inl, inr, arith, true, false, ◌&&◌,
  ◌==◌, ltb, Option, none, some, List, Bool-cases, Option-cases,
}
use mini_operate_system.Files.Disk.{
  linear, nr_inode, Inode, FileSystem, F, sector_size, dir_entry_size, max_filename_len, i_regular,
  splice, get32,
}
use mini_operate_system.Files.Inodes.{held, find_inode}
use mini_operate_system.Files.Inodes.Counts.{IsHeld}
use mini_operate_system.Files.Inodes.Reload.{other_inode}
use mini_operate_system.Files.Inodes.Roundtrip.{get32-same}
use mini_operate_system.Files.Path.{same_name, hit, strip_name, search_file, entries_per_sector}
use mini_operate_system.Files.Path.Entry.{same_name_same, search_sector-hit}
use mini_operate_system.Files.Path.Enter.{first_sector, search_file-first}
use mini_operate_system.Files.Unlink.{max_path}
use mini_operate_system.Files.Open.{
  c_string, find_free, nr_files, nr_file_desc, has_creat, has_rdwr, do_open, do_close,
}
use mini_operate_system.Files.Open.Close.{opened, closed, do_open-opened, do_close-closed}

-- `i` is the first index below `n` at which the table has nothing.
pub record FirstFree (n : ℕ) (f : ℕ → Option ℕ) (i : ℕ) : Type 0 where
  pub inside : i < n
  pub free : f i ≡ none
  pub before : (j : ℕ) → j < i → f j ≢ none

find_free-some :
    (n i : ℕ) (f : ℕ → Option ℕ) (r : ℕ)
    → i ≤ r
    → r < i + n
    → f r ≡ none
    → ((j : ℕ) → i ≤ j → j < r → f j ≢ none)
    → find_free n i f ≡ some r
unfolding find_free
find_free-some zero i f r le lt free before = absurd (omega arith)
find_free-some (suc n) i f r le lt free before = elim (Bool-cases (i == r)) [
  | inl own ↦
      let at : i ≡ r = ground arith in
      let here : f i ≡ none = ap f at ∙ free in rw (find_free, here) (ap some at)
  | inr other ↦
      let low : i < r = ground arith in
      elim (Option-cases (f i)) [
        | inl nothing ↦ absurd (before i (omega arith) low nothing)
        | inr (x, used) ↦
            rw (find_free, used)
              (find_free-some n (suc i) f r (omega arith) (omega arith) free
                (λ j h h'. before j (omega arith) h'))
      ]
]

find_inode-held :
    (n p : ℕ) (q : Option ℕ) (dev num : ℕ) (t : ℕ → Inode) (r : ℕ)
    → p ≤ r
    → r < p + n
    → IsHeld dev num (t r)
    → ((j : ℕ) → p ≤ j → j < r → ¬ IsHeld dev num (t j))
    → find_inode n p q dev num t ≡ held r
unfolding find_inode
find_inode-held zero p q dev num t r le lt hold before = absurd (omega arith)
find_inode-held (suc n) p q dev num t r le lt hold before = elim (Bool-cases (p == r)) [
  | inl own ↦
      let at : p ≡ r = ground arith in
      let here : IsHeld dev num (t p) = rw (at) hold in
      let used : ltb 0 (t p).i_cnt ≡ true = let h = here.in_use in ground arith in
      let same : ((t p).i_dev == dev) && ((t p).i_num == num) ≡ true =
        let d = here.device in let m = here.number in ground arith in
      rw (find_inode, used, same) (ap held at)
  | inr other ↦
      let low : p < r = ground arith in
      let later = λ (q' : Option ℕ).
        find_inode-held n (suc p) q' dev num t r (omega arith) (omega arith) hold
          (λ j h h'. before j (omega arith) h') in
      elim (Bool-cases (ltb 0 (t p).i_cnt)) [
        | inr unused ↦ rw (find_inode, unused) (later _)
        | inl used ↦
            let differs = other_inode dev num (t p) (before p (omega arith) low) used in
            rw (find_inode, used, differs) (later q)
      ]
]

-- Entry `k` of the root directory, which has `n` entries in one sector, is the first with the name,
-- and has the number `num`.
pub record IsEntry (s : FileSystem) (n k num : ℕ) (name : List ℕ) : Type 0 where
  pub size : (s.inode_table s.root_inode).i_size ≡ n * dir_entry_size
  pub inside : k < n
  pub one_sector : n ≤ entries_per_sector
  pub here :
      same_name max_filename_len 0 name (first_sector s s.root_inode) (k * dir_entry_size + 4)
      ≡ true
  pub before :
      (i : ℕ)
      → i < k
      → same_name max_filename_len 0 name (first_sector s s.root_inode) (i * dir_entry_size + 4)
        ≡ false
  pub number : get32 (first_sector s s.root_inode) (k * dir_entry_size) ≡ num

search_file-entry :
    (s : FileSystem) (path name : List ℕ) (n k num : ℕ)
    → strip_name path ≡ some name
    → IsEntry s n k num name
    → (t : FileSystem) × (search_file path s ≡ some (num, t))
search_file-entry s path name n k num e h =
    let b = first_sector s s.root_inode in
    let buf = splice s.fsbuf 0 sector_size b in
    let inside = h.inside in
    let one = h.one_sector in
    let same : (i : ℕ) → i < sector_size → buf i ≡ b i = λ i lt. ground arith in
    let names : (i : ℕ)
        → i < entries_per_sector
        → same_name max_filename_len 0 name buf (i * dir_entry_size + 4)
          ≡ same_name max_filename_len 0 name b (i * dir_entry_size + 4) =
      λ i lt.
        same_name_same max_filename_len 0 name b buf (i * dir_entry_size + 4)
          (λ l below. same (i * dir_entry_size + 4 + l) (omega arith)) in
    let found =
      search_sector-hit entries_per_sector 0 0 k n name buf refl (omega arith) (omega arith)
        (omega arith) (λ i lt. names i (omega arith) ∙ h.before i lt)
        (names k (omega arith) ∙ h.here) in
    let number = get32-same buf b (k * dir_entry_size) (omega arith) same ∙ h.number in
    search_file-first s path name n num e h.size (omega arith) one (found ∙ ap hit number)

-- What opening a file needs: the process has a free file descriptor and the system a free entry; the
-- path names an entry of the root directory; its number is that of a regular file in the inode
-- table, first at `p`; and the flags ask for reading or writing and not for a new file.
pub record IsThere (s : FileSystem) (src pathname name_len flags fd d n k num p : ℕ) (name : List ℕ)
    : Type 0 where
  pub short : name_len < max_path
  pub file_free : FirstFree nr_files (s.filp src) fd
  pub desc_free : FirstFree nr_file_desc (λ i. (s.f_desc_table i).fd_inode) d
  pub path : strip_name (c_string name_len s.mem (linear s src pathname)) ≡ some name
  pub entry : IsEntry s n k num name
  pub some_number : num ≢ 0
  pub no_creat : has_creat flags ≡ false
  pub rdwr : has_rdwr flags ≡ true
  pub in_table : p < nr_inode
  pub in_use : IsHeld (s.inode_table s.root_inode).i_dev num (s.inode_table p)
  pub first : (j : ℕ) → j < p → ¬ IsHeld (s.inode_table s.root_inode).i_dev num (s.inode_table j)
  pub regular : (s.inode_table p).i_mode ≡ i_regular

-- `do_open` of a file in the root directory whose inode is in the inode table gives the first free
-- file descriptor of the process and sets up the first free entry of the descriptor table, at
-- position 0, with the file's inode, whose count it raises. `do_close` of that descriptor brings the
-- state back to the one before `do_open`, but for the buffer and the mode and position of the free
-- entry. The conditions are those of `IsThere`.
pub do_open-do_close :
    (open_device : ℕ → F (Unit {0})) (s : FileSystem)
    (src pathname name_len flags fd d n k num p : ℕ) (name : List ℕ)
    → IsThere s src pathname name_len flags fd d n k num p name
    → (buf : ℕ → ℕ) × (do_open open_device src pathname name_len flags s
        ≡ some (some fd, opened src flags fd d p buf s))
      × (do_close src fd (opened src flags fd d p buf s) ≡ some (tt, closed flags d buf s))
do_open-do_close open_device s src pathname name_len flags fd d n k num p name h =
    let f = h.file_free in
    let g = h.desc_free in
    let (t, found) =
      search_file-entry s (c_string name_len s.mem (linear s src pathname)) name n k num h.path
        h.entry in
    (
      t.fsbuf,
      do_open-opened open_device s t src pathname name_len flags fd d num p name (record {
        short = h.short;
        file_free =
            find_free-some nr_files 0 (s.filp src) fd (omega arith) f.inside f.free
              (λ j low lt. f.before j lt);
        desc_free =
            find_free-some nr_file_desc 0 (λ i. (s.f_desc_table i).fd_inode) d (omega arith)
              g.inside g.free (λ j low lt. g.before j lt);
        path = h.path;
        found = found;
        some_number = h.some_number;
        no_creat = h.no_creat;
        rdwr = h.rdwr;
        in_table =
            find_inode-held nr_inode 0 none _ num s.inode_table p (omega arith) h.in_table h.in_use
              (λ j low lt. h.first j lt);
        regular = h.regular;
      }),
      do_close-closed s src flags fd d p t.fsbuf f.free,
    )
