-- ===== src/Files/Open/Close.antt =====
-- `do_open` of fs/fs.c on a file that exists, and `do_close` after it.
use mini_operate_system.Prelude.{
  ℕ, ◌+◌, ◌-◌, ◌<◌, ◌≡◌, ◌≢◌, refl, sym, ap, fun_ext, ◌∙◌, inl, inr, arith, true, false, ◌==◌, ltb,
  Option, none, some, List, update, Bool-cases, if◌then◌else◌,
}
use mini_operate_system.Files.Disk.{
  linear, nr_inode, Inode, FileSystem, FileDesc, F, ◌>>=◌, ◌>>◌, i_regular,
}
use mini_operate_system.Files.Inodes.{held, find_inode, get_inode, put_inode}
use mini_operate_system.Files.Inodes.Counts.{put_back}
use mini_operate_system.Files.Format.{i_char_special, i_directory}
use mini_operate_system.Files.Path.{strip_path, strip_name, strip_name, search_file}
use mini_operate_system.Files.Path.Lookup.{search_file-buffer}
use mini_operate_system.Files.Unlink.{max_path}
use mini_operate_system.Files.Open.{
  c_string, read_path, find_free, nr_files, nr_file_desc, has_creat, has_rdwr, type_of_mode,
  open_inode, check_inode, do_open, do_close,
}

-- The searches of `do_open` find the file and its inode in the table, the process and the file system have a free place,
-- and the flags ask for no new file.
pub record CanOpen (s t : FileSystem) (src pathname name_len flags fd d num p : ℕ) (name : List ℕ)
    : Type 0 where
  pub short : name_len < max_path
  pub file_free : find_free nr_files 0 (s.filp src) ≡ some fd
  pub desc_free : find_free nr_file_desc 0 (λ i. (s.f_desc_table i).fd_inode) ≡ some d
  pub path : strip_name (c_string name_len s.mem (linear s src pathname)) ≡ some name
  pub found : search_file (c_string name_len s.mem (linear s src pathname)) s ≡ some (num, t)
  pub some_number : num ≢ 0
  pub no_creat : has_creat flags ≡ false
  pub rdwr : has_rdwr flags ≡ true
  pub in_table :
      find_inode nr_inode 0 none (s.inode_table s.root_inode).i_dev num s.inode_table ≡ held p
  pub regular : (s.inode_table p).i_mode ≡ i_regular

check_inode-regular :
    (open_device : ℕ → F (Unit {0})) (q : Inode) (s : FileSystem)
    → q.i_mode ≡ i_regular
    → check_inode open_device q s ≡ some (tt, s)
unfolding type_of_mode check_inode
check_inode-regular open_device q s e =
    let no_device : type_of_mode q.i_mode == i_char_special ≡ false =
      ap (λ m. type_of_mode m == i_char_special) e in
    let no_directory : type_of_mode q.i_mode == i_directory ≡ false =
      ap (λ m. type_of_mode m == i_directory) e in
    let regular : q.i_mode == i_regular ≡ true = ap (λ m. m == i_regular) e in
    rw (check_inode, no_device, no_directory, regular) refl

-- The state after `do_open`.
abbrev pub opened : ℕ → ℕ → ℕ → ℕ → ℕ → (ℕ → ℕ) → FileSystem → FileSystem
opened src flags fd d p buf s = record s {
  fsbuf = buf;
  inode_table =
      update s.inode_table p (record (s.inode_table p) { i_cnt = (s.inode_table p).i_cnt + 1 });
  filp = update s.filp src (update (s.filp src) fd (some d));
  f_desc_table =
      update s.f_desc_table d (record { fd_mode = flags; fd_pos = 0; fd_inode = some p });
}

search_file-same :
    (path : List ℕ) (num : ℕ) (s t : FileSystem)
    → search_file path s ≡ some (num, t)
    → search_file path s ≡ some (num, record s { fsbuf = t.fsbuf })
search_file-same path num s t found =
    let (r, b, e) = search_file-buffer path s in
    let both : ◌≡◌ {A = Option (ℕ × FileSystem)} (some (r, record s { fsbuf = b }))
        (some (num, t)) =
      sym e ∙ found in
    let after : record s { fsbuf = b } ≡ t = cc in
    let buf : b ≡ t.fsbuf = ap (λ (x : FileSystem). x.fsbuf) after in
    found
    ∙ ap (λ (x : FileSystem). some (num, x)) (sym after)
    ∙ ap (λ (x : ℕ → ℕ). some (num, record s { fsbuf = x })) buf

pub do_open-opened :
    (open_device : ℕ → F (Unit {0})) (s t : FileSystem) (src pathname name_len flags fd d num p : ℕ)
    (name : List ℕ)
    → CanOpen s t src pathname name_len flags fd d num p name
    → do_open open_device src pathname name_len flags s
      ≡ some (some fd, opened src flags fd d p t.fsbuf s)
unfolding read_path get_inode open_inode do_open strip_path
do_open-opened open_device s t src pathname name_len flags fd d num p name o =
    let short : ltb name_len max_path ≡ true = let h = o.short in ground arith in
    let nonzero : num == 0 ≡ false = let h = o.some_number in ground arith in
    let self : p == p ≡ true = ground arith in
    let found =
      search_file-same (c_string name_len s.mem (linear s src pathname)) num s t o.found in
    let q = record (s.inode_table p) { i_cnt = (s.inode_table p).i_cnt + 1 } in
    rw
      (
        do_open,
        ◌>>=◌,
        ◌>>◌,
        short,
        o.file_free,
        o.desc_free,
        found,
        o.no_creat,
        o.rdwr,
        o.path,
        nonzero,
        if◌then◌else◌,
        o.in_table,
        self,
        check_inode-regular open_device q (opened src flags fd d p t.fsbuf s) o.regular,
      )
      refl

-- The state after `do_close` of such a file.
abbrev pub closed : ℕ → ℕ → (ℕ → ℕ) → FileSystem → FileSystem
closed flags d buf s = record s {
  fsbuf = buf;
  f_desc_table = update s.f_desc_table d (record { fd_mode = flags; fd_pos = 0; fd_inode = none });
}

filp-back :
    (f : ℕ → ℕ → Option ℕ) (src fd d : ℕ)
    → f src fd ≡ none
    → let g = update f src (update (f src) fd (some d)) in update g src (update (g src) fd none) ≡ f
filp-back f src fd d free = fun_ext (λ q. fun_ext (λ j. elim (Bool-cases (src == q)) [
  | inr ne ↦ rw (ne) refl
  | inl own ↦
      let at : src ≡ q = ground arith in
      let self : src == src ≡ true = ground arith in
      elim (Bool-cases (fd == j)) [
        | inr ne ↦ rw (own, self, ne) (ap (λ (x : ℕ). f x j) at)
        | inl same ↦
            let there : fd ≡ j = ground arith in
            rw (own, self, same) (sym free ∙ ap (λ (x : ℕ). f x fd) at ∙ ap (f q) there)
      ]
]))

desc-back :
    (t : ℕ → FileDesc) (d flags p : ℕ)
    → let g = update t d (record { fd_mode = flags; fd_pos = 0; fd_inode = some p }) in
      update g d (record (g d) { fd_inode = none })
      ≡ update t d (record { fd_mode = flags; fd_pos = 0; fd_inode = none })
desc-back t d flags p = fun_ext (λ j. elim (Bool-cases (d == j)) [
  | inr ne ↦ rw (ne) refl
  | inl own ↦ let self : d == d ≡ true = ground arith in rw (own, self) refl
])

-- `do_close` of an open file lowers the count of its inode and frees the descriptor and the place in
-- the table of the process.
do_close-open :
    (s : FileSystem) (src fd d p : ℕ)
    → s.filp src fd ≡ some d
    → (s.f_desc_table d).fd_inode ≡ some p
    → 0 < (s.inode_table p).i_cnt
    → do_close src fd s
      ≡ some (
        tt,
        record s {
          inode_table =
              update s.inode_table p
                (record (s.inode_table p) { i_cnt = (s.inode_table p).i_cnt - 1 });
          f_desc_table = update s.f_desc_table d (record (s.f_desc_table d) { fd_inode = none });
          filp = update s.filp src (update (s.filp src) fd none);
        },
      )
unfolding do_close put_inode
do_close-open s src fd d p file inode count =
    let used : ltb 0 (s.inode_table p).i_cnt ≡ true = ground arith in
    rw (do_close, ◌>>=◌, ◌>>◌, file, inode, put_inode, used, ◌>>=◌, ◌>>◌) refl

pub do_close-closed :
    (s : FileSystem) (src flags fd d p : ℕ) (buf : ℕ → ℕ)
    → s.filp src fd ≡ none
    → do_close src fd (opened src flags fd d p buf s) ≡ some (tt, closed flags d buf s)
do_close-closed s src flags fd d p buf free =
    let self_src : src == src ≡ true = ground arith in
    let self_fd : fd == fd ≡ true = ground arith in
    let self_d : d == d ≡ true = ground arith in
    let self : p == p ≡ true = ground arith in
    let o = opened src flags fd d p buf s in
    do_close-open o src fd d p (rw (self_src, self_fd) refl) (rw (self_d) refl)
      (rw (self) (ground arith))
    ∙ ap
        (λ (i : ℕ → Inode). some (
          tt,
          record s {
            fsbuf = buf;
            inode_table = i;
            f_desc_table = update o.f_desc_table d (record (o.f_desc_table d) { fd_inode = none });
            filp = update o.filp src (update (o.filp src) fd none);
          },
        ))
        (fun_ext (put_back s.inode_table p))
    ∙ ap
        (λ (f : ℕ → FileDesc). some (
          tt,
          record s {
            fsbuf = buf;
            f_desc_table = f;
            filp = update o.filp src (update (o.filp src) fd none);
          },
        ))
        (desc-back s.f_desc_table d flags p)
    ∙ ap
        (λ (f : ℕ → ℕ → Option ℕ). some (
          tt,
          record s {
            fsbuf = buf;
            f_desc_table =
                update s.f_desc_table d (record { fd_mode = flags; fd_pos = 0; fd_inode = none });
            filp = f;
          },
        ))
        (filp-back s.filp src fd d free)
