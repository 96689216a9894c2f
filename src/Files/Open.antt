-- ===== src/Files/Open.antt =====
-- `do_open` and `do_close` of fs/fs.c.
pub mod Close
pub mod Existing
mod Examples
use mini_operate_system.Prelude.{
  ℕ, zero, suc, ◌+◌, ◌*◌, ◌/◌, ◌%◌, ◌^◌, Bool, true, false, ◌==◌, ltb, negate, Option, none, some,
  List, [], ◌∷◌, update,
}
use mini_operate_system.Files.Disk.{
  linear, Inode, FileDesc, F, ◌>>=◌, ◌>>◌, pure, fail, assert, get, i_regular,
}
use mini_operate_system.Files.Inodes.{get_inode, put_inode}
use mini_operate_system.Files.Format.{i_directory, i_char_special, major, minor, dev_char_tty}
use mini_operate_system.Files.Path.{strip_path, search_file, create_file}
use mini_operate_system.Files.Unlink.{max_path}

abbrev pub nr_files : ℕ
nr_files = 10

abbrev pub nr_file_desc : ℕ
nr_file_desc = 256

-- The C string in the `n` bytes from address `a` on: the bytes before the first 0.
unfoldable pub c_string : ℕ → (ℕ → ℕ) → ℕ → List ℕ
c_string zero m a = []
c_string (suc n) m a = elim (m a == 0) [ true ↦ [] | false ↦ m a ∷ c_string n m (suc a) ]

-- The path name of a request: `name_len` bytes of the caller's memory, and a 0.
unfoldable pub read_path : ℕ → ℕ → ℕ → F (List ℕ)
read_path src pathname name_len = do
  assert (ltb name_len max_path)
  s ← get
  pure (c_string name_len s.mem (linear s src pathname))

-- The first of the `n` indices from `i` on with a null pointer.
unfoldable pub find_free : ℕ → ℕ → (ℕ → Option ℕ) → Option ℕ
find_free zero i f = none
find_free (suc n) i f = elim (f i) [ none ↦ some i | some _ ↦ find_free n (suc i) f ]

-- `pin->i_mode & I_TYPE_MASK`, the mask being 0x170000.
unfoldable pub type_of_mode : ℕ → ℕ
type_of_mode mode = mode / 2 ^ 16 % 2 ^ 3 * 2 ^ 16 + mode / 2 ^ 20 % 2 * 2 ^ 20

-- `flags & O_CREAT` and `flags & O_RDWR`.
abbrev pub has_creat : ℕ → Bool
has_creat flags = flags % 2 == 1

abbrev pub has_rdwr : ℕ → Bool
has_rdwr flags = negate (flags / 2 % 4 == 0)

-- The inode that `do_open` opens; `none` is the null pointer or -1.
unfoldable pub open_inode : List ℕ → ℕ → ℕ → F (Option ℕ)
open_inode path flags inode_nr = elim (has_creat flags) [
  | true ↦ elim (inode_nr == 0) [ true ↦ create_file path | false ↦ pure none ]
  | false ↦ (do
    assert (has_rdwr flags)
    s ← get
    elim (strip_path s.root_inode (some path)) [
      | none ↦ pure none
      | some (name, dir_inode) ↦ get_inode (s.inode_table dir_inode).i_dev inode_nr
    ])
]

-- The check of the opened inode. `open_device` is the request DEV_OPEN to the driver of a character
-- device.
unfoldable pub check_inode : (ℕ → F (Unit {0})) → Inode → F (Unit {0})
check_inode open_device p = elim (type_of_mode p.i_mode == i_char_special) [
  | true ↦ (do
    assert (major p.i_start_sector == dev_char_tty)
    open_device (minor p.i_start_sector))
  | false ↦ elim (type_of_mode p.i_mode == i_directory) [
    | true ↦ assert (p.i_num == 1)
    | false ↦ assert (p.i_mode == i_regular)
  ]
]

-- `pcaller->filp[fd] = &f_desc_table[i]` and the descriptor's fields.
abbrev pub set_desc : ℕ → ℕ → ℕ → FileDesc → F (Unit {0})
set_desc src fd i d s = some (
  tt,
  record s {
    filp = update s.filp src (update (s.filp src) fd (some i));
    f_desc_table = update s.f_desc_table i d;
  },
)

-- `do_open` for process `src`: the file descriptor, or `none` for -1.
unfoldable pub do_open : (ℕ → F (Unit {0})) → ℕ → ℕ → ℕ → ℕ → F (Option ℕ)
do_open open_device src pathname name_len flags = do
  path ← read_path src pathname name_len
  s ← get
  elim (find_free nr_files 0 (s.filp src)) [
    | none ↦ fail
    | some fd ↦ elim (find_free nr_file_desc 0 (λ i. (s.f_desc_table i).fd_inode)) [
      | none ↦ fail
      | some i ↦ (do
        inode_nr ← search_file path
        pin ← open_inode path flags inode_nr
        elim pin [
          | none ↦ pure none
          | some p ↦ (do
            set_desc src fd i (record { fd_mode = flags; fd_pos = 0; fd_inode = some p })
            s ← get
            check_inode open_device (s.inode_table p)
            pure (some fd))
        ])
    ]
  ]

-- `do_close`; a file descriptor that is not open makes the task use a null pointer.
unfoldable pub do_close : ℕ → ℕ → F (Unit {0})
do_close src fd = do
  s ← get
  elim (s.filp src fd) [
    | none ↦ fail
    | some i ↦ elim (s.f_desc_table i).fd_inode [
      | none ↦ fail
      | some p ↦ (do
        put_inode p
        (λ s. some (
          tt,
          record s {
            f_desc_table = update s.f_desc_table i (record (s.f_desc_table i) { fd_inode = none });
            filp = update s.filp src (update (s.filp src) fd none);
          },
        )))
    ]
  ]
