-- ===== src/Files/Transfer/Read.antt =====
-- What a read of `do_rdwt` of fs/fs.c does inside a file.
use mini_operate_system.Prelude.{ℕ, ◌+◌, ◌≤◌, ◌<◌, ◌≡◌, ◌⊎◌}
use mini_operate_system.Files.Disk.{linear, FileSystem}
use mini_operate_system.Files.Transfer.Once.{file_byte}

-- The effect of a read.
pub record IsRead (s s' : FileSystem) (src d pin buf len : ℕ) : Type 0 where
  pub bytes :
      (k : ℕ)
      → k < len
      → s'.mem (linear s src buf + k)
        ≡ file_byte s.disk (s.inode_table pin) ((s.f_desc_table d).fd_pos + k)
  pub memory : (a : ℕ) → (a < linear s src buf) ⊎ (linear s src buf + len ≤ a) → s'.mem a ≡ s.mem a
  pub disk : s'.disk ≡ s.disk
  pub inodes : s'.inode_table ≡ s.inode_table
  pub pos : (s'.f_desc_table d).fd_pos ≡ (s.f_desc_table d).fd_pos + len
