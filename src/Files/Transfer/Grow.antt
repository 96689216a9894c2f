-- ===== src/Files/Transfer/Grow.antt =====
-- A write of `do_rdwt` of fs/fs.c that makes the file longer.
use mini_operate_system.Prelude.{ℕ, ◌+◌, ◌*◌, ◌/◌, ◌≤◌, ◌<◌, ◌≡◌, some}
use mini_operate_system.Files.Disk.{linear, FileSystem, Inode, SuperBlock, sector_size}
use mini_operate_system.Files.Inodes.{get_super_block, inode_sector, inode_offset, load_inode}
use mini_operate_system.Files.Inodes.Roundtrip.{Fits, SameFile}
use mini_operate_system.Files.Transfer.{driver_sectors}
use mini_operate_system.Files.Transfer.Once.{file_byte}

-- The effect of a write that makes the file longer: the bytes of the file, its size, also in the
-- inode on the disk, and the position.
pub record IsLonger (s s' : FileSystem) (src d pin buf len : ℕ) (sb : SuperBlock) : Type 0 where
  pub bytes :
      (k : ℕ)
      → k < len
      → file_byte s'.disk (s.inode_table pin) ((s.f_desc_table d).fd_pos + k)
        ≡ s.mem (linear s src buf + k)
  pub before :
      (k : ℕ)
      → k < (s.f_desc_table d).fd_pos
      → file_byte s'.disk (s.inode_table pin) k ≡ file_byte s.disk (s.inode_table pin) k
  pub size :
      s'.inode_table pin ≡ record (s.inode_table pin) { i_size = (s.f_desc_table d).fd_pos + len }
  pub stored :
      let p = s.inode_table pin in
      (q : Inode)
      → SameFile
          (load_inode (s'.disk p.i_dev (inode_sector sb p.i_num)) (inode_offset p.i_num) q)
          (s'.inode_table pin)
  pub pos : (s'.f_desc_table d).fd_pos ≡ (s.f_desc_table d).fd_pos + len

-- What such a write needs: the new end fits the file's sectors, and the sectors touched one request
-- to the driver, and the inode has a
-- number, fields of 32 bits, a super block, and its place before the sectors of the file.
pub record CanGrow (s : FileSystem) (d pin len : ℕ) (sb : SuperBlock) : Type 0 where
  pub longer : (s.inode_table pin).i_size < (s.f_desc_table d).fd_pos + len
  pub room : (s.f_desc_table d).fd_pos + len ≤ (s.inode_table pin).i_nr_sectors * sector_size
  pub chunk :
      ((s.f_desc_table d).fd_pos + len) / sector_size + 1
      ≤ (s.f_desc_table d).fd_pos / sector_size + driver_sectors
  pub numbered : 0 < (s.inode_table pin).i_num
  pub found : get_super_block (s.inode_table pin).i_dev s ≡ some (sb, s)
  pub fits : Fits (record (s.inode_table pin) { i_size = (s.f_desc_table d).fd_pos + len })
  pub ahead : inode_sector sb (s.inode_table pin).i_num < (s.inode_table pin).i_start_sector
