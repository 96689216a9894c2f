-- ===== src/Files/Requests.antt =====
-- One round of the loop of `task_fs` of fs/fs.c.
use mini_operate_system.Prelude.{ℕ, ℤ, pos, negsuc, Bool, true, false, Option, none, some}
use mini_operate_system.Files.Disk.{F, ◌>>=◌, ◌>>◌, pure}
use mini_operate_system.Files.Open.{do_open, do_close, read_path}
use mini_operate_system.Files.Transfer.{do_rdwt}
use mini_operate_system.Files.Unlink.{do_unlink}

-- The requests of processes, by the fields of the message that they use.
pub data Request : Type 0 where
  open_file : ℕ → ℕ → ℕ → Request
  close : ℕ → Request
  read : ℕ → ℕ → ℕ → Request
  write : ℕ → ℕ → ℕ → Request
  unlink : ℕ → ℕ → Request
  other : Request

-- The drivers behind character devices.
pub record Drivers : Type 0 where
  pub open_device : ℕ → F (Unit {0})
  pub transfer_device : Bool → ℕ → ℕ → ℕ → ℕ → F ℕ

abbrev pub reply : Option ℕ → ℤ
reply none = negsuc 0
reply (some n) = pos n

-- The answer to a request of process `src`: FD, RETVAL or CNT. A message of another type is answered
-- with its fields as they came.
unfoldable pub handle : Drivers → ℕ → Request → F (Option ℤ)
handle d src (open_file pathname name_len flags) = do
  fd ← do_open d.open_device src pathname name_len flags
  pure (some (reply fd))
handle d src (close fd) = do do_close src fd; pure (some (pos 0))
handle d src (read fd buf len) = do
  n ← do_rdwt d.transfer_device false src fd buf len
  pure (some (reply n))
handle d src (write fd buf len) = do
  n ← do_rdwt d.transfer_device true src fd buf len
  pure (some (reply n))
handle d src (unlink pathname name_len) = do
  path ← read_path src pathname name_len
  r ← do_unlink path
  pure (some (reply r))
handle d src other = pure none
