-- ===== src/Kernel/User/Api.antt =====
-- kernel/api.c: the calls that a program makes of the tasks. Each is given what the program does
-- with the result.
use mini_operate_system.Prelude.{ℕ, ℤ, List, ◌==◌, length, if◌then◌else◌}
use mini_operate_system.Kernel.Process.{proc}
use mini_operate_system.Kernel.User.{
  Program, write, read, fault, reset_msg, send_recv, both_function,
}

-- include/message.h.
abbrev pub get_ticks_type : ℕ
get_ticks_type = 0

abbrev pub dev_open_type : ℕ
dev_open_type = 1

abbrev pub syscall_ret_type : ℕ
syscall_ret_type = 6

abbrev pub open_type : ℕ
open_type = 7

abbrev pub close_type : ℕ
close_type = 8

abbrev pub read_type : ℕ
read_type = 9

abbrev pub write_type : ℕ
write_type = 10

abbrev pub unlink_type : ℕ
unlink_type = 11

abbrev pub task_sys_nr : ℕ
task_sys_nr = 4

abbrev pub task_hd_nr : ℕ
task_hd_nr = 5

abbrev pub task_fs_nr : ℕ
task_fs_nr = 6

unfoldable pub get_ticks : {A : Type 0} → (ℤ → Program A) → Program A
get_ticks k = reset_msg (
    write (λ m. record m { type = get_ticks_type })
      (send_recv both_function (proc task_sys_nr) (read (λ m. k m.retval))))

unfoldable pub get_hd_info : {A : Type 0} → (ℤ → Program A) → Program A
get_hd_info k = reset_msg (
    write (λ m. record m { type = dev_open_type })
      (send_recv both_function (proc task_hd_nr) (read (λ m. k m.retval))))

-- `open`; at the address `pathname` lies the string `text`.
unfoldable pub open_file : {A : Type 0} → ℕ → List ℕ → ℕ → (ℤ → Program A) → Program A
open_file pathname text flags k =
    write
      (λ m. record m {
        type = open_type;
        pathname = pathname;
        flags = flags;
        name_len = length text;
      })
      (send_recv both_function (proc task_fs_nr)
        (read (λ m. if m.type == syscall_ret_type then k m.fd else fault)))

-- `close`.
unfoldable pub close_file : {A : Type 0} → ℤ → Program A → Program A
close_file fd k =
    write (λ m. record m { type = close_type; fd = fd })
      (send_recv both_function (proc task_fs_nr) k)

unfoldable pub file_read : {A : Type 0} → ℤ → ℕ → ℤ → (ℤ → Program A) → Program A
file_read fd buf count k =
    write (λ m. record m { type = read_type; fd = fd; buf = buf; cnt = count })
      (send_recv both_function (proc task_fs_nr) (read (λ m. k m.cnt)))

unfoldable pub file_write : {A : Type 0} → ℤ → ℕ → ℤ → (ℤ → Program A) → Program A
file_write fd buf count k =
    write (λ m. record m { type = write_type; fd = fd; buf = buf; cnt = count })
      (send_recv both_function (proc task_fs_nr) (read (λ m. k m.cnt)))

unfoldable pub unlink : {A : Type 0} → ℕ → List ℕ → (ℤ → Program A) → Program A
unlink pathname text k =
    write (λ m. record m { type = unlink_type; pathname = pathname; name_len = length text })
      (send_recv both_function (proc task_fs_nr) (read (λ m. k m.retval)))
