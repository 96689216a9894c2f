-- ===== src/Lib.antt =====
-- A model of Mini_Operate_System, a small operating system for one processor in protected mode, and
-- proofs about it.
--
-- The program. The clock interrupt (kernel/clock.c) charges the current process and chooses the next
-- one. Processes talk by messages (kernel/ipc.c), through the system calls sendrec and sendint
-- (kernel/system_calls.c); a process that has to wait is blocked, and the scheduler chooses another.
-- `kernel_main` (kernel/main.c) sets up three processes and four tasks. The tasks serve the others:
-- the terminals' task (kernel/tty.c) turns the scan codes that the keyboard's interrupt has stored
-- (kernel/keyboard.c) into keys and prints them on three consoles that share the video memory
-- (kernel/console.c); the file system's task (fs/) keeps inodes, maps and one directory on a disk;
-- the disk's task (kernel/hd.c) moves sectors; the system's task (kernel/systask.c) tells the ticks.
-- Processes ask them by the calls of kernel/api.c.
--
-- The files.
-- - Prelude: Boolean tests, tables with one entry replaced, lists and signed integers over the
--   native numbers.
-- - Kernel/Protect: segment descriptors, `init_descriptor` of kernel/protect.c and
--   `ldt_proc_id2base` of lib/page.c. Kernel/Process: the process table of include/process.h.
--   Kernel/Protect/Gates: the interrupt table. Kernel/Start: `kernel_main` of kernel/main.c, which
--   sets up the process table; Start/Ready hands it to the scheduler and to message passing.
-- - Kernel/Schedule: `schedule` and `clock_handler`; Select and Tick prove what they choose, and
--   Fairness that every runnable process has its turn, with sums over the table in its child.
-- - Kernel/System: the state of the kernel, messages in memory, assertions, `block` and `unblock`.
--   A run of kernel code ends with a value, a halted machine, an endless loop or an access outside
--   the process table.
-- - Kernel/Ipc and Kernel/Ipc/Receive: `deadlock`, `msg_send` and `msg_receive`, each helper a part
--   of these functions. Ipc/Queue and Ipc/Mail give the abstract view: every process has a mailbox,
--   the list of the processes that wait to send to it. Ipc/Deadlock treats chains of waiting
--   processes; Ipc/Queued, Send and Sent the sender's side; Ipc/Taken, Fetch, Received and Waiting
--   the receiver's. Kernel/SystemCalls: `sys_sendrec` and `sys_sendint`; Delivery follows a message
--   through the system call, and Interrupts an interrupt to the task that waits for it.
-- - Kernel/User: programs of processes and the machine on which they take turns, with `send_recv`;
--   User/Api: kernel/api.c; User/Tasks: kernel/systask.c and lib/time.c; Turns, Asked, Ticks, Rounds
--   and Delay follow requests and their answers.
-- - Terminal/Ring: the two ring buffers; Ring/Queue has the queue that they implement.
--   Terminal/Console: the consoles; Console/Bounds and Console/Output keep them apart.
--   Terminal/Keyboard: `keyboard_read`, with the keys of include/keyboard.h and the table of
--   include/keymap.h in its children. Terminal/Input: kernel/tty.c, with its start and its steps.
--   Terminal/Printing: `sys_printx` and `sys_write` of kernel/system_calls.c, with Halting for the
--   screen of a halted machine.
-- - Files/Disk: sectors and bytes. Files/Inodes, Files/Maps, Files/Path: fs/open.c (Path/Entry,
--   Path/Enter and Path/Added treat the entries of a directory, Inodes/Sync one write of an inode,
--   Inodes/Reload an inode got again from the disk, Maps/Bits,
--   Maps/First and Maps/Restore taking an inode number and giving it back), and
--   `get_super_block` and `create_file` of fs/fs.c. Files/Unlink: fs/link.c. Files/Format: `mkfs`,
--   `read_super_block` and `init_fs`; Files/Open: `do_open` and `do_close`, with Close and Existing for what
--   they do together; Files/Transfer: `do_rdwt`, with Once for its loop, Inside, Read, Write,
--   Grown, Grow and Roundtrip for its effect; Files/Requests: the requests that `task_fs` serves.
--   All these are in fs/fs.c.
-- - HardDisk: kernel/hd.c; HardDisk/Registers: include/hd.h; HardDisk/Machine: the driver's state.
--   The ports, the clock and the interrupts are a parameter, `Hardware`; HardDisk/Command states
--   what a drive does with a command to read, HardDisk/Reading follows a read, HardDisk/Partitions
--   has the partition tables and the requests of `task_hd`.
-- - Text: lib/string.c and lib/vsprintf.c; Text/Memory has strings in memory, Text/Numbers the
--   digits of numbers, Text/Format formats.
-- - The modules named Examples apply the theorems to concrete states.
--
-- Conventions. A pointer into a table is an index, a null pointer is `none`. Flags are Booleans. A C
-- `int` that can be negative is a ℤ; the rest are natural numbers, with `% 2 ^ w` where the code
-- computes modulo a power of two. Loops run on fuel: `schedule` on two rounds, since a second round
-- finds a process or none ever does (Schedule/Select); the loops along waiting processes on one round
-- for each of the 7 entries of the process table, since the chains have no cycles (Ipc/Deadlock) and
-- the mailboxes no repetitions (Ipc/Mail); the scrolling loop on as many rounds as the console has
-- cells (Console/Output). The loop of a file transfer runs on one round for each sector and one more, and makes one
-- round where the driver serves the request (Transfer/Once), the one of `hd_rdwt` on one round for each sector (HardDisk/Reading), and the
-- loops over a string on more rounds than it has characters (Text/Memory). Waiting for the disk runs
-- on a given number of rounds, and so does `milli_delay`. Loops over a fixed range are structural recursion.
--
-- Not modelled: assembly (the loader, interrupt entry, context switch); the messages between the
-- file system's task and the disk's, so that a read or write of up to 255 sectors, which the driver's count holds,
-- succeeds there and a longer one has no result; a caller's buffer that overlaps the file system's own; the
-- test programs; the set-up of the interrupt controller, the timer and the keyboard; what is only printed. Writes to the disk are
-- a definition in HardDisk, without a description of what a drive does with them. Interrupts arrive
-- between operations, or where `get_byte_from_kbuf` waits for one. Messages do not overlap in memory,
-- and the mailbox theorems are about tables without pending interrupt messages.
pub mod Prelude
pub mod Kernel
pub mod Files
pub mod HardDisk
pub mod Text
pub mod Terminal
