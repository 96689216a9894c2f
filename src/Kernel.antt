-- ===== src/Kernel.antt =====
-- kernel/ and lib/page.c: processes, the scheduler and message passing.
pub mod Protect
pub mod Process
pub mod Schedule
pub mod Start
pub mod System
pub mod Ipc
pub mod SystemCalls
pub mod User
mod Examples
