-- ===== src/Proc.antt =====
-- The process table of the kernel: initial-xv6/src/kernel/proc.h and proc.c, and the priority
-- system call of sysproc.c. Each operation works on a table; a child module holds each group.
pub mod Defs
pub mod Table
pub mod Priority
pub mod Scheduler
pub mod Exit
pub mod Create
pub mod Wait
pub mod Machine
pub mod Life
mod Tests
pub mod SetPriority
pub mod Sleep
pub mod SleepLock
pub mod Clock
