-- ===== src/Mem.antt =====
-- The memory of the kernel: initial-xv6/src/kernel/kalloc.c, vm.c and the page faults of trap.c.
pub mod Pages
pub mod Kalloc
pub mod Pte
pub mod Walk
pub mod Map
pub mod Copy
pub mod Cow
mod Tests
