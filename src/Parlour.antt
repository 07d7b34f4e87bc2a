-- ===== src/Parlour.antt =====
-- The ice cream parlour simulation, concurrency/2.c: its shared state, the checks of orders and
-- stock, the threads of machines and customers, and the main thread.
pub mod Defs
pub mod Checks
pub mod Effects
pub mod Threads
pub mod Main
pub mod Machine
mod Tests
