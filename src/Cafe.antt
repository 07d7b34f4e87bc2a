-- ===== src/Cafe.antt =====
-- The cafe simulation, concurrency/1.c: its shared state, the helpers, the threads of baristas and
-- customers, and one second of the main thread.
pub mod Claims
pub mod Defs
pub mod Names
pub mod Arrivals
pub mod Links
pub mod Threads
pub mod Baristas
pub mod Main
pub mod Machine
mod Tests
