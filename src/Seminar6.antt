-- ===== src/Seminar6.antt =====
-- The two heaps of blocks of `seminar6`.
pub mod Heap0
pub mod Heap1
mod Tests
