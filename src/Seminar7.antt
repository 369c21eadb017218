-- ===== src/Seminar7.antt =====
-- The programs of `seminar7`.
pub mod TailRec
pub mod StackSmash
mod Tests
