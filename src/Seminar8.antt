-- ===== src/Seminar8.antt =====
-- The concurrent programs of `seminar8`.
pub mod Reordering
pub mod Mutex
pub mod SharedArray
pub mod Pipes
pub mod Fork
mod Tests
