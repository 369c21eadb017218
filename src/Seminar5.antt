-- ===== src/Seminar5.antt =====
-- The programs of `seminar5`.
pub mod Ast
pub mod GenericList
mod Tests
