-- ===== src/Sepia.antt =====
-- The sepia filter, `Sepia Filter C, ASM`.
pub mod Bitmap
pub mod Float
pub mod Simd
pub mod Filter
pub mod Program
mod Tests
