-- ===== src/Sepia/Float.antt =====
-- What the two filters use of single-precision floats, a parameter.
use low_level_programming.Base.{ℕ}

-- `milli n` is the constant `n / 1000`; `to_uint64` is the conversion of C, and `to_uint32` the
-- instruction `cvtps2dq`, whose result is read as a number of 32 bits.
pub record Float : Type 1 where
  pub Value : Type 0
  pub of_byte : ℕ → Value
  pub milli : ℕ → Value
  pub add : Value → Value → Value
  pub mul : Value → Value → Value
  pub to_uint64 : Value → ℕ
  pub to_uint32 : Value → ℕ
