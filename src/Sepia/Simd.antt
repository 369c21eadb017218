-- ===== src/Sepia/Simd.antt =====
-- `src/asm/filter.asm` of the sepia filter: the filter on every pixel by vector instructions. The
-- registers that it overwrites and does not restore (`rbx` and `r12` to `r15`) are not modelled.
pub mod Overrun
use low_level_programming.Base.{
  ℕ, ◌^◌, Option, none, some, List, [], ◌∷◌, leb, min, ◌>>=◌, if◌then◌else◌,
}
use low_level_programming.Base.Words.{sub_size, mul_size}
use low_level_programming.Image.{Pixel}
use low_level_programming.Sepia.Float.{Float}

abbrev pub pixel_size : ℕ
pixel_size = 3

-- The sign bit of a register.
abbrev pub sign : ℕ
sign = 2 ^ 63

module _ (float : Float) where
  open float use {of_byte, milli, add, mul, to_uint32}

  -- A lane of the vectors: the sum of the products, converted and cut to the largest byte.
  unfoldable pub lane : (kb kg kr : ℕ) → Pixel → ℕ
  lane kb kg kr p = min 255 (
      to_uint32 (
        add (add (mul (of_byte p.b) (milli kb)) (mul (of_byte p.g) (milli kg)))
          (mul (of_byte p.r) (milli kr))))

  unfoldable pub simd_pixel : Pixel → Pixel
  simd_pixel p = record { b = lane 131 534 272 p; g = lane 168 686 349 p; r = lane 189 769 393 p }

  -- The loop from a pixel on, where `r15` counts the bytes left. `none` is an access outside of the
  -- array. The loop ends where the count, as a signed number, is below 0.
  unfoldable pub simd_loop : ℕ → List Pixel → Option (List Pixel)
  simd_loop r15 [] = none
  simd_loop r15 (p ∷ px) =
      let left = sub_size r15 pixel_size in
      let rest = simd_loop left px in
      if leb sign left then some (simd_pixel p ∷ px) else do done ← rest; some (simd_pixel p ∷ done)

  unfoldable pub simd_filter : (height width : ℕ) → List Pixel → Option (List Pixel)
  simd_filter height width px = simd_loop (mul_size (mul_size height width) pixel_size) px
