-- ===== src/Sepia/Filter.antt =====
-- `src/filter/filter.c`: the filter on every pixel, and the call of the one in assembly.
pub mod Channels
use low_level_programming.Base.{
  ◌>>=◌, ℕ, zero, suc, ◌+◌, ◌*◌, Option, none, some, List, ltb, if◌then◌else◌, get_elem?, set,
}
use low_level_programming.Base.Words.{mul_size}
use low_level_programming.Image.{Pixel, Malloc, accessible, write_back}
use low_level_programming.Sepia.Bitmap.{Picture, copy_image}
use low_level_programming.Sepia.Float.{Float}
use low_level_programming.Sepia.Simd.{simd_filter}

unfoldable pub sat : ℕ → ℕ
sat pixel_value = if ltb 255 pixel_value then 255 else pixel_value

module _ (float : Float) where
  open float use {of_byte, milli, add, mul, to_uint64}

  -- The saturated sum of three products.
  unfoldable pub channel : (kr kg kb : ℕ) → Pixel → ℕ
  channel kr kg kb p = sat (
      to_uint64 (
        add (add (mul (of_byte p.r) (milli kr)) (mul (of_byte p.g) (milli kg)))
          (mul (of_byte p.b) (milli kb))))

  -- The new pixel, from the old values of all three channels.
  unfoldable pub sepia : Pixel → Pixel
  sepia p = record {
    b = channel 272 534 131 p;
    g = channel 349 686 168 p;
    r = channel 393 769 189 p;
  }

  -- The loop from `i` on, by the rounds left. `none` is an access outside of the array.
  unfoldable pub filter_loop : (left i : ℕ) → List Pixel → Option (List Pixel)
  filter_loop zero i px = some px
  filter_loop (suc left) i px = do p ← get_elem? px i; filter_loop left (i + 1) (set px i (sepia p))

  unfoldable pub filter_c : Malloc → Picture → Option Picture
  filter_c mem img = do
    out ← copy_image mem img
    px ← filter_loop (mul_size out.height out.width) 0 (accessible out.pixels)
    some (record out { pixels = write_back out.pixels px })

  unfoldable pub filter_asm : Malloc → Picture → Option Picture
  filter_asm mem img = do
    out ← copy_image mem img
    px ← simd_filter float out.height out.width (accessible out.pixels)
    some (record out { pixels = write_back out.pixels px })
