-- ===== src/Sepia/Simd/Overrun.antt =====
-- What the loop in assembly makes of an array, and of what stands behind it.
use low_level_programming.Base.{
  ℕ, suc, ◌*◌, ◌<◌, ◌≡◌, refl, sym, ◌∙◌, false, none, some, List, [], ◌∷◌, ◌++◌, map, arith, length,
  leb,
}
use low_level_programming.Base.Words.{sub_size, mul_size, mul_size-eq}
use low_level_programming.Image.{Pixel}
use low_level_programming.Sepia.Float.{Float}
use low_level_programming.Sepia.Simd.{pixel_size, sign, simd_pixel, simd_loop, simd_filter}

module _ (float : Float) where
  -- A round with pixels left.
  counts : (n : ℕ) → 3 * suc n < sign → leb sign (sub_size (3 * suc n) 3) ≡ false
  counts n few = ground arith

  next : (n : ℕ) → 3 * suc n < sign → sub_size (3 * suc n) 3 ≡ 3 * n
  next n few = omega arith

  simd_loop-alone :
      (px : List Pixel) → 3 * length px < sign → simd_loop float (3 * length px) px ≡ none
  unfolding simd_loop
  simd_loop-alone [] few = refl
  simd_loop-alone (p ∷ px) few =
      rw (counts (length px) few, next (length px) few, simd_loop-alone px (omega arith)) refl

  simd_loop-behind :
      (px : List Pixel) (q : Pixel) (rest : List Pixel)
      → 3 * length px < sign
      → simd_loop float (3 * length px) (px ++ q ∷ rest)
        ≡ some (map (simd_pixel float) px ++ simd_pixel float q ∷ rest)
  unfolding simd_loop
  simd_loop-behind [] q rest few = refl
  simd_loop-behind (p ∷ px) q rest few =
      rw (counts (length px) few, next (length px) few, simd_loop-behind px q rest (omega arith))
        refl

  -- Where the height and the width are those of the array, and its bytes are fewer than 2 ^ 63, the
  -- loop in assembly runs one round too many: it changes every pixel of the array as the vector
  -- instructions do, and then the three bytes behind the array in the same way, and leaves what
  -- follows them. On the array alone that is an access out of range.
  pub simd_filter-overrun :
      (height width : ℕ) (px : List Pixel)
      → length px ≡ height * width
      → 3 * length px < sign
      → (simd_filter float height width px ≡ none)
        × ((q : Pixel) (rest : List Pixel)
            → simd_filter float height width (px ++ q ∷ rest)
              ≡ some (map (simd_pixel float) px ++ simd_pixel float q ∷ rest))
  unfolding simd_filter
  simd_filter-overrun height width px size few =
      let area : mul_size height width ≡ length px =
        mul_size-eq height width (omega (arith, size)) ∙ sym size in
      let bytes : mul_size (length px) pixel_size ≡ 3 * length px =
        mul_size-eq (length px) pixel_size (omega arith) ∙ omega arith in
      rw (area, bytes) (simd_loop-alone px few, λ q rest. simd_loop-behind px q rest few)
