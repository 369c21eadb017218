-- ===== src/Sepia/Filter/Channels.antt =====
-- What `filter_c` makes of each pixel.
use low_level_programming.Base.{
  ℕ, ◌+◌, ◌*◌, ◌≤◌, ◌≡◌, refl, sym, ap, ◌∙◌, Option, some, List, [], ◌∷◌, ◌++◌, map, arith, length,
  get_elem?, length-append, append_assoc, get_elem?-append, set-append,
}
use low_level_programming.Base.Words.{mul_size, mul_size-eq}
use low_level_programming.Image
use low_level_programming.Image.{Pixel, Malloc, init_image, accessible}
use low_level_programming.Image.Rotation.{Shows, Gives, Small}
use low_level_programming.Image.Symmetry.{copy_image_lem}
use low_level_programming.Sepia.Bitmap
use low_level_programming.Sepia.Bitmap.{Picture, copy_image}
use low_level_programming.Sepia.Float.{Float}
use low_level_programming.Sepia.Filter.{sat, channel, sepia, filter_loop, filter_c}

-- The two projects copy an image in the same way.
copy_image-eq : (mem : Malloc) (img : Picture) → copy_image mem img ≡ Image.copy_image mem img
unfolding copy_image Image.copy_image Bitmap.init_image init_image
copy_image-eq mem img = refl

-- A channel never exceeds a byte.
channel-le : (float : Float) (kr kg kb : ℕ) (p : Pixel) → channel float kr kg kb p ≤ 255
unfolding channel sat
channel-le float kr kg kb p = ground arith

module _ (float : Float) where
  -- The loop changes the pixels from its index on.
  filter_loop-map :
      (xs ys : List Pixel)
      → filter_loop float (length ys) (length xs) (xs ++ ys) ≡ some (xs ++ map (sepia float) ys)
  unfolding filter_loop
  filter_loop-map xs [] = refl
  filter_loop-map xs (y ∷ ys) =
      let next : length xs + 1 ≡ length (xs ++ sepia float y ∷ []) =
        sym (length-append xs (sepia float y ∷ [])) in
      rw (get_elem?-append xs y ys, set-append xs y ys (sepia float y), next)
        (filter_loop-map (xs ++ sepia float y ∷ []) ys
          ∙ ap some (append_assoc xs (sepia float y ∷ []) (map (sepia float) ys)))

  module _ (mem : Malloc) (img : Picture) (px : List Pixel) (stored : img.pixels ≡ some px)
      (size : length px ≡ img.height * img.width) (small : Small img.width img.height)
      (gives : Gives mem (img.height * img.width)) where
    pixel_at : ℕ → ℕ → Option Pixel
    pixel_at i j = get_elem? px (i * img.width + j)

    img-Shows : Shows img img.width img.height pixel_at
    unfolding pixel_at
    img-Shows = record {
      px = px;
      stored = stored;
      width = refl;
      height = refl;
      size = size;
      at = λ i j p q. refl;
    }

    pub copied : copy_image mem img ≡ some img
    copied =
        copy_image-eq mem img
        ∙ copy_image_lem mem img.width img.height small gives img pixel_at img-Shows

    pub filter_c-map :
        filter_c float mem img ≡ some (record img { pixels = some (map (sepia float) px) })
    unfolding filter_c
    filter_c-map =
        let n : mul_size img.height img.width ≡ length px =
          mul_size-eq img.height img.width (omega (arith, small.area)) ∙ sym size in
        rw (copied, stored, n, filter_loop-map [] px) refl
