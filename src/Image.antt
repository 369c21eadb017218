-- ===== src/Image.antt =====
-- Images of `Image Rotation C/solution`: `include/image.h` and `src/rotation.c`.
pub mod Loop
pub mod Rotation
pub mod Symmetry
pub mod Bmp
pub mod Command
pub mod Program
pub mod Tester
mod Tests
use low_level_programming.Base.{
  ◌>>=◌, ℕ, zero, suc, ◌+◌, ◌*◌, ◌%◌, Bool, true, false, Option, none, some, List, [], ltb,
  if◌then◌else◌, length, get_elem?, set,
}
use low_level_programming.Base.Words.{add_size, sub_size, mul_size}

-- `struct pixel`
pub record Pixel : Type 0 where
  pub b : ℕ
  pub g : ℕ
  pub r : ℕ

-- `struct image`; `data` is `none` for a null pointer.
pub record Image : Type 0 where
  pub width : ℕ
  pub height : ℕ
  pub pixels : Option (List Pixel)

abbrev pub pixel_size : ℕ
pixel_size = 3

-- What `malloc` returns: whether a `struct image` is to be had, and for a number of bytes the
-- uninitialised pixels that they hold, if any.
pub record Malloc : Type 0 where
  pub has_image : Bool
  pub pixels : ℕ → Option (List Pixel)

-- `none` is a fault: an access through a null pointer or outside of an array.
module _ (mem : Malloc) where
  unfoldable pub init_image : ℕ → ℕ → Bool → Option Image
  init_image width height reverse_rotation =
      if mem.has_image
      then some (record {
        width = if reverse_rotation then height else width;
        height = if reverse_rotation then width else height;
        pixels = mem.pixels (mul_size (mul_size pixel_size width) height);
      })
      else none

-- The body of the macro `ROATATE`: `result->data[i * result->width + j] = source->data[k]`.
unfoldable pub put_pixel :
    (source : List Pixel) (width i j k : ℕ) (data' : List Pixel) → Option (List Pixel)
put_pixel source width i j k data' = do
  p ← get_elem? source k
  if ltb (add_size (mul_size i width) j) (length data')
      then some (set data' (add_size (mul_size i width) j) p)
      else none

-- The loops of `ROATATE`, whose `source_pix` is `source->data[index i j]`, by the rounds left.
module _ (source : List Pixel) (width : ℕ) (index : ℕ → ℕ → ℕ) where
  unfoldable pub row_loop : (left i j : ℕ) → List Pixel → Option (List Pixel)
  row_loop zero i j buf = some buf
  row_loop (suc left) i j buf = do
    buf' ← put_pixel source width i j (index i j) buf
    row_loop left i (j + 1) buf'

  unfoldable pub rows_loop : (left i : ℕ) → List Pixel → Option (List Pixel)
  rows_loop zero i buf = some buf
  rows_loop (suc left) i buf = do buf' ← row_loop width i 0 buf; rows_loop left (i + 1) buf'

-- What can be read or written through the pointer: nothing, if it is null.
abbrev pub accessible : Option (List Pixel) → List Pixel
accessible none = []
accessible (some px) = px

abbrev pub write_back : Option (List Pixel) → List Pixel → Option (List Pixel)
write_back none out = none
write_back (some px) out = some out

-- The macro `ROATATE` on two images.
unfoldable pub rotate : Image → (ℕ → ℕ → ℕ) → Image → Option Image
rotate source index result = do
  out ←
      rows_loop (accessible source.pixels) result.width index result.height 0
        (accessible result.pixels)
  some (record result { pixels = write_back result.pixels out })

module _ (mem : Malloc) (source : Image) where
  open source use {width, height}

  abbrev pub index_90 : ℕ → ℕ → ℕ
  index_90 i j = sub_size (sub_size (mul_size width (add_size j 1)) 1) i

  abbrev pub index_90_reverse : ℕ → ℕ → ℕ
  index_90_reverse i j = add_size (mul_size width (sub_size (sub_size height 1) j)) i

  abbrev pub index_180 : ℕ → ℕ → ℕ
  index_180 i j =
      add_size (mul_size width (sub_size (sub_size height 1) i)) (sub_size (sub_size width 1) j)

  unfoldable pub rotate_90 : Option Image
  rotate_90 = do result ← init_image mem width height true; rotate source index_90 result

  unfoldable pub rotate_90_reverse : Option Image
  rotate_90_reverse = do
    result ← init_image mem width height true
    rotate source index_90_reverse result

  unfoldable pub rotate_180 : Option Image
  rotate_180 = do result ← init_image mem width height false; rotate source index_180 result

  unfoldable pub copy_image : Option Image
  copy_image = do
    result ← init_image mem width height false
    rotate source (λ i j. add_size (mul_size i result.width) j) result
