-- ===== src/Image/Bmp/Bounds.antt =====
-- `from_bmp` on any bytes: it stays in its array.
use low_level_programming.Base.{
  ℕ, zero, suc, ◌+◌, ◌*◌, ◌^◌, ◌≤◌, ◌<◌, ◌≡◌, ◌≢◌, refl, ap, ◌∙◌, true, Option, none, some, List,
  [], ◌∷◌, arith, ltb, leb, ◌==◌, inl, inr, Option-cases, Bool-cases, length, set, take, drop,
  length-set,
}
use low_level_programming.Base.Words.{size_mod, mul_size, mul_size-eq, add_size, add_size-eq}
use low_level_programming.Image.{Pixel, Image, Malloc, pixel_size}
use low_level_programming.Image.Bmp.{
  BmpHeader, header_of_bytes, bi_header_size, bmp_type, calc_padding, finish, ReadStatus, read_ok,
  invalid_bits, invalid_header, invalid_signature, not_enough_memory, ReadBmp, read_bmp, image_of,
  Input, input, from_bmp, read_image, Pixels, cut_short, read_to, read_row, read_rows,
}

-- A loop that ends, at the pixel `k` if the bytes suffice, with all `n` pixels of the array.
data InRange (n k : ℕ) (r : Pixels) : Type 0 where
  short : (buf : List Pixel) → length buf ≡ n → r ≡ cut_short buf → InRange n k r
  reached :
      (buf : List Pixel) (rest : List ℕ) → length buf ≡ n → r ≡ read_to k buf rest → InRange n k r

read_row-InRange :
    (left k : ℕ) (buf : List Pixel) (rest : List ℕ) (n : ℕ)
    → length buf ≡ n
    → k + left ≤ n
    → n < size_mod
    → InRange n (k + left) (read_row left k buf rest)
unfolding read_row
read_row-InRange zero k buf rest n size fits small =
    reached buf rest size (ap (λ m. read_to m buf rest) (omega arith))
read_row-InRange (suc left) k buf [] n size fits small = short buf size refl
read_row-InRange (suc left) k buf (b ∷ []) n size fits small = short buf size refl
read_row-InRange (suc left) k buf (b ∷ g ∷ []) n size fits small = short buf size refl
read_row-InRange (suc left) k buf (b ∷ g ∷ r ∷ rest) n size fits small =
    let p : Pixel = record { b = b; g = g; r = r } in
    let inside : ltb k (length buf) ≡ true = ground arith in
    let next : add_size k 1 ≡ k + 1 = add_size-eq k 1 (omega arith) in
    let step : k + 1 + left ≡ k + suc left = omega arith in
    rw (inside, next, ← step)
      (read_row-InRange left (k + 1) (set buf k p) rest n (length-set buf k p ∙ size) (omega arith)
        small)

module _ (width padding : ℕ) where
  read_rows-InRange :
      (left k : ℕ) (buf : List Pixel) (rest : List ℕ) (n : ℕ)
      → length buf ≡ n
      → k + left * width ≤ n
      → n < size_mod
      → InRange n (k + left * width) (read_rows width padding left k buf rest)
  unfolding read_rows
  read_rows-InRange zero k buf rest n size fits small =
      reached buf rest size (ap (λ m. read_to m buf rest) (omega arith))
  read_rows-InRange (suc left) k buf rest n size fits small =
      elim (read_row-InRange width k buf rest n size (omega arith) small) [
        | short buf' size' e ↦ short buf' size' (rw (e, read_rows) refl)
        | reached buf' rest' size' e ↦
            let step : k + width + left * width ≡ k + suc left * width = omega arith in
            rw (e, read_rows, ← step)
              (read_rows-InRange left (k + width) buf' (drop padding rest') n size' (omega arith)
                small)
      ]

-- How `from_bmp` ends without a fault: with an error, or with an image that has these sides and an
-- array of as many pixels.
pub data Loaded (w h : ℕ) (r : Option ReadBmp) : Type 0 where
  refused : (s : ReadStatus) (i : Option Image) → s ≢ read_ok → r ≡ read_bmp s i → Loaded w h r
  whole :
      (px : List Pixel)
      → length px ≡ h * w
      → r ≡ read_bmp read_ok (some (image_of w h (some px)))
      → Loaded w h r

finish-Loaded : (w h k : ℕ) (r : Pixels) → InRange (h * w) k r → Loaded w h (finish w h r)
finish-Loaded w h k r (short buf size e) =
    refused invalid_bits (some (image_of w h (some buf))) (λ ok. cc ok) (ap (finish w h) e)
finish-Loaded w h k r (reached buf rest size e) = whole buf size (ap (finish w h) e)

-- The header at the position.
abbrev pub header_in : Input → BmpHeader
header_in in' = header_of_bytes (take bi_header_size in'.rest)

module _ (mem : Malloc) (has : mem.has_image ≡ true)
    (honest : (n : ℕ) (buf : List Pixel)
      → mem.pixels (pixel_size * n) ≡ some buf
      → length buf ≡ n) where
  read_image-Loaded :
      (header : BmpHeader) (in' : Input)
      → header.bi_width < 2 ^ 32
      → pixel_size * (header.bi_height * header.bi_width) < size_mod
      → Loaded header.bi_width header.bi_height (read_image mem header in')
  read_image-Loaded header in' narrow small =
      let row : mul_size pixel_size header.bi_width ≡ pixel_size * header.bi_width =
        mul_size-eq pixel_size header.bi_width (omega arith) in
      let area : pixel_size * header.bi_width * header.bi_height
          ≡ pixel_size * (header.bi_height * header.bi_width) =
        omega arith in
      let bytes : mul_size (mul_size pixel_size header.bi_width) header.bi_height
          ≡ pixel_size * (header.bi_height * header.bi_width) =
        rw row (
          mul_size-eq (pixel_size * header.bi_width) header.bi_height (omega (arith, area))
          ∙ area) in
      elim (Bool-cases (header.bf_type == bmp_type)) [
        | inr bad ↦ rw bad (refused invalid_signature none (λ e. cc e) refl)
        | inl good ↦
            elim (Option-cases (mem.pixels (pixel_size * (header.bi_height * header.bi_width)))) [
              | inl full ↦
                  rw (good, bytes, full)
                    (refused not_enough_memory
                      (some (image_of header.bi_width header.bi_height none)) (λ e. cc e) refl)
              | inr (buf, served) ↦
                  rw (good, bytes, served)
                    (finish-Loaded header.bi_width header.bi_height _ _ (
                      read_rows-InRange header.bi_width (calc_padding header.bi_width)
                        header.bi_height 0 buf (drop header.b_off_bits in'.file)
                        (header.bi_height * header.bi_width)
                        (honest (header.bi_height * header.bi_width) buf served) (omega arith)
                        (omega arith)))
            ]
      ]

  -- On any bytes, `from_bmp` ends without a fault, where `malloc` serves the `struct image`, gives
  -- arrays as long as asked for, and the size of the image in the header does not wrap: with an
  -- error, or with an image that has the header's width and height and that many pixels.
  pub from_bmp-Loaded :
      (in' : Input)
      → (header_in in').bi_width < 2 ^ 32
      → pixel_size * ((header_in in').bi_height * (header_in in').bi_width) < size_mod
      → Loaded (header_in in').bi_width (header_in in').bi_height (from_bmp mem in')
  unfolding from_bmp
  from_bmp-Loaded in' narrow small = elim (Bool-cases (leb bi_header_size (length in'.rest))) [
    | inr brief ↦ rw (has, brief) (refused invalid_header none (λ e. cc e) refl)
    | inl long ↦
        rw (has, long)
          (read_image-Loaded (header_in in') (input in'.file (drop bi_header_size in'.rest)) narrow
            small)
  ]
