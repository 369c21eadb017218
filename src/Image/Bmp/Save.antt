-- ===== src/Image/Bmp/Save.antt =====
-- What `to_bmp` leaves in the file.
use low_level_programming.Base.{
  ℕ, zero, suc, ◌+◌, ◌-◌, ◌*◌, ◌%◌, ◌^◌, ◌≤◌, ◌<◌, ◌≡◌, ◌≢◌, refl, ap, ap₂, ◌∙◌, some, List, ◌++◌,
  arith, length, take, drop, length-take, length-drop, length-append, append_assoc,
}
use low_level_programming.Base.Words.{size_mod, mul_size, mul_size-eq, add_size-eq}
use low_level_programming.Image.{Pixel, Image}
use low_level_programming.Image.Bmp.{
  header_bytes, create_bmp_header, bi_header_size, calc_padding, Output, output, write_ok,
  out_of_range, pixel_bytes, zeros, write_rows, to_bmp,
}
use low_level_programming.Image.Bmp.Writer.{
  rows_bytes, length-pixel_bytes, length-zeros, fwrite_item-ok, write_row, write_rows-ok,
}

-- The padding of a row whose bytes do not wrap: a width that 4 divides has one of 4 bytes.
pub calc_padding-cases :
    (w : ℕ)
    → 3 * w < size_mod
    → (w % 4 ≢ 0 → calc_padding w ≡ w % 4) × (w % 4 ≡ 0 → calc_padding w ≡ 4)
calc_padding-cases w small =
    let m : mul_size w 3 ≡ w * 3 = mul_size-eq w 3 (omega (arith, small)) in
    rw m ((λ h. omega arith), (λ h. omega arith))

pub length-rows_bytes :
    (w padding rows : ℕ) (px : List Pixel)
    → length px ≡ rows * w
    → length (rows_bytes w padding rows px) ≡ rows * (3 * w + padding)
length-rows_bytes w padding zero px e = omega arith
length-rows_bytes w padding (suc rows) px e =
    let rest = length-rows_bytes w padding rows (drop w px) (length-drop w px ∙ omega arith) in
    let row : length (pixel_bytes (take w px)) ≡ 3 * w =
      length-pixel_bytes (take w px) ∙ ap (λ n. 3 * n) (length-take w px (omega arith)) in
    length-append (pixel_bytes (take w px)) _
    ∙ ap₂ ◌+◌ row (length-append (zeros padding) _ ∙ ap₂ ◌+◌ (length-zeros padding) rest)
    ∙ omega arith

-- The file of an image whose width 4 does not divide.
abbrev pub bmp_file : Image → List Pixel → List ℕ
bmp_file img px =
    header_bytes (create_bmp_header img) ++ rows_bytes img.width (img.width % 4) img.height px

module _ (img : Image) (px : List Pixel) (stored : img.pixels ≡ some px)
    (size : length px ≡ img.height * img.width) (small : 3 * length px < size_mod)
    (row_small : 3 * img.width + 3 < size_mod) (out : Output) where
  abbrev after_header : Output
  after_header =
      output (out.written ++ header_bytes (create_bmp_header img)) (out.room - bi_header_size)

  header_written :
      bi_header_size ≤ out.room
      → to_bmp out img ≡ write_rows px img.width (calc_padding img.width) img.height 0 after_header
  unfolding to_bmp
  header_written space = rw stored (
      fwrite_item-ok (header_bytes (create_bmp_header img)) out
        (write_rows px img.width (calc_padding img.width) img.height 0) (omega arith) space)

  -- The length of the file of an image whose width 4 does not divide stands in its header, where it
  -- has 32 bits.
  pub bmp_file-bfile_size :
      bi_header_size + img.height * (3 * img.width + img.width % 4) < 2 ^ 32
      → img.width % 4 ≢ 0
      → (create_bmp_header img).bfile_size ≡ length (bmp_file img px)
  bmp_file-bfile_size fits odd =
      let rows = length-rows_bytes img.width (img.width % 4) img.height px size in
      let pad = (calc_padding-cases img.width (omega (arith, row_small))).0 odd in
      let row : mul_size img.width 3 ≡ 3 * img.width =
        mul_size-eq img.width 3 (omega (arith, row_small)) ∙ omega arith in
      let all : img.height * (3 * img.width + img.width % 4)
          ≡ (3 * img.width + img.width % 4) * img.height =
        omega arith in
      rw
        (
          pad,
          row,
          add_size-eq (3 * img.width) (img.width % 4) (omega (arith, row_small)),
          mul_size-eq (3 * img.width + img.width % 4) img.height (omega arith),
          ← all,
          add_size-eq (img.height * (3 * img.width + img.width % 4)) bi_header_size (omega arith),
          rows,
        )
        (omega (arith, rows, fits))

  -- `to_bmp` of an image whose width 4 does not divide, on a device with room for it, writes the
  -- header and every row with its padding.
  pub to_bmp-write_ok :
      img.width % 4 ≢ 0
      → bi_header_size + img.height * (3 * img.width + img.width % 4) ≤ out.room
      → to_bmp out img
        ≡ write_ok (output (out.written ++ bmp_file img px) (out.room - length (bmp_file img px)))
  to_bmp-write_ok odd space =
      let e = (calc_padding-cases img.width (omega (arith, row_small))).0 odd in
      let rows = length-rows_bytes img.width (img.width % 4) img.height px size in
      let start : 0 * img.width ≡ 0 = omega arith in
      header_written (omega arith)
      ∙ ap (λ p. write_rows px img.width p img.height 0 after_header) e
      ∙ write_rows-ok px img.width (img.width % 4) (omega arith) (omega (arith, small)) img.height 0
          after_header.written after_header.room (omega arith) (omega arith) (omega (arith, size))
          (omega arith)
      ∙ ap₂ (λ a b. write_ok (output a b))
          (ap
              (λ n.
                after_header.written ++ rows_bytes img.width (img.width % 4) img.height (drop n px))
              start
            ∙ append_assoc out.written (header_bytes (create_bmp_header img)) _)
          (omega (arith, rows))

  -- `to_bmp` of an image with rows whose width 4 divides reads beyond the array `zero_padding`,
  -- unless the device is full before.
  pub to_bmp-out_of_range :
      img.width % 4 ≡ 0
      → 0 < img.width
      → 0 < img.height
      → bi_header_size + 3 * img.width ≤ out.room
      → to_bmp out img ≡ out_of_range
  to_bmp-out_of_range even wide tall space =
      let all : (0 + suc (img.height - 1)) * img.width ≡ img.height * img.width =
        ap (λ n. n * img.width) (omega arith) in
      let last : img.height ≡ suc (img.height - 1) = omega arith in
      let pad = (calc_padding-cases img.width (omega (arith, row_small))).1 even in
      header_written (omega arith)
      ∙ ap (λ n. write_rows px img.width (calc_padding img.width) n 0 after_header) last
      ∙ write_row px img.width (calc_padding img.width) wide (omega (arith, small)) (img.height - 1)
          0 _ _ (omega (arith, size, all)) (omega arith)
      ∙ rw pad refl
