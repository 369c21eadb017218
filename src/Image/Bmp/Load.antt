-- ===== src/Image/Bmp/Load.antt =====
-- `from_bmp`: it reads what `to_bmp` has written, and it stays in its array on any bytes.
use low_level_programming.Base.{
  ℕ, ◌+◌, ◌*◌, ◌%◌, ◌^◌, ◌≤◌, ◌<◌, ◌≡◌, ◌≢◌, refl, sym, ap, ap₂, ◌∙◌, true, Option, none, some,
  List, [], arith, leb, length, take, drop, append_nil,
}
use low_level_programming.Base.Words.{size_mod, mul_size, mul_size-eq}
use low_level_programming.Image.{Pixel, Image, Malloc, pixel_size}
use low_level_programming.Image.Rotation.{Gives}
use low_level_programming.Image.Bmp.{
  BmpHeader, header_of_bytes, create_bmp_header, bi_header_size, bmp_type, calc_padding, finish,
  ReadBmp, read_bmp, read_ok, input, from_bmp, read_rows, read_to, read_image, output, Written,
  write_ok, to_bmp,
}
use low_level_programming.Image.Bmp.Header.{header-width, header-height}
use low_level_programming.Image.Bmp.Writer.{rows_bytes}
use low_level_programming.Image.Bmp.Save.{bmp_file, calc_padding-cases, to_bmp-write_ok}
use low_level_programming.Image.Bmp.Reader.{read_rows-read_to}

-- `from_bmp` on the file that was written, if it was.
abbrev pub reopen : Malloc → Written → Option ReadBmp
reopen mem (write_ok out) = from_bmp mem (input out.written out.written)
reopen mem w = none

read_image-finish :
    (mem : Malloc) (header : BmpHeader) (w h : ℕ) (buf : List Pixel) (file rest body : List ℕ)
    → header.bf_type ≡ bmp_type
    → header.bi_width ≡ w
    → header.bi_height ≡ h
    → mem.pixels (mul_size (mul_size pixel_size w) h) ≡ some buf
    → drop header.b_off_bits file ≡ body
    → read_image mem header (input file rest)
      ≡ finish w h (read_rows w (calc_padding w) h 0 buf body)
read_image-finish mem header w h buf file rest body type width height served seek =
    rw (type, width, height, served, width, height, seek) refl

module _ (mem : Malloc) (img : Image) (px : List Pixel) (stored : img.pixels ≡ some px)
    (size : length px ≡ img.height * img.width) (small : 3 * length px < size_mod)
    (narrow : img.width < 2 ^ 32) (low : img.height < 2 ^ 32) (odd : img.width % 4 ≢ 0)
    (gives : Gives mem (img.height * img.width)) where
  rows_read :
      read_rows img.width
        (calc_padding img.width)
        img.height
        0
        gives.buf
        (rows_bytes img.width (img.width % 4) img.height px)
      ≡ read_to (img.height * img.width) px []
  rows_read =
      ap₂ (λ p l. read_rows img.width p img.height 0 gives.buf l)
        ((calc_padding-cases img.width (omega (arith, narrow))).0 odd)
        (sym (append_nil (rows_bytes img.width (img.width % 4) img.height px)))
      ∙ read_rows-read_to img.width (img.width % 4) img.height px [] gives.buf [] size gives.room
          (omega (arith, gives.room, size, small))
      ∙ ap (λ k. read_to k px []) (omega arith)

  bytes :
      mul_size (mul_size pixel_size img.width) img.height ≡ pixel_size * (img.height * img.width)
  bytes =
      let row : mul_size pixel_size img.width ≡ pixel_size * img.width =
        mul_size-eq pixel_size img.width (omega (arith, narrow)) in
      let area : pixel_size * img.width * img.height ≡ pixel_size * (img.height * img.width) =
        omega arith in
      rw row
        (mul_size-eq (pixel_size * img.width) img.height (omega (arith, area, small, size)) ∙ area)

  pub bmp_file-read_ok :
      from_bmp mem (input (bmp_file img px) (bmp_file img px)) ≡ read_bmp read_ok (some img)
  unfolding from_bmp
  bmp_file-read_ok =
      let rest = rows_bytes img.width (img.width % 4) img.height px in
      let width : (header_of_bytes (take bi_header_size (bmp_file img px))).bi_width ≡ img.width =
        header-width (create_bmp_header img) rest (omega arith) ∙ omega (arith, narrow) in
      let height : (header_of_bytes (take bi_header_size (bmp_file img px))).bi_height
          ≡ img.height =
        header-height (create_bmp_header img) rest (omega arith) ∙ omega (arith, low) in
      let long : leb bi_header_size (length (bmp_file img px)) ≡ true = ground arith in
      rw (gives.has, long)
        (read_image-finish mem (header_of_bytes (take bi_header_size (bmp_file img px))) img.width
            img.height gives.buf (bmp_file img px) (drop bi_header_size (bmp_file img px)) rest refl
            width height (ap mem.pixels bytes ∙ gives.pixels) refl
          ∙ ap (finish img.width img.height) rows_read
          ∙ rw (← stored) refl)

  -- What `to_bmp` writes of an image whose width 4 does not divide and whose sides have 32 bits,
  -- `from_bmp` reads as an equal image, where `malloc` serves it and the device has room.
  pub reopen-to_bmp :
      (room : ℕ)
      → bi_header_size + img.height * (3 * img.width + img.width % 4) ≤ room
      → reopen mem (to_bmp (output [] room) img) ≡ read_bmp read_ok (some img)
  reopen-to_bmp room space =
      ap (reopen mem) (
        to_bmp-write_ok img px stored size small (omega (arith, narrow)) (output [] room) odd space)
      ∙ bmp_file-read_ok
