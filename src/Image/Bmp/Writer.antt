-- ===== src/Image/Bmp/Writer.antt =====
-- `to_bmp`: the file that it writes, and where it fails.
use low_level_programming.Base.{
  ℕ, zero, suc, ◌+◌, ◌-◌, ◌*◌, ◌≤◌, ◌<◌, ◌≡◌, refl, sym, ap, ap₂, ◌∙◌, true, List, [], ◌∷◌, ◌++◌,
  arith, if◌then◌else◌, leb, length, take, drop, drop-drop, length-take, length-drop, append_assoc,
  append_nil,
}
use low_level_programming.Base.Words.{size_mod, mul_size, mul_size-eq}
use low_level_programming.Image.{Pixel}
use low_level_programming.Image.Bmp.{
  Output, output, Written, write_ok, out_of_range, fwrite_item, pixel_bytes, zeros, zero_padding,
  write_rows,
}

-- The rows of an image in a file: the bytes of each row, and its padding.
abbrev pub rows_bytes : (width padding rows : ℕ) → List Pixel → List ℕ
rows_bytes width padding zero px = []
rows_bytes width padding (suc rows) px =
    pixel_bytes (take width px) ++ (zeros padding ++ rows_bytes width padding rows (drop width px))

pub length-pixel_bytes : (ps : List Pixel) → length (pixel_bytes ps) ≡ 3 * length ps
length-pixel_bytes [] = refl
length-pixel_bytes (p ∷ ps) = omega (arith, length-pixel_bytes ps)

pub length-zeros : (n : ℕ) → length (zeros n) ≡ n
length-zeros zero = refl
length-zeros (suc n) = ap suc (length-zeros n)

pub fwrite_item-ok :
    (bs : List ℕ) (out : Output) (then' : Output → Written)
    → 0 < length bs
    → length bs ≤ out.room
    → fwrite_item bs out then' ≡ then' (output (out.written ++ bs) (out.room - length bs))
fwrite_item-ok [] out then' pos fits = absurd (omega arith)
fwrite_item-ok (b ∷ bs) out then' pos fits =
    let e : leb (length (b ∷ bs)) out.room ≡ true = ground arith in rw e refl

take-zero_padding : (n : ℕ) → n ≤ 3 → take n zero_padding ≡ zeros n
take-zero_padding zero h = refl
take-zero_padding (suc zero) h = refl
take-zero_padding (suc (suc zero)) h = refl
take-zero_padding (suc (suc (suc zero))) h = refl
take-zero_padding (suc (suc (suc (suc n)))) h = absurd (omega arith)

row_end : (i left width n : ℕ) → (i + suc left) * width ≤ n → i * width + width ≤ n
row_end i left width n h = grind arith

row_next : (i width : ℕ) → (i + 1) * width ≡ i * width + width
row_next i width = omega arith

module _ (px : List Pixel) (width padding : ℕ) (wide : 0 < width)
    (small : length px < size_mod) where
  -- What follows a row.
  abbrev pad : (left i : ℕ) → Output → Written
  pad left i out =
      if leb padding (length zero_padding)
      then fwrite_item (take padding zero_padding) out (write_rows px width padding left (i + 1))
      else out_of_range

  -- A row that lies in the array is written.
  pub write_row :
      (left i : ℕ) (done : List ℕ) (room : ℕ)
      → (i + suc left) * width ≤ length px
      → 3 * width ≤ room
      → write_rows px width padding (suc left) i (output done room)
        ≡ pad left i
            (output (done ++ pixel_bytes (take width (drop (i * width) px))) (room - 3 * width))
  unfolding write_rows
  write_row left i done room fits space =
      let end = row_end i left width (length px) fits in
      let m : mul_size i width ≡ i * width = mul_size-eq i width (omega (arith, small)) in
      let inside : leb (i * width + width) (length px) ≡ true = ground arith in
      let size : length (pixel_bytes (take width (drop (i * width) px))) ≡ 3 * width =
        length-pixel_bytes (take width (drop (i * width) px))
        ∙ ap (λ n. 3 * n)
            (length-take width (drop (i * width) px) (omega (arith, length-drop (i * width) px))) in
      rw (m, inside)
        (fwrite_item-ok (pixel_bytes (take width (drop (i * width) px))) (output done room)
            (pad left i) (omega (arith, size, wide)) (omega (arith, size))
          ∙ rw size refl)

  -- The loop writes the rows that are left, where there is room for them and the padding lies in
  -- its array.
  pub write_rows-ok :
      (left i : ℕ) (done : List ℕ) (room : ℕ)
      → 0 < padding
      → padding ≤ 3
      → (i + left) * width ≤ length px
      → left * (3 * width + padding) ≤ room
      → write_rows px width padding left i (output done room)
        ≡ write_ok (
            output
              (done ++ rows_bytes width padding left (drop (i * width) px))
              (room - left * (3 * width + padding)))
  unfolding write_rows
  write_rows-ok zero i done room pos low fits space =
      ap₂ (λ a b. write_ok (output a b)) (sym (append_nil done)) (omega arith)
  write_rows-ok (suc left) i done room pos low fits space =
      let row = pixel_bytes (take width (drop (i * width) px)) in
      let more : (3 * width + padding) + left * (3 * width + padding) ≤ room = omega arith in
      let in_array : leb padding (length zero_padding) ≡ true = ground arith in
      let size : length (take padding zero_padding) ≡ padding =
        ap length (take-zero_padding padding low) ∙ length-zeros padding in
      let onward =
        write_rows-ok left (i + 1) ((done ++ row) ++ take padding zero_padding)
          (room - 3 * width - length (take padding zero_padding)) pos low (omega arith)
          (omega (arith, size)) in
      write_row left i done room fits (omega arith)
      ∙ rw in_array (
          fwrite_item-ok (take padding zero_padding) (output (done ++ row) (room - 3 * width))
            (write_rows px width padding left (i + 1)) (omega (arith, size)) (omega (arith, size)))
      ∙ onward
      ∙ ap₂ (λ a b. write_ok (output a b))
          (rw (row_next i width, ← drop-drop width (i * width) px, take-zero_padding padding low)
            (append_assoc (done ++ row) (zeros padding) _ ∙ append_assoc done row _))
          (omega (arith, size))
