-- ===== src/Image/Bmp/Reader.antt =====
-- The loops of `from_bmp`: on the rows that `to_bmp` writes, and on any bytes.
use low_level_programming.Base.{
  ℕ, zero, suc, ◌+◌, ◌*◌, ◌≤◌, ◌<◌, ◌≡◌, refl, sym, ap, ap₂, ◌∙◌, true, List, [], ◌∷◌, ◌++◌, arith,
  ltb, length, set, take, drop, length-take, length-drop, length-append, append_assoc, append_nil,
  drop-append, take_append_drop,
}
use low_level_programming.Base.Words.{size_mod, add_size, add_size-eq}
use low_level_programming.Image.{Pixel}
use low_level_programming.Image.Bmp.{read_to, read_row, read_rows, pixel_bytes, zeros}
use low_level_programming.Image.Bmp.Writer.{rows_bytes, length-zeros}

set-append :
    (xs : List Pixel) (y : Pixel) (ys : List Pixel) (p : Pixel)
    → set (xs ++ y ∷ ys) (length xs) p ≡ (xs ++ p ∷ []) ++ ys
set-append [] y ys p = refl
set-append (x ∷ xs) y ys p = ap (λ l. x ∷ l) (set-append xs y ys p)

-- A row of pixels is read behind what was read before.
pub read_row-read_to :
    (ps xs ys : List Pixel) (rest : List ℕ)
    → length ps ≤ length ys
    → length (xs ++ ys) < size_mod
    → read_row (length ps) (length xs) (xs ++ ys) (pixel_bytes ps ++ rest)
      ≡ read_to (length xs + length ps) ((xs ++ ps) ++ drop (length ps) ys) rest
unfolding read_row
read_row-read_to [] xs ys rest fits small =
    ap₂ (λ k l. read_to k l rest) (omega arith) (ap (λ l. l ++ ys) (sym (append_nil xs)))
read_row-read_to (p ∷ ps) xs [] rest fits small = absurd (omega arith)
read_row-read_to (p ∷ ps) xs (y ∷ ys) rest fits small =
    let size = length-append xs (y ∷ ys) in
    let inside : ltb (length xs) (length (xs ++ y ∷ ys)) ≡ true = ground (arith, size) in
    let next : add_size (length xs) 1 ≡ length (xs ++ p ∷ []) =
      add_size-eq (length xs) 1 (omega (arith, size, small)) ∙ sym (length-append xs (p ∷ [])) in
    let grown = length-append xs (p ∷ []) in
    let whole = length-append (xs ++ p ∷ []) ys in
    rw (inside, set-append xs y ys p, next)
      (read_row-read_to ps (xs ++ p ∷ []) ys rest (omega arith)
          (omega (arith, grown, whole, size, small))
        ∙ ap₂ (λ k l. read_to k (l ++ drop (length ps) ys) rest) (omega (arith, grown))
            (append_assoc xs (p ∷ []) ps))

module _ (width padding : ℕ) where
  -- The rows of an image are read behind what was read before.
  pub read_rows-read_to :
      (rows : ℕ) (zs xs ys : List Pixel) (rest : List ℕ)
      → length zs ≡ rows * width
      → length ys ≡ rows * width
      → length (xs ++ ys) < size_mod
      → read_rows width padding rows
          (length xs)
          (xs ++ ys)
          (rows_bytes width padding rows zs ++ rest)
        ≡ read_to (length xs + rows * width) (xs ++ zs) rest
  unfolding read_rows
  read_rows-read_to zero [] xs [] rest full room small =
      ap (λ k. read_to k (xs ++ []) rest) (omega arith)
  read_rows-read_to zero (z ∷ zs) xs ys rest full room small = absurd (omega arith)
  read_rows-read_to zero [] xs (y ∷ ys) rest full room small = absurd (omega arith)
  read_rows-read_to (suc rows) zs xs ys rest full room small =
      let ps = take width zs in
      let onward = rows_bytes width padding rows (drop width zs) ++ rest in
      let size : length ps ≡ width = length-take width zs (omega arith) in
      let behind : length (drop width ys) ≡ rows * width = length-drop width ys ∙ omega arith in
      let one : read_row width (length xs) (xs ++ ys) (pixel_bytes ps ++ (zeros padding ++ onward))
          ≡ read_to (length (xs ++ ps)) ((xs ++ ps) ++ drop width ys) (zeros padding ++ onward) =
        ap (λ n. read_row n (length xs) (xs ++ ys) (pixel_bytes ps ++ (zeros padding ++ onward)))
          (sym size)
        ∙ read_row-read_to ps xs ys (zeros padding ++ onward) (omega (arith, size)) small
        ∙ ap₂ (λ k n. read_to k ((xs ++ ps) ++ drop n ys) (zeros padding ++ onward))
            (sym (length-append xs ps)) size in
      let skip : drop padding (zeros padding ++ onward) ≡ onward =
        ap (λ n. drop n (zeros padding ++ onward)) (sym (length-zeros padding))
        ∙ drop-append (zeros padding) onward in
      let shape : (pixel_bytes ps
              ++ (zeros padding ++ rows_bytes width padding rows (drop width zs)))
            ++ rest
          ≡ pixel_bytes ps ++ (zeros padding ++ onward) =
        append_assoc (pixel_bytes ps) _ rest
        ∙ ap (λ l. pixel_bytes ps ++ l) (append_assoc (zeros padding) _ rest) in
      rw (shape, one, skip, read_rows)
        (read_rows-read_to rows (drop width zs) (xs ++ ps) (drop width ys) rest
            (length-drop width zs ∙ omega arith) behind
            (omega (
              arith,
              small,
              size,
              length-append (xs ++ ps) (drop width ys),
              length-append xs ps,
              length-append xs ys,
            ))
          ∙ ap₂ (λ k l. read_to k l rest) (omega (arith, size, length-append xs ps))
              (append_assoc xs ps (drop width zs) ∙ ap (λ l. xs ++ l) (take_append_drop width zs)))
