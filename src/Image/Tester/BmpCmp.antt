-- ===== src/Image/Tester/BmpCmp.antt =====
-- `bmp_cmp` on the files of two images.
use native.Mathlib.Decide.{ℕ_discrete}
use low_level_programming.Base.{
  ℕ, zero, suc, ◌*◌, ◌%◌, ◌^◌, ◌≤◌, ◌<◌, ◌≡◌, ◌≢◌, ◌⊎◌, refl, sym, ap, ap₂, ◌∙◌, true, inl, inr,
  Option, some, List, [], ◌∷◌, ◌++◌, arith, leb, ◌==◌, length, take, drop, drop-append,
  take_append_drop, length-take, length-drop,
}
use low_level_programming.Image.{Pixel, Image}
use low_level_programming.Image.Bmp.{
  bi_header_size, pixel_bytes, zeros, header_bytes, create_bmp_header,
}
use low_level_programming.Image.Bmp.Header.{header-width, header-height}
use low_level_programming.Image.Bmp.Writer.{rows_bytes, length-pixel_bytes, length-zeros}
use low_level_programming.Image.Bmp.Save.{bmp_file}
use low_level_programming.Image.Tester.{
  Header, header_of, read_header, BmpCompareStatus, bmp_cmp_equals, bmp_cmp_diff,
  bmp_cmp_dimensions_differ, get_padding, rows_cmp, bodies_cmp, bmp_cmp,
}
use low_level_programming.Image.Tester.FileCmp.{alike, unlike, file_cmp-Outcome}

pixel_bytes-inj : (p q : List Pixel) → pixel_bytes p ≡ pixel_bytes q → p ≡ q
pixel_bytes-inj [] [] e = refl
pixel_bytes-inj [] (y ∷ q) e = absurd (cc e)
pixel_bytes-inj (x ∷ p) [] e = absurd (cc e)
pixel_bytes-inj (x ∷ p) (y ∷ q) e =
    let head : x ≡ y = ground (arith, e) in ap₂ ◌∷◌ head (pixel_bytes-inj p q (cc e))

take-append : (xs ys : List ℕ) → take (length xs) (xs ++ ys) ≡ xs
take-append [] ys = refl
take-append (x ∷ xs) ys = ap (λ l. x ∷ l) (take-append xs ys)

-- The outcome on two arrays of pixels.
pub data Verdict (p q : List Pixel) (r : Option BmpCompareStatus) : Type 0 where
  same : p ≡ q → r ≡ some bmp_cmp_equals → Verdict p q r
  other : p ≢ q → r ≡ some bmp_cmp_diff → Verdict p q r

module _ (w : ℕ) (narrow : 3 * w < 2 ^ 32) where
  -- The bytes of the first row, and what stands behind it and its padding.
  row : List Pixel → List ℕ
  row p = pixel_bytes (take w p)

  length-row : (p : List Pixel) → w ≤ length p → w * 3 % 2 ^ 32 ≡ length (row p)
  unfolding row
  length-row p h = omega (arith, length-pixel_bytes (take w p), length-take w p h, narrow)

  take-row :
      (p : List Pixel) (l : List ℕ) → w ≤ length p → take (w * 3 % 2 ^ 32) (row p ++ l) ≡ row p
  take-row p l h = rw (length-row p h) (take-append (row p) l)

  drop-row : (p : List Pixel) (l : List ℕ) → w ≤ length p → drop (w * 3 % 2 ^ 32) (row p ++ l) ≡ l
  drop-row p l h = rw (length-row p h) (drop-append (row p) l)

  drop-padding : (l : List ℕ) → drop (get_padding w) (zeros (w % 4) ++ l) ≡ l
  drop-padding l =
      ap (λ n. drop n (zeros (w % 4) ++ l)) (sym (length-zeros (w % 4)))
      ∙ drop-append (zeros (w % 4)) l

  rows_cmp-Verdict :
      (left : ℕ) (p q : List Pixel)
      → length p ≡ left * w
      → length q ≡ left * w
      → Verdict p q (rows_cmp left w (rows_bytes w (w % 4) left p) (rows_bytes w (w % 4) left q))
  unfolding rows_cmp row
  rows_cmp-Verdict zero [] [] a b = same refl refl
  rows_cmp-Verdict zero (x ∷ p) q a b = absurd (omega arith)
  rows_cmp-Verdict zero [] (y ∷ q) a b = absurd (omega arith)
  rows_cmp-Verdict (suc left) p q a b =
      let wp : w ≤ length p = omega arith in
      let wq : w ≤ length q = omega arith in
      let bp = zeros (w % 4) ++ rows_bytes w (w % 4) left (drop w p) in
      let bq = zeros (w % 4) ++ rows_bytes w (w % 4) left (drop w q) in
      let outcome = file_cmp-Outcome (w * 3 % 2 ^ 32) (row p ++ bp) (row q ++ bq) in
      elim outcome [
        | unlike g1 g2 apart e ↦
            other (λ h. apart (take-row p bp wp ∙ ap row h ∙ sym (take-row q bq wq)))
              (rw (e, rows_cmp) refl)
        | alike t e ↦
            let heads : take w p ≡ take w q =
              pixel_bytes-inj (take w p) (take w q)
                (sym (take-row p bp wp) ∙ t ∙ take-row q bq wq) in
            let ih =
              rows_cmp-Verdict left (drop w p) (drop w q) (length-drop w p ∙ omega arith)
                (length-drop w q ∙ omega arith) in
            let on : rows_cmp (suc left) w (row p ++ bp) (row q ++ bq)
                ≡ rows_cmp left w (rows_bytes w (w % 4) left (drop w p))
                    (rows_bytes w (w % 4) left (drop w q)) =
              rw
                (
                  rows_cmp,
                  e,
                  drop-row p bp wp,
                  drop-row q bq wq,
                  drop-padding (rows_bytes w (w % 4) left (drop w p)),
                  drop-padding (rows_bytes w (w % 4) left (drop w q)),
                )
                refl in
            elim ih [
              | same tails r ↦
                  same (sym (take_append_drop w p) ∙ ap₂ ◌++◌ heads tails ∙ take_append_drop w q)
                    (on ∙ r)
              | other apart r ↦ other (λ h. apart (ap (drop w) h)) (on ∙ r)
            ]
      ]

-- What `bmp_cmp` says of the files of two images.
pub data Compares (a b : Image) (r : Option BmpCompareStatus) : Type 0 where
  equal : a ≡ b → r ≡ some bmp_cmp_equals → Compares a b r
  other_sides :
      (a.width ≢ b.width) ⊎ (a.height ≢ b.height)
      → r ≡ some bmp_cmp_dimensions_differ
      → Compares a b r
  other_pixels :
      a.width ≡ b.width → a.height ≡ b.height → a ≢ b → r ≡ some bmp_cmp_diff → Compares a b r

-- An image with sides of 32 bits, a row of which has fewer than 2 ^ 32 bytes.
pub record IsPlain (img : Image) (px : List Pixel) : Type 0 where
  pub stored : img.pixels ≡ some px
  pub size : length px ≡ img.height * img.width
  pub narrow : 3 * img.width < 2 ^ 32
  pub low : img.height < 2 ^ 32

abbrev file_header : Image → List ℕ → Header
file_header img body =
    header_of (take bi_header_size (header_bytes (create_bmp_header img) ++ body))

header_read :
    (img : Image) (body : List ℕ)
    → read_header (header_bytes (create_bmp_header img) ++ body) ≡ some (file_header img body)
header_read img body =
    let long : leb bi_header_size (length (header_bytes (create_bmp_header img) ++ body)) ≡ true =
      ground arith in
    rw long refl

sides_of :
    (img : Image) (px : List Pixel) (body : List ℕ)
    → IsPlain img px
    → ((file_header img body).bi_width ≡ img.width)
      × ((file_header img body).bi_height ≡ img.height)
sides_of img px body plain = (
  header-width (create_bmp_header img) body (omega arith) ∙ omega (arith, plain.narrow),
  header-height (create_bmp_header img) body (omega arith) ∙ omega (arith, plain.low),
)

bodies_cmp-same :
    (h1 h2 : Header) (f1 f2 : List ℕ) (w h : ℕ)
    → h1.bi_width ≡ w
    → h2.bi_width ≡ w
    → h1.bi_height ≡ h
    → h2.bi_height ≡ h
    → bodies_cmp h1 h2 f1 f2 ≡ rows_cmp h w f1 f2
unfolding bodies_cmp
bodies_cmp-same h1 h2 f1 f2 w h a b c d =
    let widths : (h1.bi_width == h2.bi_width) ≡ true = ground arith in
    let heights : (h1.bi_height == h2.bi_height) ≡ true = ground arith in
    rw (widths, heights) (ap₂ (λ m n. rows_cmp m n f1 f2) c a)

bodies_cmp-other :
    (h1 h2 : Header) (f1 f2 : List ℕ)
    → (h1.bi_width ≢ h2.bi_width) ⊎ (h1.bi_height ≢ h2.bi_height)
    → bodies_cmp h1 h2 f1 f2 ≡ some bmp_cmp_dimensions_differ
unfolding bodies_cmp
bodies_cmp-other h1 h2 f1 f2 apart = ground arith

bmp_cmp-bodies_cmp :
    (f1 f2 : List ℕ) (h1 h2 : Header)
    → read_header f1 ≡ some h1
    → read_header f2 ≡ some h2
    → bmp_cmp f1 f2 ≡ bodies_cmp h1 h2 (drop bi_header_size f1) (drop bi_header_size f2)
unfolding bmp_cmp
bmp_cmp-bodies_cmp f1 f2 h1 h2 e1 e2 = rw (bmp_cmp, e1, e2) refl

Image-eq :
    (a b : Image) (pa pb : List Pixel)
    → a.pixels ≡ some pa
    → b.pixels ≡ some pb
    → a.width ≡ b.width
    → a.height ≡ b.height
    → pa ≡ pb
    → a ≡ b
Image-eq a b pa pb sa sb w h e = ground (arith, e, sa, sb)

module _ (a b : Image) (pa pb : List Pixel) (plain_a : IsPlain a pa) (plain_b : IsPlain b pb) where
  body_of : Image → List Pixel → List ℕ
  body_of img px = rows_bytes img.width (img.width % 4) img.height px

  bodies :
      bmp_cmp (bmp_file a pa) (bmp_file b pb)
      ≡ bodies_cmp
          (file_header a (body_of a pa))
          (file_header b (body_of b pb))
          (body_of a pa)
          (body_of b pb)
  unfolding body_of
  bodies =
      bmp_cmp-bodies_cmp (bmp_file a pa) (bmp_file b pb) (file_header a (body_of a pa))
        (file_header b (body_of b pb)) (header_read a (body_of a pa)) (header_read b (body_of b pb))

  -- `bmp_cmp` on the files of two images with rows of fewer than 2 ^ 32 bytes, padded as the format
  -- asks, ends and says that they are similar exactly when the images are equal; that their
  -- dimensions differ when they do; and else that the files differ.
  pub bmp_cmp-Compares : Compares a b (bmp_cmp (bmp_file a pa) (bmp_file b pb))
  unfolding body_of
  bmp_cmp-Compares =
      let sa = sides_of a pa (body_of a pa) plain_a in
      let sb = sides_of b pb (body_of b pb) plain_b in
      let unequal =
        bodies_cmp-other (file_header a (body_of a pa)) (file_header b (body_of b pb))
          (body_of a pa) (body_of b pb) in
      elim (ℕ_discrete a.width b.width) [
        | no w ↦ other_sides (inl w) (bodies ∙ unequal (inl (λ e. w (sym sa.0 ∙ e ∙ sb.0))))
        | yes w ↦ elim (ℕ_discrete a.height b.height) [
          | no h ↦ other_sides (inr h) (bodies ∙ unequal (inr (λ e. h (sym sa.1 ∙ e ∙ sb.1))))
          | yes h ↦
              let shared : body_of b pb ≡ rows_bytes a.width (a.width % 4) a.height pb =
                rw (w, h) refl in
              let on : bmp_cmp (bmp_file a pa) (bmp_file b pb)
                  ≡ rows_cmp a.height a.width (body_of a pa)
                      (rows_bytes a.width (a.width % 4) a.height pb) =
                bodies
                ∙ bodies_cmp-same (file_header a (body_of a pa)) (file_header b (body_of b pb))
                    (body_of a pa) (body_of b pb) a.width a.height sa.0 (sb.0 ∙ sym w) sa.1
                    (sb.1 ∙ sym h)
                ∙ ap (λ l. rows_cmp a.height a.width (body_of a pa) l) shared in
              let size : length pb ≡ a.height * a.width = plain_b.size ∙ ap₂ ◌*◌ (sym h) (sym w) in
              elim (rows_cmp-Verdict a.width plain_a.narrow a.height pa pb plain_a.size size) [
                | same e r ↦ equal (Image-eq a b pa pb plain_a.stored plain_b.stored w h e) (on ∙ r)
                | other apart r ↦
                    other_pixels w h
                      (λ e.
                        apart (cc (ap (λ (x : Image). x.pixels) e, plain_a.stored, plain_b.stored)))
                      (on ∙ r)
              ]
        ]
      ]
