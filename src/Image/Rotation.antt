-- ===== src/Image/Rotation.antt =====
-- The four functions of `rotation.c`: which pixel goes where.
use low_level_programming.Base.{
  ℕ, ◌+◌, ◌-◌, ◌*◌, ◌≤◌, ◌<◌, ◌≡◌, refl, sym, ap, ◌∙◌, Bool, true, false, Option, some, List, arith,
  if◌then◌else◌, length, get_elem?,
}
use low_level_programming.Base.Words.{
  size_mod, add_size, mul_size, add_size-eq, sub_size-eq, mul_size-eq,
}
use low_level_programming.Image.{
  Pixel, Image, Malloc, pixel_size, init_image, rotate, index_90, index_90_reverse, index_180,
  rotate_90, rotate_90_reverse, rotate_180, copy_image,
}
use low_level_programming.Image.Loop.{index_lt, rows_loop-Copied}

-- The image has this size, an array of that many pixels, and `f i j` in row `i`, column `j`.
pub record Shows (img : Image) (w h : ℕ) (f : ℕ → ℕ → Option Pixel) : Type 0 where
  pub px : List Pixel
  pub stored : img.pixels ≡ some px
  pub width : img.width ≡ w
  pub height : img.height ≡ h
  pub size : length px ≡ h * w
  pub at : (i j : ℕ) → i < h → j < w → get_elem? px (i * w + j) ≡ f i j

-- `malloc` has a `struct image`, and an array of `n` pixels, whatever they are.
pub record Gives (mem : Malloc) (n : ℕ) : Type 0 where
  pub has : mem.has_image ≡ true
  pub buf : List Pixel
  pub pixels : mem.pixels (pixel_size * n) ≡ some buf
  pub room : length buf ≡ n

-- The bytes of an image, and of a row and a column, are counted with no wrap.
pub record Small (w h : ℕ) : Type 0 where
  pub area : pixel_size * (h * w) < size_mod
  pub row : pixel_size * w < size_mod
  pub column : pixel_size * h < size_mod

-- An image that is returned, and what it shows.
pub record Returned (r : Option Image) (w h : ℕ) (f : ℕ → ℕ → Option Pixel) : Type 0 where
  pub out : Image
  pub returns : r ≡ some out
  pub shows : Shows out w h f

row_fits : (k w h : ℕ) → k < h → k * w + w ≤ h * w
row_fits k w h p = grind arith

abbrev blank : (width height : ℕ) → List Pixel → Image
blank w h buf = record { width = w; height = h; pixels = some buf }

module _ (mem : Malloc) (w h : ℕ) (small : Small w h) (gives : Gives mem (h * w)) where
  bytes : mul_size (mul_size pixel_size w) h ≡ pixel_size * (h * w)
  bytes =
      let row : mul_size pixel_size w ≡ pixel_size * w = mul_size-eq pixel_size w small.row in
      let area : pixel_size * w * h ≡ pixel_size * (h * w) = omega arith in
      rw row (mul_size-eq (pixel_size * w) h (rw area small.area) ∙ area)

  init_image-ok :
      (r : Bool)
      → init_image mem w h r ≡ some (blank (if r then h else w) (if r then w else h) gives.buf)
  unfolding init_image
  init_image-ok r = rw (gives.has, bytes, gives.pixels) refl

  module _ (img : Image) (f : ℕ → ℕ → Option Pixel) (shows : Shows img w h f) where
    -- One turn: the result's pixel in row `i`, column `j` is the source's in row `row i j`, column
    -- `col i j`.
    rotate-Returned :
        (w' h' : ℕ) (index row col : ℕ → ℕ → ℕ)
        → h' * w' ≡ h * w
        → ((i j : ℕ) → i < h' → j < w' → (row i j < h) × (col i j < w))
        → ((i j : ℕ) → i < h' → j < w' → index i j ≡ row i j * w + col i j)
        → Returned (rotate img index (blank w' h' gives.buf)) w' h' (λ i j. f (row i j) (col i j))
    unfolding rotate
    rotate-Returned w' h' index row col area inside same =
        let at = λ (i j : ℕ) (p : i < h') (q : j < w'). inside i j p q in
        let c =
          rows_loop-Copied shows.px w' h' index (omega (arith, small.area, area))
            (λ i j p q. rw (same i j p q) (
              omega (
                arith,
                shows.size,
                index_lt (row i j) (col i j) w h (at i j p q).0 (at i j p q).1,
              )))
            gives.buf (gives.room ∙ sym area) in
        record {
          out = blank w' h' c.out;
          returns = rw (shows.stored, c.returns) refl;
          shows = record {
            px = c.out;
            stored = refl;
            width = refl;
            height = refl;
            size = c.size;
            at = λ i j p q.
                c.pixels i j p q
                ∙ ap (λ k. get_elem? shows.px k) (same i j p q)
                ∙ shows.at (row i j) (col i j) (at i j p q).0 (at i j p q).1;
          };
        }

    -- The index expressions, which are written with 64-bit arithmetic, do not wrap.
    index_90-eq : (i j : ℕ) → i < w → j < h → index_90 mem img i j ≡ j * w + (w - 1 - i)
    index_90-eq i j p q =
        let top = row_fits j w h q in
        let prod : w * (j + 1) ≡ j * w + w = omega arith in
        let next : add_size j 1 ≡ j + 1 = add_size-eq j 1 (omega (arith, small.column)) in
        let m : mul_size w (j + 1) ≡ j * w + w =
          mul_size-eq w (j + 1) (omega (arith, small.area)) ∙ prod in
        rw
          (
            shows.width,
            next,
            m,
            sub_size-eq (j * w + w) 1 (omega arith) (omega (arith, small.area)),
            sub_size-eq (j * w + w - 1) i (omega arith) (omega (arith, small.area)),
          )
          (omega arith)

    index_90_reverse-eq :
        (i j : ℕ) → i < w → j < h → index_90_reverse mem img i j ≡ (h - 1 - j) * w + i
    index_90_reverse-eq i j p q =
        let top = row_fits (h - 1 - j) w h (omega arith) in
        let m : mul_size w (h - 1 - j) ≡ (h - 1 - j) * w =
          mul_size-eq w (h - 1 - j) (omega (arith, small.area)) ∙ omega arith in
        rw
          (
            shows.width,
            shows.height,
            sub_size-eq h 1 (omega arith) (omega (arith, small.column)),
            sub_size-eq (h - 1) j (omega arith) (omega (arith, small.column)),
            m,
            add_size-eq ((h - 1 - j) * w) i (omega (arith, small.area)),
          )
          refl

    index_180-eq : (i j : ℕ) → i < h → j < w → index_180 mem img i j ≡ (h - 1 - i) * w + (w - 1 - j)
    index_180-eq i j p q =
        let top = row_fits (h - 1 - i) w h (omega arith) in
        let m : mul_size w (h - 1 - i) ≡ (h - 1 - i) * w =
          mul_size-eq w (h - 1 - i) (omega (arith, small.area)) ∙ omega arith in
        rw
          (
            shows.width,
            shows.height,
            sub_size-eq h 1 (omega arith) (omega (arith, small.column)),
            sub_size-eq (h - 1) i (omega arith) (omega (arith, small.column)),
            m,
            sub_size-eq w 1 (omega arith) (omega (arith, small.row)),
            sub_size-eq (w - 1) j (omega arith) (omega (arith, small.row)),
            add_size-eq ((h - 1 - i) * w) (w - 1 - j) (omega (arith, small.area)),
          )
          refl

    index_copy-eq : (i j : ℕ) → i < h → j < w → add_size (mul_size i w) j ≡ i * w + j
    index_copy-eq i j p q =
        let top = row_fits i w h p in
        rw
          (
            mul_size-eq i w (omega (arith, small.area)),
            add_size-eq (i * w) j (omega (arith, small.area)),
          )
          refl

    init_result :
        (r : Bool)
        → init_image mem img.width img.height r
          ≡ some (blank (if r then h else w) (if r then w else h) gives.buf)
    init_result r = rw (shows.width, shows.height) (init_image-ok r)

    -- `rotate_90` of an image whose bytes do not wrap, where `malloc` serves it, ends without an access out of range. The
    -- result has width and height exchanged, and in row `i`, column `j` the source's pixel in row
    -- `j`, column `width - 1 - i`.
    pub rotate_90-Returned : Returned (rotate_90 mem img) h w (λ i j. f j (w - 1 - i))
    unfolding rotate_90
    rotate_90-Returned =
        let r =
          rotate-Returned h w (index_90 mem img) (λ i j. j) (λ i j. w - 1 - i) (omega arith)
            (λ i j p q. (q, omega arith)) index_90-eq in
        record { out = r.out; returns = rw (init_result true) r.returns; shows = r.shows }

    -- `rotate_90_reverse` of an image, where `malloc` serves it, ends without an access out of
    -- range. The result has width and height exchanged, and in row `i`, column `j` the source's
    -- pixel in row `height - 1 - j`, column `i`.
    pub rotate_90_reverse-Returned :
        Returned (rotate_90_reverse mem img) h w (λ i j. f (h - 1 - j) i)
    unfolding rotate_90_reverse
    rotate_90_reverse-Returned =
        let r =
          rotate-Returned h w (index_90_reverse mem img) (λ i j. h - 1 - j) (λ i j. i) (omega arith)
            (λ i j p q. (omega arith, p)) index_90_reverse-eq in
        record { out = r.out; returns = rw (init_result true) r.returns; shows = r.shows }

    -- `rotate_180` of an image, where `malloc` serves it, ends without an access out of range. The
    -- result has the source's width and height, and in row `i`, column `j` the source's pixel in
    -- row `height - 1 - i`, column `width - 1 - j`.
    pub rotate_180-Returned : Returned (rotate_180 mem img) w h (λ i j. f (h - 1 - i) (w - 1 - j))
    unfolding rotate_180
    rotate_180-Returned =
        let r =
          rotate-Returned w h (index_180 mem img) (λ i j. h - 1 - i) (λ i j. w - 1 - j) refl
            (λ i j p q. (omega arith, omega arith)) index_180-eq in
        record { out = r.out; returns = rw (init_result false) r.returns; shows = r.shows }

    -- `copy_image` keeps every pixel.
    pub copy_image-Returned : Returned (copy_image mem img) w h f
    unfolding copy_image
    copy_image-Returned =
        let r =
          rotate-Returned w h (λ i j. add_size (mul_size i w) j) (λ i j. i) (λ i j. j) refl
            (λ i j p q. (p, q)) index_copy-eq in
        record { out = r.out; returns = rw (init_result false) r.returns; shows = r.shows }
