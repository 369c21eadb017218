-- ===== src/Image/Symmetry.antt =====
-- The rotations one after another: each undoes another, and two quarter turns are a half turn.
use native.Mathlib.Nat.{div-add-mod, mod-lt}
use low_level_programming.Base.{
  ◌>>=◌, ℕ, ◌+◌, ◌-◌, ◌*◌, ◌/◌, ◌%◌, ◌<◌, ◌≡◌, refl, sym, ap, ◌∙◌, Option, some, arith,
  eq_of_get_elem?,
}
use low_level_programming.Image.{
  Pixel, Image, Malloc, rotate_90, rotate_90_reverse, rotate_180, copy_image,
}
use low_level_programming.Image.Rotation.{
  Shows, Gives, Small, Returned, rotate_90-Returned, rotate_90_reverse-Returned,
  rotate_180-Returned, copy_image-Returned,
}

-- The position with index `k`.
position : (k w h : ℕ) → k < h * w → (k / w < h) × (k % w < w) × (k / w * w + k % w ≡ k)
position k w h p =
    let pos : 0 < w = grind arith in
    let split = div-add-mod k w in
    let row : k / w < h = grind (arith, split) in (row, mod-lt k pos, omega (arith, split))

pixels_unique :
    (w h : ℕ) (f g : ℕ → ℕ → Option Pixel) (a b : Image)
    → ((i j : ℕ) → i < h → j < w → f i j ≡ g i j)
    → (x : Shows a w h f) → (y : Shows b w h g) → x.px ≡ y.px
pixels_unique w h f g a b same x y = eq_of_get_elem? x.px y.px (x.size ∙ sym y.size) λ k p.
    let (row, col, e) = position k w h (omega (arith, x.size)) in
    rw (← e) (
      x.at (k / w) (k % w) row col
      ∙ same (k / w) (k % w) row col
      ∙ sym (y.at (k / w) (k % w) row col))

-- An image is what it shows.
pub Shows-unique :
    (w h : ℕ) (f g : ℕ → ℕ → Option Pixel) (a b : Image)
    → ((i j : ℕ) → i < h → j < w → f i j ≡ g i j)
    → Shows a w h f
    → Shows b w h g
    → a ≡ b
Shows-unique w h f g a b same x y =
    let e = pixels_unique w h f g a b same x y in
    ground (arith, x.width, y.width, x.height, y.height, x.stored, y.stored, e)

-- Two turns, one after the other.
Returned-then :
    (r : Option Image) (turn : Image → Option Image) (w h w' h' : ℕ) (f g : ℕ → ℕ → Option Pixel)
    → (first : Returned r w h f) → Returned (turn first.out) w' h' g
    → Returned (r >>= turn) w' h' g
Returned-then r turn w h w' h' f g first second = record {
  out = second.out;
  returns = rw first.returns second.returns;
  shows = second.shows;
}

-- What is returned is known by what it shows.
Returned-eq :
    (r : Option Image) (w h : ℕ) (f g : ℕ → ℕ → Option Pixel) (b : Image)
    → Returned r w h f
    → ((i j : ℕ) → i < h → j < w → f i j ≡ g i j)
    → Shows b w h g
    → r ≡ some b
Returned-eq r w h f g b x same y = x.returns ∙ ap some (Shows-unique w h f g x.out b same x.shows y)

module _ (mem : Malloc) (w h : ℕ) (small : Small w h) (gives : Gives mem (h * w)) (img : Image)
    (f : ℕ → ℕ → Option Pixel) (shows : Shows img w h f) where
  turned-Small : Small h w
  turned-Small = omega (arith, small.area, small.row, small.column)

  turned-Gives : Gives mem (w * h)
  turned-Gives = let e : w * h ≡ h * w = omega arith in rw e gives

  -- `copy_image` returns an equal image, where `malloc` serves it.
  pub copy_image_lem : copy_image mem img ≡ some img
  copy_image_lem =
      Returned-eq (copy_image mem img) w h f f img
        (copy_image-Returned mem w h small gives img f shows) (λ i j p q. refl) shows

  -- A quarter turn and a quarter turn back return the source, where `malloc` serves both.
  pub rotate_90_reverse-rotate_90 : (rotate_90 mem img >>= λ a. rotate_90_reverse mem a) ≡ some img
  rotate_90_reverse-rotate_90 =
      let first = rotate_90-Returned mem w h small gives img f shows in
      let second =
        rotate_90_reverse-Returned mem h w turned-Small turned-Gives first.out _ first.shows in
      let both = Returned-then _ (λ a. rotate_90_reverse mem a) h w w h _ _ first second in
      Returned-eq _ w h _ f img both (λ i j p q. ap (λ k. f i k) (omega arith)) shows

  -- A quarter turn back and a quarter turn return the source, where `malloc` serves both.
  pub rotate_90-rotate_90_reverse : (rotate_90_reverse mem img >>= λ a. rotate_90 mem a) ≡ some img
  rotate_90-rotate_90_reverse =
      let first = rotate_90_reverse-Returned mem w h small gives img f shows in
      let second = rotate_90-Returned mem h w turned-Small turned-Gives first.out _ first.shows in
      let both = Returned-then _ (λ a. rotate_90 mem a) h w w h _ _ first second in
      Returned-eq _ w h _ f img both (λ i j p q. ap (λ k. f k j) (omega arith)) shows

  -- Two half turns return the source, where `malloc` serves both.
  pub rotate_180-rotate_180 : (rotate_180 mem img >>= λ a. rotate_180 mem a) ≡ some img
  rotate_180-rotate_180 =
      let first = rotate_180-Returned mem w h small gives img f shows in
      let second = rotate_180-Returned mem w h small gives first.out _ first.shows in
      let both = Returned-then _ (λ a. rotate_180 mem a) w h w h _ _ first second in
      Returned-eq _ w h _ f img both
        (λ i j p q.
          ap (λ k. f k (w - 1 - (w - 1 - j))) (omega arith) ∙ ap (λ k. f i k) (omega arith))
        shows

  -- Two quarter turns are a half turn, where `malloc` serves them.
  pub rotate_90-rotate_90 : (rotate_90 mem img >>= λ a. rotate_90 mem a) ≡ rotate_180 mem img
  rotate_90-rotate_90 =
      let first = rotate_90-Returned mem w h small gives img f shows in
      let second = rotate_90-Returned mem h w turned-Small turned-Gives first.out _ first.shows in
      let both = Returned-then _ (λ a. rotate_90 mem a) h w w h _ _ first second in
      let half = rotate_180-Returned mem w h small gives img f shows in
      Returned-eq _ w h _ _ half.out both (λ i j p q. refl) half.shows ∙ sym half.returns

  -- A half turn and then a quarter turn are a quarter turn back, where `malloc` serves them.
  pub rotate_90-rotate_180 :
      (rotate_180 mem img >>= λ a. rotate_90 mem a) ≡ rotate_90_reverse mem img
  rotate_90-rotate_180 =
      let first = rotate_180-Returned mem w h small gives img f shows in
      let second = rotate_90-Returned mem w h small gives first.out _ first.shows in
      let both = Returned-then _ (λ a. rotate_90 mem a) w h h w _ _ first second in
      let back = rotate_90_reverse-Returned mem w h small gives img f shows in
      Returned-eq _ h w _ _ back.out both (λ i j p q. ap (λ k. f (h - 1 - j) k) (omega arith))
        back.shows
      ∙ sym back.returns
