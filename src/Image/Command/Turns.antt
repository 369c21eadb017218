-- ===== src/Image/Command/Turns.antt =====
-- The rotation that `main` chooses, by the angle.
use mathlib.Core.Path.{subst}
use low_level_programming.Base.{
  ◌>>=◌, ℕ, zero, suc, ◌-◌, ◌*◌, ◌/◌, ◌%◌, ◌≡◌, refl, sym, ap, ◌∙◌, true, Option, some, List, [],
  ◌∷◌, arith, inl, inr, All, Bool-cases, Option-cases, none, if◌then◌else◌,
}
use low_level_programming.Image.{Pixel, Image, Malloc, rotate_90, rotate_90_reverse}
use low_level_programming.Image.Rotation.{Shows, Gives, Small}
use low_level_programming.Image.Symmetry.{copy_image_lem, rotate_90-rotate_90, rotate_90-rotate_180}
use low_level_programming.Image.Command.{
  ℤ, pos, negsuc, fits_int, int16_of, convert_to_int, read_angle, angle_valid, angle_format_error,
  angle_value_error, AngleStatus, same_int, is_in, rotation_allowed_angles, angle_is_allowed, turn,
}

-- Quarter turns from 0 to 3 that an angle stands for.
abbrev pub quarters : ℤ → ℕ
quarters (pos n) = n / 90 % 4
quarters (negsuc n) = (4 - suc n / 90 % 4) % 4

abbrev pub times : ℕ → (Image → Option Image) → Image → Option Image
times zero f img = some img
times (suc n) f img = times n f img >>= f

same_int-eq : (a b : ℤ) → same_int a b ≡ true → a ≡ b
same_int-eq (pos m) (pos n) e = ap pos (ground arith)
same_int-eq (negsuc m) (negsuc n) e = ap negsuc (ground arith)
same_int-eq (pos m) (negsuc n) e = absurd (cc e)
same_int-eq (negsuc m) (pos n) e = absurd (cc e)

-- What holds of every angle of a list holds of one that is found in it.
pub is_in-All : (P : ℤ → Type 0) (l : List ℤ) (a : ℤ) → All P l → is_in l a ≡ true → P a
is_in-All P [] a h e = absurd (cc e)
is_in-All P (b ∷ l) a h e = elim (Bool-cases (same_int b a)) [
  | inl same ↦ subst P (same_int-eq b a same) h.0
  | inr other ↦ is_in-All P l a h.1 (rw other at e)
]

module _ (mem : Malloc) (w h : ℕ) (small : Small w h) (gives : Gives mem (h * w)) (img : Image)
    (f : ℕ → ℕ → Option Pixel) (shows : Shows img w h f) where
  three : times 3 (rotate_90 mem) img ≡ rotate_90_reverse mem img
  three =
      ap (λ r. r >>= rotate_90 mem) (rotate_90-rotate_90 mem w h small gives img f shows)
      ∙ rotate_90-rotate_180 mem w h small gives img f shows

  -- For an angle that `angle_is_allowed` accepts, `main` returns what the angle's number of quarter
  -- turns, one after another, return, where `malloc` serves them.
  pub turn-times :
      (angle : ℤ)
      → angle_is_allowed angle ≡ true
      → turn mem angle img ≡ times (quarters angle) (rotate_90 mem) img
  unfolding turn
  turn-times angle allowed =
      let two = rotate_90-rotate_90 mem w h small gives img f shows in
      is_in-All (λ a. turn mem a img ≡ times (quarters a) (rotate_90 mem) img)
        rotation_allowed_angles angle
        (
          copy_image_lem mem w h small gives img f shows,
          (refl, (sym three, (sym two, (sym two, (sym three, (refl, tt)))))),
        )
        allowed

accepted_value :
    (v a : ℤ)
    → (elim (if fits_int v then some (int16_of v) else none) as (λ x. AngleStatus) [
      | none ↦ angle_format_error
      | some temp_res ↦
          if angle_is_allowed temp_res then angle_valid temp_res else angle_value_error
    ])
      ≡ angle_valid a
    → angle_is_allowed a ≡ true
accepted_value v a e = elim (Bool-cases (fits_int v)) [
  | inr big ↦ absurd (cc (rw big at e))
  | inl fits ↦ elim (Bool-cases (angle_is_allowed (int16_of v))) [
    | inr bad ↦ absurd (cc (rw (fits, bad) at e))
    | inl good ↦
        let same : int16_of v ≡ a = cc (rw (fits, good) at e) in
        subst (λ b. angle_is_allowed b ≡ true) same good
  ]
]

module _ (strtol : List ℕ → Option ℤ) (string : List ℕ) (a : ℤ) where
  -- An allowed angle that `strtol` finds is accepted as itself.
  pub read_angle-angle_valid :
      strtol string ≡ some a → angle_is_allowed a ≡ true → read_angle strtol string ≡ angle_valid a
  unfolding read_angle convert_to_int
  read_angle-angle_valid found allowed =
      let itself : (fits_int a ≡ true) × (int16_of a ≡ a) =
        is_in-All (λ b. (fits_int b ≡ true) × (int16_of b ≡ b)) rotation_allowed_angles a
          (
            (refl, refl),
            (
              (refl, refl),
              ((refl, refl), ((refl, refl), ((refl, refl), ((refl, refl), ((refl, refl), tt))))),
            ),
          )
          allowed in
      rw (read_angle, convert_to_int, found, itself.0, itself.1, allowed) refl

  -- An angle that is accepted is allowed.
  pub angle_is_allowed-read_angle :
      read_angle strtol string ≡ angle_valid a → angle_is_allowed a ≡ true
  unfolding read_angle convert_to_int
  angle_is_allowed-read_angle accepted = elim (Option-cases (strtol string)) [
    | inl nothing ↦ absurd (cc (rw (read_angle, convert_to_int, nothing) at accepted))
    | inr (v, found) ↦ accepted_value v a (rw (read_angle, convert_to_int, found) at accepted)
  ]
