-- ===== src/Image/Command.antt =====
-- The angle of `Image Rotation C/solution`: the checks of `src/console_io.c` and the choice of the
-- rotation in `src/main.c`.
pub mod Turns
mod Tests
use low_level_programming.Base.{
  ℕ, zero, suc, ◌+◌, ◌-◌, ◌/◌, ◌%◌, ◌^◌, ◌≡◌, Bool, true, false, Option, none, some, List, [], ◌∷◌,
  ◌==◌, ◌||◌, ◌&&◌, not, ltb, leb, if◌then◌else◌,
}
use low_level_programming.Image.{
  Image, Malloc, rotate_90, rotate_90_reverse, rotate_180, copy_image,
}

pub data ℤ : Type 0 where
  pos : ℕ → ℤ
  negsuc : ℕ → ℤ

abbrev pub neg : ℕ → ℤ
neg zero = pos 0
neg (suc n) = negsuc n

abbrev pub abs : ℤ → ℕ
abs (pos n) = n
abs (negsuc n) = suc n

abbrev pub is_negative : ℤ → Bool
is_negative (pos n) = false
is_negative (negsuc n) = true

abbrev pub same_int : ℤ → ℤ → Bool
same_int (pos m) (pos n) = m == n
same_int (negsuc m) (negsuc n) = m == n
same_int a b = false

-- Division and remainder of C, which round towards 0.
abbrev pub quot : ℤ → ℕ → ℤ
quot (pos n) d = pos (n / d)
quot (negsuc n) d = neg (suc n / d)

abbrev pub rem : ℤ → ℕ → ℤ
rem (pos n) d = pos (n % d)
rem (negsuc n) d = neg (suc n % d)

-- The conversion of an `int` to `int16_t`: the low 16 bits, of which the highest is the sign.
abbrev pub low_bits : ℤ → ℕ
low_bits (pos n) = n % 2 ^ 16
low_bits (negsuc n) = (2 ^ 16 - suc n % 2 ^ 16) % 2 ^ 16

abbrev pub int16_of : ℤ → ℤ
int16_of a = if ltb (low_bits a) (2 ^ 15) then pos (low_bits a) else neg (2 ^ 16 - low_bits a)

abbrev pub rotation_allowed_angles : List ℤ
rotation_allowed_angles = pos 0 ∷ pos 90 ∷ neg 90 ∷ pos 180 ∷ neg 180 ∷ pos 270 ∷ neg 270 ∷ []

abbrev pub is_in : List ℤ → ℤ → Bool
is_in [] angle = false
is_in (a ∷ as') angle = if same_int a angle then true else is_in as' angle

abbrev pub angle_is_allowed : ℤ → Bool
angle_is_allowed angle = is_in rotation_allowed_angles angle

abbrev pub fits_int : ℤ → Bool
fits_int (pos n) = ltb n (2 ^ 31)
fits_int (negsuc n) = ltb n (2 ^ 31)

pub data AngleStatus : Type 0 where
  angle_valid : ℤ → AngleStatus
  angle_format_error angle_value_error : AngleStatus

-- `strtol` finds in a string nothing, or a number of type `long`.
unfoldable pub convert_to_int : (List ℕ → Option ℤ) → List ℕ → Option ℤ
convert_to_int strtol string = elim (strtol string) [
  | none ↦ none
  | some res ↦ if fits_int res then some (int16_of res) else none
]

unfoldable pub read_angle : (List ℕ → Option ℤ) → List ℕ → AngleStatus
read_angle strtol angle = elim (convert_to_int strtol angle) [
  | none ↦ angle_format_error
  | some temp_res ↦ if angle_is_allowed temp_res then angle_valid temp_res else angle_value_error
]

-- The `switch` of `main`.
unfoldable pub turn : Malloc → ℤ → Image → Option Image
turn mem angle img =
    if abs (rem (quot angle 90) 2) == 0
    then (if same_int angle (pos 0) then copy_image mem img else rotate_180 mem img)
    else if abs (quot angle 90) == 1
    then (if is_negative angle then rotate_90_reverse mem img else rotate_90 mem img)
    else (if is_negative angle then rotate_90 mem img else rotate_90_reverse mem img)
