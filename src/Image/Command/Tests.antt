-- ===== src/Image/Command/Tests.antt =====
-- The theorems on the command line at a small image and a fixed string.
use low_level_programming.Base.{
  ℕ, ◌+◌, ◌*◌, ◌≡◌, refl, true, Option, none, some, List, [], ◌∷◌, arith, get_elem?, length, ◌==◌,
  if◌then◌else◌,
}
use low_level_programming.Image.{Pixel, Image, Malloc, rotate_90}
use low_level_programming.Image.Rotation.{Shows, Gives}
use low_level_programming.Image.Command.{ℤ, pos, neg, convert_to_int, read_angle, angle_valid, turn}
use low_level_programming.Image.Command.Turns.{times, turn-times}

abbrev grey : ℕ → Pixel
grey n = record { b = n; g = n; r = n }

-- Three rows of two pixels.
abbrev tall : Image
tall = record {
  width = 2;
  height = 3;
  pixels = some (grey 1 ∷ grey 2 ∷ grey 3 ∷ grey 4 ∷ grey 5 ∷ grey 6 ∷ []);
}

abbrev shown : ℕ → ℕ → Option Pixel
shown i j = get_elem? (grey 1 ∷ grey 2 ∷ grey 3 ∷ grey 4 ∷ grey 5 ∷ grey 6 ∷ []) (i * 2 + j)

abbrev memory : Malloc
memory = record {
  has_image = true;
  pixels = λ n. some (grey 0 ∷ grey 0 ∷ grey 0 ∷ grey 0 ∷ grey 0 ∷ grey 0 ∷ []);
}

memory-Gives : Gives memory 6
memory-Gives = record {
  has = refl;
  buf = grey 0 ∷ grey 0 ∷ grey 0 ∷ grey 0 ∷ grey 0 ∷ grey 0 ∷ [];
  pixels = refl;
  room = refl;
}

tall-Shows : Shows tall 2 3 shown
tall-Shows = record {
  px = grey 1 ∷ grey 2 ∷ grey 3 ∷ grey 4 ∷ grey 5 ∷ grey 6 ∷ [];
  stored = refl;
  width = refl;
  height = refl;
  size = refl;
  at = λ i j p q. refl;
}

turn-times_example : turn memory (neg 90) tall ≡ times 3 (rotate_90 memory) tall
turn-times_example =
    turn-times memory 2 3 (record { area = omega arith; row = omega arith; column = omega arith })
      memory-Gives tall shown tall-Shows (neg 90) refl

-- The string "90", and a reader that finds 90 in strings of two characters.
abbrev ninety : List ℕ
ninety = 57 ∷ 48 ∷ []

abbrev reader : List ℕ → Option ℤ
reader s = if length s == 2 then some (pos 90) else none

read_angle-ninety : read_angle reader ninety ≡ angle_valid (pos 90)
unfolding read_angle convert_to_int
read_angle-ninety = refl
