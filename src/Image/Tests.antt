-- ===== src/Image/Tests.antt =====
-- The theorems on rotation at a small image.
use low_level_programming.Base.{
  ◌>>=◌, ℕ, ◌≡◌, refl, true, some, Option, [], ◌∷◌, arith, get_elem?, ◌-◌, ◌*◌, ◌+◌,
}
use low_level_programming.Image.{Pixel, Image, Malloc, rotate_90, rotate_90_reverse, rotate_180}
use low_level_programming.Image.Rotation.{
  Shows, Gives, Small, Returned, rotate_90-Returned, rotate_90_reverse-Returned,
  rotate_180-Returned,
}
use low_level_programming.Image.Symmetry.{
  rotate_90_reverse-rotate_90, rotate_90-rotate_90_reverse, rotate_90-rotate_90,
}

abbrev grey : ℕ → Pixel
grey n = record { b = n; g = n; r = n }

-- Two rows of three pixels.
abbrev picture : Image
picture = record {
  width = 3;
  height = 2;
  pixels = some (grey 1 ∷ grey 2 ∷ grey 3 ∷ grey 4 ∷ grey 5 ∷ grey 6 ∷ []);
}

abbrev shown : ℕ → ℕ → Option Pixel
shown i j = get_elem? (grey 1 ∷ grey 2 ∷ grey 3 ∷ grey 4 ∷ grey 5 ∷ grey 6 ∷ []) (i * 3 + j)

abbrev memory : Malloc
memory = record {
  has_image = true;
  pixels = λ n. some (grey 0 ∷ grey 0 ∷ grey 0 ∷ grey 0 ∷ grey 0 ∷ grey 0 ∷ []);
}

picture-Shows : Shows picture 3 2 shown
picture-Shows = record {
  px = grey 1 ∷ grey 2 ∷ grey 3 ∷ grey 4 ∷ grey 5 ∷ grey 6 ∷ [];
  stored = refl;
  width = refl;
  height = refl;
  size = refl;
  at = λ i j p q. refl;
}

memory-Gives : Gives memory 6
memory-Gives = record {
  has = refl;
  buf = grey 0 ∷ grey 0 ∷ grey 0 ∷ grey 0 ∷ grey 0 ∷ grey 0 ∷ [];
  pixels = refl;
  room = refl;
}

picture-Small : Small 3 2
picture-Small = omega arith

rotate_90-Returned_example : Returned (rotate_90 memory picture) 2 3 (λ i j. shown j (3 - 1 - i))
rotate_90-Returned_example =
    rotate_90-Returned memory 3 2 picture-Small memory-Gives picture shown picture-Shows

rotate_90_reverse-Returned_example :
    Returned (rotate_90_reverse memory picture) 2 3 (λ i j. shown (2 - 1 - j) i)
rotate_90_reverse-Returned_example =
    rotate_90_reverse-Returned memory 3 2 picture-Small memory-Gives picture shown picture-Shows

rotate_180-Returned_example :
    Returned (rotate_180 memory picture) 3 2 (λ i j. shown (2 - 1 - i) (3 - 1 - j))
rotate_180-Returned_example =
    rotate_180-Returned memory 3 2 picture-Small memory-Gives picture shown picture-Shows

rotate_90_reverse-rotate_90_example :
    (rotate_90 memory picture >>= λ a. rotate_90_reverse memory a) ≡ some picture
rotate_90_reverse-rotate_90_example =
    rotate_90_reverse-rotate_90 memory 3 2 picture-Small memory-Gives picture shown picture-Shows

rotate_90-rotate_90_reverse_example :
    (rotate_90_reverse memory picture >>= λ a. rotate_90 memory a) ≡ some picture
rotate_90-rotate_90_reverse_example =
    rotate_90-rotate_90_reverse memory 3 2 picture-Small memory-Gives picture shown picture-Shows

rotate_90-rotate_90_example :
    (rotate_90 memory picture >>= λ a. rotate_90 memory a) ≡ rotate_180 memory picture
rotate_90-rotate_90_example =
    rotate_90-rotate_90 memory 3 2 picture-Small memory-Gives picture shown picture-Shows
