-- ===== src/Image/Tester/Tests.antt =====
-- The theorems on the comparison tool at two small images.
use low_level_programming.Base.{ℕ, refl, some, List, [], ◌∷◌, arith}
use low_level_programming.Image.{Pixel, Image}
use low_level_programming.Image.Bmp.Save.{bmp_file}
use low_level_programming.Image.Tester.{bmp_cmp, file_cmp}
use low_level_programming.Image.Tester.FileCmp.{Outcome, file_cmp-Outcome}
use low_level_programming.Image.Tester.BmpCmp.{Compares, IsPlain, bmp_cmp-Compares}

abbrev grey : ℕ → Pixel
grey n = record { b = n; g = n; r = n }

abbrev dots : List Pixel
dots = grey 1 ∷ grey 2 ∷ grey 3 ∷ []

abbrev other_dots : List Pixel
other_dots = grey 1 ∷ grey 7 ∷ grey 3 ∷ []

abbrev line : List Pixel → Image
line px = record { width = 3; height = 1; pixels = some px }

dots-IsPlain : IsPlain (line dots) dots
dots-IsPlain = record { stored = refl; size = refl; narrow = omega arith; low = omega arith }

other_dots-IsPlain : IsPlain (line other_dots) other_dots
other_dots-IsPlain = record { stored = refl; size = refl; narrow = omega arith; low = omega arith }

bmp_cmp-Compares_example :
    Compares
      (line dots)
      (line other_dots)
      (bmp_cmp (bmp_file (line dots) dots) (bmp_file (line other_dots) other_dots))
bmp_cmp-Compares_example =
    bmp_cmp-Compares (line dots) (line other_dots) dots other_dots dots-IsPlain other_dots-IsPlain

file_cmp-Outcome_example :
    Outcome 2 (1 ∷ 2 ∷ 3 ∷ []) (1 ∷ 2 ∷ 4 ∷ []) (file_cmp (1 ∷ 2 ∷ 3 ∷ []) (1 ∷ 2 ∷ 4 ∷ []) 2)
file_cmp-Outcome_example = file_cmp-Outcome 2 (1 ∷ 2 ∷ 3 ∷ []) (1 ∷ 2 ∷ 4 ∷ [])
