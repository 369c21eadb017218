-- ===== src/Image/Bmp/Tests.antt =====
-- The theorems on BMP files at small images.
use low_level_programming.Base.{
  ℕ, zero, suc, ◌-◌, ◌*◌, ◌/◌, ◌≡◌, refl, sym, ap, ◌∙◌, true, some, List, [], ◌∷◌, ◌++◌, arith,
  length,
}
use low_level_programming.Image.{Pixel, Image, Malloc}
use low_level_programming.Image.Rotation.{Gives}
use low_level_programming.Image.Bmp.{
  input, read_bmp, read_ok, from_bmp, output, write_ok, out_of_range, to_bmp,
}
use low_level_programming.Image.Bmp.Save.{bmp_file, to_bmp-write_ok, to_bmp-out_of_range}
use low_level_programming.Image.Bmp.Load.{reopen, reopen-to_bmp}
use low_level_programming.Image.Bmp.Bounds.{Loaded, from_bmp-Loaded}

abbrev red : Pixel
red = record { b = 1; g = 2; r = 250 }

abbrev copies : ℕ → List Pixel
copies zero = []
copies (suc n) = red ∷ copies n

length-copies : (n : ℕ) → length (copies n) ≡ n
length-copies zero = refl
length-copies (suc n) = ap suc (length-copies n)

-- Two rows of three pixels, and one of four.
abbrev flag : Image
flag = record { width = 3; height = 2; pixels = some (copies 6) }

abbrev stripe : Image
stripe = record { width = 4; height = 1; pixels = some (copies 4) }

abbrev memory : Malloc
memory = record { has_image = true; pixels = λ n. some (copies (n / 3)) }

memory-honest : (n : ℕ) (buf : List Pixel) → memory.pixels (3 * n) ≡ some buf → length buf ≡ n
memory-honest n buf e =
    let b : copies (3 * n / 3) ≡ buf = cc e in
    ap length (sym b) ∙ length-copies (3 * n / 3) ∙ omega arith

memory-Gives : Gives memory 6
memory-Gives = record { has = refl; buf = copies 6; pixels = refl; room = refl }

to_bmp-write_ok_example :
    to_bmp (output [] 100) flag
    ≡ write_ok (output ([] ++ bmp_file flag (copies 6)) (100 - length (bmp_file flag (copies 6))))
to_bmp-write_ok_example =
    to_bmp-write_ok flag (copies 6) refl refl (omega arith) (omega arith) (output [] 100)
      (λ e. absurd (omega arith)) (omega arith)

to_bmp-out_of_range_example : to_bmp (output [] 100) stripe ≡ out_of_range
to_bmp-out_of_range_example =
    to_bmp-out_of_range stripe (copies 4) refl refl (omega arith) (omega arith) (output [] 100) refl
      (omega arith) (omega arith) (omega arith)

reopen-to_bmp_example : reopen memory (to_bmp (output [] 100) flag) ≡ read_bmp read_ok (some flag)
reopen-to_bmp_example =
    reopen-to_bmp memory flag (copies 6) refl refl (omega arith) (omega arith) (omega arith)
      (λ e. absurd (omega arith)) memory-Gives 100 (omega arith)

from_bmp-Loaded_example :
    Loaded 3 2 (from_bmp memory (input (bmp_file flag (copies 6)) (bmp_file flag (copies 6))))
from_bmp-Loaded_example =
    from_bmp-Loaded memory refl memory-honest
      (input (bmp_file flag (copies 6)) (bmp_file flag (copies 6))) (omega arith) (omega arith)
