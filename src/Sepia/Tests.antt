-- ===== src/Sepia/Tests.antt =====
-- The theorems on the sepia filter at a small image, with floats counted in thousandths.
use low_level_programming.Base.{
  ℕ, ◌+◌, ◌*◌, ◌/◌, ◌≡◌, refl, true, none, some, ◌++◌, List, [], ◌∷◌, map, arith,
}
use low_level_programming.Image.{Pixel, Malloc}
use low_level_programming.Image.Rotation.{Gives}
use low_level_programming.Image.Bmp.Save.{bmp_file}
use low_level_programming.Sepia.Bitmap.{Picture}
use low_level_programming.Sepia.Float.{Float}
use low_level_programming.Sepia.Simd.{simd_pixel, simd_filter}
use low_level_programming.Sepia.Simd.Overrun.{simd_filter-overrun}
use low_level_programming.Sepia.Program.{Memory, main}
use low_level_programming.Sepia.Program.Runs.{main-overrun}

abbrev thousandths : Float
thousandths = record {
  Value = ℕ;
  of_byte = λ n. n;
  milli = λ n. n;
  add = λ a b. a + b;
  mul = λ a b. a * b;
  to_uint64 = λ a. a / 1000;
  to_uint32 = λ a. (a + 500) / 1000;
}

abbrev dots : List Pixel
dots = record { b = 10; g = 20; r = 30 } ∷ record { b = 255; g = 255; r = 255 } ∷ []

abbrev buffer : List Pixel
buffer = record { b = 0; g = 0; r = 0 } ∷ record { b = 0; g = 0; r = 0 } ∷ []

-- One row of two pixels.
abbrev line : Picture
line = record { width = 2; height = 1; pixels = some dots }

abbrev memory : Malloc
memory = record { has_image = true; pixels = λ n. some buffer }

memory-Gives : Gives memory 2
memory-Gives = record { has = refl; buf = buffer; pixels = refl; room = refl }

abbrev memories : Memory
memories = record { first = memory; c_rounds = λ k. memory; asm_rounds = λ k. memory }

simd_filter-overrun_example :
    (simd_filter thousandths 1 2 dots ≡ none)
    × ((q : Pixel) (rest : List Pixel)
        → simd_filter thousandths 1 2 (dots ++ q ∷ rest)
          ≡ some (map (simd_pixel thousandths) dots ++ simd_pixel thousandths q ∷ rest))
simd_filter-overrun_example = simd_filter-overrun thousandths 1 2 dots refl (omega arith)

main-overrun_run :
    main thousandths memories (record {
      in_file = some (bmp_file line dots);
      src = some [];
      out_file1 = some 100;
      out_file2 = some 100;
    })
    ≡ none
main-overrun_run =
    (main-overrun thousandths memories line dots refl refl (omega arith) (omega arith) (omega arith)
      memory-Gives (λ k. memory-Gives) (λ k. memory-Gives) [] 100 100 (λ e. absurd (omega arith))).1
