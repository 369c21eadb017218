-- ===== src/Image/Program/Tests.antt =====
-- The theorems on the program at a small image, and the check of a file name.
use low_level_programming.Base.{
  ℕ, ◌≡◌, refl, true, Option, none, some, List, [], ◌∷◌, arith, length, ◌==◌, if◌then◌else◌,
}
use low_level_programming.Image.{Pixel, Image, Malloc, rotate_90}
use low_level_programming.Image.Rotation.{Gives}
use low_level_programming.Image.Bmp.Save.{bmp_file}
use low_level_programming.Image.Command.{ℤ, pos, convert_to_int, read_angle, angle_valid}
use low_level_programming.Image.Command.Turns.{times}
use low_level_programming.Image.Program.{Chars, Files, main, check_valid_filename, filename_error}
use low_level_programming.Image.Program.Runs.{Rotated, main-Rotated, too_short, main-NoBmp}

abbrev grey : ℕ → Pixel
grey n = record { b = n; g = n; r = n }

abbrev picture_pixels : List Pixel
picture_pixels = grey 1 ∷ grey 2 ∷ grey 3 ∷ grey 4 ∷ grey 5 ∷ grey 6 ∷ []

-- Two rows of three pixels.
abbrev picture : Image
picture = record { width = 3; height = 2; pixels = some picture_pixels }

abbrev buffer : List Pixel
buffer = grey 0 ∷ grey 0 ∷ grey 0 ∷ grey 0 ∷ grey 0 ∷ grey 0 ∷ []

abbrev memory : Malloc
memory = record { has_image = true; pixels = λ n. some buffer }

memory-Gives : Gives memory 6
memory-Gives = record { has = refl; buf = buffer; pixels = refl; room = refl }

-- The names `a` and `b`, and the string "90", which the reader below takes for 90.
abbrev name_a : Chars
name_a = b'a' ∷ []

abbrev name_b : Chars
name_b = b'b' ∷ []

abbrev ninety : Chars
ninety = b'9' ∷ b'0' ∷ []

abbrev reader : Chars → Option ℤ
reader s = if length s == 2 then some (pos 90) else none

read_angle-ninety : read_angle reader ninety ≡ angle_valid (pos 90)
unfolding read_angle convert_to_int
read_angle-ninety = refl

-- Every file that is read holds the picture, or one byte; there is room for 200 bytes.
abbrev disk : Files
disk = record {
  open_read = λ n. some (bmp_file picture picture_pixels);
  open_write = λ n. some 200;
}

abbrev broken_disk : Files
broken_disk = record { open_read = λ n. some (0 ∷ []); open_write = λ n. some 200 }

main-Rotated_example :
    Rotated
      (times 1 (rotate_90 memory) picture)
      (main memory reader disk (name_a ∷ name_a ∷ name_b ∷ ninety ∷ []))
main-Rotated_example =
    main-Rotated memory reader disk picture picture_pixels refl refl (omega arith) (omega arith)
      (omega arith) (λ e. absurd (omega arith)) (λ e. absurd (omega arith)) memory-Gives name_a
      name_a name_b ninety [] (pos 90) 200 read_angle-ninety refl refl (omega arith) (omega arith)

main-NoBmp_example : main memory reader broken_disk (name_a ∷ name_a ∷ name_b ∷ ninety ∷ []) ≡ none
main-NoBmp_example =
    main-NoBmp memory reader broken_disk refl name_a name_a name_b ninety [] (pos 90) (0 ∷ [])
      read_angle-ninety refl (too_short (omega arith))

slash_is_forbidden : check_valid_filename (b'a' ∷ b'/' ∷ []) ≡ filename_error
unfolding check_valid_filename
slash_is_forbidden = refl
