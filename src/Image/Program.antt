-- ===== src/Image/Program.antt =====
-- The program of `Image Rotation C/solution`: `src/main.c`, `src/file_io.c`, `src/enum_naming.c`,
-- `src/util.c`, and the check of file names in `src/console_io.c`.
pub mod Runs
mod Tests
use Prim.Native.String.{String}
use low_level_programming.Base.{
  ℕ, Bool, true, false, Option, none, some, List, [], ◌∷◌, ◌++◌, ◌==◌, if◌then◌else◌,
}
use low_level_programming.Image.{Image, Malloc}
use low_level_programming.Image.Bmp.{
  ReadStatus, read_ok, invalid_signature, invalid_bits, invalid_header, not_enough_memory, ReadBmp,
  from_bmp, input, Written, out_of_range, write_error, write_ok, output, to_bmp,
}
use low_level_programming.Image.Command.{
  ℤ, AngleStatus, angle_valid, angle_format_error, angle_value_error, read_angle, turn,
}

-- A C string without its last byte, 0.
abbrev pub Chars : Type 0
Chars = List ℕ

pub data FileProcStatus : Type 0 where
  file_proc_ok file_proc_error : FileProcStatus

pub data WriteBmpStatus : Type 0 where
  write_bmp_ok write_bmp_error : WriteBmpStatus

pub data FilenameStatus : Type 0 where
  filename_valid filename_error : FilenameStatus

pub data ArgsStatus : Type 0 where
  args_valid args_error : ArgsStatus

-- The tables of `enum_naming.c`.
abbrev pub file_proc_status_names : FileProcStatus → String
file_proc_status_names file_proc_ok = "FILE_PROC_OK"
file_proc_status_names file_proc_error = "FILE_PROC_ERROR"

abbrev pub read_status_names : ReadStatus → String
read_status_names read_ok = "READ_BMP_OK"
read_status_names invalid_signature = "READ_BMP_INVALID_SIGNATURE"
read_status_names invalid_bits = "READ_BMP_INVALID_BITS"
read_status_names invalid_header = "READ_BMP_INVALID_HEADER"
read_status_names not_enough_memory = "READ_BMP_NO_ENOUGH_MEMORY"

abbrev pub write_status_names : WriteBmpStatus → String
write_status_names write_bmp_ok = "WRITE_OK"
write_status_names write_bmp_error = "WRITE_ERROR"

abbrev pub validate_filename_status_names : FilenameStatus → String
validate_filename_status_names filename_valid = "FILENAME_VALID"
validate_filename_status_names filename_error = "FILENAME_ERROR"

abbrev pub validate_input_args_status_names : ArgsStatus → String
validate_input_args_status_names args_valid = "ARGS_VALID"
validate_input_args_status_names args_error = "ARGS_ERROR"

abbrev pub validate_angle_status_names : AngleStatus → String
validate_angle_status_names (angle_valid a) = "ANGLE_VALID"
validate_angle_status_names angle_format_error = "ANGLE_FORMAT_ERROR"
validate_angle_status_names angle_value_error = "ANGLE_VALUE_ERROR"

-- `\ / : * ? < > |`
abbrev pub forbidden_symbols : List ℕ
forbidden_symbols = b'\\' ∷ b'/' ∷ b':' ∷ b'*' ∷ b'?' ∷ b'<' ∷ b'>' ∷ b'|' ∷ []

abbrev pub is_among : List ℕ → ℕ → Bool
is_among [] symb = false
is_among (s ∷ rest) symb = if s == symb then true else is_among rest symb

abbrev pub is_forbidden : ℕ → Bool
is_forbidden symb = is_among forbidden_symbols symb

unfoldable pub check_valid_filename : Chars → FilenameStatus
check_valid_filename [] = filename_valid
check_valid_filename (c ∷ filename) =
    if is_forbidden c then filename_error else check_valid_filename filename

-- What opening a file gives: the bytes of a file that is read, and the number of bytes that there
-- is room for in a file that is written.
pub record Files : Type 0 where
  pub open_read : Chars → Option (List ℕ)
  pub open_write : Chars → Option ℕ

-- The status, and the stream if there is one.
abbrev pub status_of {ℓ} : {A : Type ℓ} → Option A → FileProcStatus
status_of none = file_proc_error
status_of (some a) = file_proc_ok

abbrev pub read_file : Files → Chars → FileProcStatus × Option (List ℕ)
read_file files filename = (status_of (files.open_read filename), files.open_read filename)

abbrev pub write_file : Files → Chars → FileProcStatus × Option ℕ
write_file files filename = (status_of (files.open_write filename), files.open_write filename)

-- How the program ends: the exit code, what it has printed, and the bytes in the file that it
-- writes, if that was opened.
pub record Exit : Type 0 where
  pub code : ℕ
  pub stderr : List String
  pub written : Option (List ℕ)

abbrev pub exit : ℕ → List String → Option (List ℕ) → Option Exit
exit c messages w = some (record { code = c; stderr = messages; written = w })

-- Frees images and then goes on. `free` of a field that is not set is a fault, which is `none`.
abbrev pub clear_images_memory : List (Option Image) → Option Exit → Option Exit
clear_images_memory [] then' = then'
clear_images_memory (none ∷ images) then' = none
clear_images_memory (some img ∷ images) then' = clear_images_memory images then'

-- `fprintf(stderr, "\n\n%s\n\n", name)`
abbrev pub report : String → List String
report name = "\n\n" ∷ name ∷ "\n\n" ∷ []

abbrev pub input_format : String
input_format = "Input format: ./image-transformer <source-image> <transformed-image> <angle>\n\n"

abbrev pub allowed_values : String
allowed_values = "Angle allowed values: 0, 90, -90, 180, -180, 270, -270\n\n"

module _ (mem : Malloc) (strtol : Chars → Option ℤ) (files : Files) where
  -- From `to_bmp` on.
  unfoldable pub save : Image → Image → ℕ → Option Exit
  save img rotated room = elim (to_bmp (output [] room) rotated) [
    | out_of_range ↦ none
    | write_error out ↦
        clear_images_memory (some img ∷ some rotated ∷ [])
          (exit 1 (report (write_status_names write_bmp_error)) (some out.written))
    | write_ok out ↦
        clear_images_memory (some img ∷ some rotated ∷ []) (exit 0 [] (some out.written))
  ]

  -- From the `switch` on.
  unfoldable pub transform : (out : Chars) → ℤ → Image → Option Exit
  transform out angle img = elim (turn mem angle img) [
    | none ↦ none
    | some rotated ↦ elim (write_file files out).1 [
      | none ↦
          clear_images_memory (some img ∷ some rotated ∷ [])
            (exit 1 (report (file_proc_status_names file_proc_error)) none)
      | some room ↦ save img rotated room
    ]
  ]

  -- From `from_bmp` on. A successful `from_bmp` sets the image.
  unfoldable pub load : (out : Chars) → ℤ → List ℕ → Option Exit
  load out angle bytes = elim (from_bmp mem (input bytes bytes)) [
    | none ↦ none
    | some r ↦ elim r.status [
      | read_ok ↦ elim r.image [ none ↦ none | some img ↦ transform out angle img ]
      | s ↦ clear_images_memory (r.image ∷ []) (exit 1 (report (read_status_names s)) none)
    ]
  ]

  unfoldable pub run : (source out str_angle : Chars) → Option Exit
  run source out str_angle = elim (read_angle strtol str_angle) [
    | angle_valid angle ↦ elim (read_file files source).1 [
      | none ↦ exit 1 (report (file_proc_status_names file_proc_error)) none
      | some bytes ↦ load out angle bytes
    ]
    | s ↦ exit 1 (report (validate_angle_status_names s) ++ allowed_values ∷ []) none
  ]

  -- The arguments with the name of the program.
  unfoldable pub main : List Chars → Option Exit
  main (program ∷ source ∷ out ∷ str_angle ∷ rest) = run source out str_angle
  main argv =
      exit 1 (report (validate_input_args_status_names args_error) ++ input_format ∷ []) none
