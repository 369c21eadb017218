-- ===== src/Sepia/Bitmap.antt =====
-- Images, BMP files and file names of the sepia filter: `include`, `src/image/bmp.c`,
-- `src/image/image.c`, `src/image/file_io.c`, `src/util`. `bmp.c` has the text of
-- `Image Rotation C/solution/src/serialization.c`, so what models that models this.
use Prim.Native.String.{String}
use low_level_programming.Base.{
  ◌>>=◌, ℕ, Bool, true, false, Option, none, some, List, [], ◌∷◌, ◌==◌, if◌then◌else◌,
}
use low_level_programming.Base.Words.{add_size, mul_size}
use low_level_programming.Image
use low_level_programming.Image.{Pixel, Malloc, pixel_size, rotate}
use low_level_programming.Image.Bmp
use low_level_programming.Image.Bmp.{
  read_ok, invalid_signature, invalid_bits, invalid_header, not_enough_memory,
}

-- `struct image`
abbrev pub Picture : Type 0
Picture = Image.Image

abbrev pub ReadBmpStatus : Type 0
ReadBmpStatus = Bmp.ReadStatus

pub data WriteBmpStatus : Type 0 where
  write_bmp_ok write_bmp_error : WriteBmpStatus

pub data FileProcStatus : Type 0 where
  file_proc_ok file_proc_error : FileProcStatus

pub data FilenameStatus : Type 0 where
  filename_valid filename_error : FilenameStatus

abbrev pub BmpHeader : Type 0
BmpHeader = Bmp.BmpHeader

abbrev pub calc_padding : ℕ → ℕ
calc_padding = Bmp.calc_padding

abbrev pub create_bmp_header : Picture → BmpHeader
create_bmp_header = Bmp.create_bmp_header

abbrev pub from_bmp : Malloc → Bmp.Input → Option Bmp.ReadBmp
from_bmp = Bmp.from_bmp

abbrev pub to_bmp : Bmp.Output → Picture → Bmp.Written
to_bmp = Bmp.to_bmp

-- `none` is a null dereference.
unfoldable pub init_image : Malloc → (width height : ℕ) → Option Picture
init_image mem width height =
    if mem.has_image
    then some (record {
      width = width;
      height = height;
      pixels = mem.pixels (mul_size (mul_size pixel_size width) height);
    })
    else none

-- The two loops copy in the way of the macro `ROATATE`, with the index of the target.
unfoldable pub copy_image : Malloc → Picture → Option Picture
copy_image mem source = do
  result ← init_image mem source.width source.height
  rotate source (λ i j. add_size (mul_size i result.width) j) result

-- Frees images and then goes on. `free` of a field that is not set is a fault, which is `none`.
abbrev pub clear_images_memory {ℓ} : {A : Type ℓ} → List (Option Picture) → Option A → Option A
clear_images_memory [] then' = then'
clear_images_memory (none ∷ images) then' = none
clear_images_memory (some img ∷ images) then' = clear_images_memory images then'

abbrev pub read_status_names : ReadBmpStatus → String
read_status_names read_ok = "READ_BMP_OK"
read_status_names invalid_signature = "READ_BMP_INVALID_SIGNATURE"
read_status_names invalid_bits = "READ_BMP_INVALID_BITS"
read_status_names invalid_header = "READ_BMP_INVALID_HEADER"
read_status_names not_enough_memory = "READ_BMP_NO_ENOUGH_MEMORY"

abbrev pub write_status_names : WriteBmpStatus → String
write_status_names write_bmp_ok = "WRITE_OK"
write_status_names write_bmp_error = "WRITE_ERROR"

abbrev pub file_proc_status_names : FileProcStatus → String
file_proc_status_names file_proc_ok = "FILE_PROC_OK"
file_proc_status_names file_proc_error = "FILE_PROC_ERROR"

abbrev pub validate_filename_status_names : FilenameStatus → String
validate_filename_status_names filename_valid = "FILENAME_VALID"
validate_filename_status_names filename_error = "FILENAME_ERROR"

-- Opening gives the bytes of a file, or the room for one.
abbrev pub read_file : Option (List ℕ) → FileProcStatus
read_file none = file_proc_error
read_file (some bytes) = file_proc_ok

abbrev pub write_file : Option ℕ → FileProcStatus
write_file none = file_proc_error
write_file (some room) = file_proc_ok

-- `\ / : * ? < > |`
abbrev pub forbidden_symbols : List ℕ
forbidden_symbols = b'\\' ∷ b'/' ∷ b':' ∷ b'*' ∷ b'?' ∷ b'<' ∷ b'>' ∷ b'|' ∷ []

abbrev pub is_among : List ℕ → ℕ → Bool
is_among [] symb = false
is_among (s ∷ rest) symb = if s == symb then true else is_among rest symb

abbrev pub is_forbidden : ℕ → Bool
is_forbidden symb = is_among forbidden_symbols symb

unfoldable pub check_valid_filename : List ℕ → FilenameStatus
check_valid_filename [] = filename_valid
check_valid_filename (c ∷ filename) =
    if is_forbidden c then filename_error else check_valid_filename filename
