-- ===== src/Image/Tester.antt =====
-- The comparison tool of `Image Rotation C/tester`: `src/file_cmp.c`, `src/bmp.c`, `src/main.c` and
-- `src/util.c`.
pub mod FileCmp
pub mod BmpCmp
mod Tests
use Prim.Native.String.{String}
use low_level_programming.Base.{
  ℕ, zero, suc, ◌+◌, ◌-◌, ◌*◌, ◌%◌, ◌^◌, Bool, true, false, not, ◌&&◌, ◌||◌, Option, none, some,
  List, [], ◌∷◌, ◌++◌, min, ltb, leb, ◌==◌, if◌then◌else◌, length, take, drop, get_elem?,
}
use low_level_programming.Image.Bmp.{field, bi_header_size}

-- `enum cmp_result`
pub data CmpResult : Type 0 where
  cmp_eq cmp_diff cmp_error : CmpResult

-- `enum cmp_interm_result`
pub data Interm : Type 0 where
  int_eq int_diff int_error int_undef : Interm

abbrev pub cmp_buffer_size : ℕ
cmp_buffer_size = 4096 * 2

-- `memcmp` of two arrays of one size is 0.
abbrev pub same_bytes : List ℕ → List ℕ → Bool
same_bytes [] [] = true
same_bytes (a ∷ as') (b ∷ bs) = a == b && same_bytes as' bs
same_bytes as' bs = false

-- The buffers hold the bytes that were read.
unfoldable pub cmp_chunk : (buf1 buf2 : List ℕ) (buf_size : ℕ) → Interm
cmp_chunk buf1 buf2 buf_size =
    if length buf1 == length buf2
    then if not (same_bytes buf1 buf2)
      then int_diff
      else if length buf1 == buf_size
      then int_undef
      else int_eq
    else int_diff

-- The outcome of `file_cmp`, and what is left of the two files.
pub record Compared : Type 0 where
  pub result : CmpResult
  pub rest1 : List ℕ
  pub rest2 : List ℕ

abbrev pub compared : CmpResult → List ℕ → List ℕ → Compared
compared r f1 f2 = record { result = r; rest1 = f1; rest2 = f2 }

-- The loop of `file_cmp`. A file is the bytes from its position on; `none` is the end of the fuel.
unfoldable pub cmp_loop : (fuel : ℕ) (f1 f2 : List ℕ) (sz : ℕ) → Option Compared
cmp_loop zero f1 f2 sz = none
cmp_loop (suc fuel) f1 f2 sz =
    if sz == 0
    then some (compared cmp_eq f1 f2)
    else let chunk_size = min cmp_buffer_size sz in
      elim (cmp_chunk (take chunk_size f1) (take chunk_size f2) cmp_buffer_size) [
        | int_eq ↦ some (compared cmp_eq (drop chunk_size f1) (drop chunk_size f2))
        | int_diff ↦ some (compared cmp_diff (drop chunk_size f1) (drop chunk_size f2))
        | int_error ↦ some (compared cmp_error (drop chunk_size f1) (drop chunk_size f2))
        | int_undef ↦ cmp_loop fuel (drop chunk_size f1) (drop chunk_size f2) (sz - cmp_buffer_size)
      ]

-- Each round that goes on takes bytes off `sz`.
unfoldable pub file_cmp : (f1 f2 : List ℕ) (sz : ℕ) → Option Compared
file_cmp f1 f2 sz = cmp_loop (sz + 1) f1 f2 sz

-- `enum bmp_compare_status`
pub data BmpCompareStatus : Type 0 where
  bmp_cmp_equals bmp_cmp_diff bmp_cmp_file_error bmp_cmp_dimensions_differ bmp_cmp_invalid_format
        bmp_cmp_out_of_memory bmp_cmp_invalid_argument :
      BmpCompareStatus

abbrev pub code_of : BmpCompareStatus → ℕ
code_of bmp_cmp_equals = 0
code_of bmp_cmp_diff = 1
code_of bmp_cmp_file_error = 2
code_of bmp_cmp_dimensions_differ = 3
code_of bmp_cmp_invalid_format = 4
code_of bmp_cmp_out_of_memory = 5
code_of bmp_cmp_invalid_argument = 6

-- `none` is a null pointer.
abbrev pub bmp_cmp_error_msg : BmpCompareStatus → Option String
bmp_cmp_error_msg bmp_cmp_equals = some "BMP files are similar"
bmp_cmp_error_msg bmp_cmp_diff = some "Read from BMP file successful"
bmp_cmp_error_msg bmp_cmp_file_error = some "Invalid BMP file"
bmp_cmp_error_msg bmp_cmp_dimensions_differ = some "BMP files have different dimensions"
bmp_cmp_error_msg bmp_cmp_invalid_format = some "Invalid BMP file format"
bmp_cmp_error_msg bmp_cmp_out_of_memory = none
bmp_cmp_error_msg bmp_cmp_invalid_argument =
    some "Internal error while reading BMP file: invalid argument"

-- The fields of `struct header` that are read.
pub record Header : Type 0 where
  pub bf_type0 : ℕ
  pub bf_type1 : ℕ
  pub bi_width : ℕ
  pub bi_height : ℕ
  pub bi_bit_count : ℕ

abbrev pub header_of : List ℕ → Header
header_of bs = record {
  bf_type0 = field 0 1 bs;
  bf_type1 = field 1 1 bs;
  bi_width = field 18 4 bs;
  bi_height = field 22 4 bs;
  bi_bit_count = field 28 2 bs;
}

abbrev pub get_padding : ℕ → ℕ
get_padding width = width % 4

abbrev pub header_is_correct : Header → Bool
header_is_correct h =
    if not (h.bf_type0 == b'B') || not (h.bf_type1 == b'M') then false else h.bi_bit_count == 24

-- The loop of `bmp_cmp`, by the rounds left. A seek beyond the end of a file does not fail.
unfoldable pub rows_cmp : (left width : ℕ) (f1 f2 : List ℕ) → Option BmpCompareStatus
rows_cmp zero width f1 f2 = some bmp_cmp_equals
rows_cmp (suc left) width f1 f2 = elim (file_cmp f1 f2 (width * 3 % 2 ^ 32)) [
  | none ↦ none
  | some c ↦ elim c.result [
    | cmp_diff ↦ some bmp_cmp_diff
    | cmp_error ↦ some bmp_cmp_file_error
    | cmp_eq ↦
        rows_cmp left width (drop (get_padding width) c.rest1) (drop (get_padding width) c.rest2)
  ]
]

-- `bmp_cmp` once both headers have been read.
unfoldable pub bodies_cmp : (h1 h2 : Header) (f1 f2 : List ℕ) → Option BmpCompareStatus
bodies_cmp h1 h2 f1 f2 =
    if not (h1.bi_width == h2.bi_width) || not (h1.bi_height == h2.bi_height)
    then some bmp_cmp_dimensions_differ
    else rows_cmp h1.bi_height h1.bi_width f1 f2

-- A header that is read and correct.
abbrev pub read_header : List ℕ → Option Header
read_header f =
    if leb bi_header_size (length f) && header_is_correct (header_of (take bi_header_size f))
    then some (header_of (take bi_header_size f))
    else none

unfoldable pub bmp_cmp : (f1 f2 : List ℕ) → Option BmpCompareStatus
bmp_cmp f1 f2 = elim (read_header f1) [
  | none ↦ some bmp_cmp_file_error
  | some h1 ↦ elim (read_header f2) [
    | none ↦ some bmp_cmp_invalid_format
    | some h2 ↦ bodies_cmp h1 h2 (drop bi_header_size f1) (drop bi_header_size f2)
  ]
]

-- How the tool ends: its exit code and what it has printed.
pub record Exit : Type 0 where
  pub code : ℕ
  pub stderr : List String

abbrev pub exit : ℕ → List String → Option Exit
exit c messages = some (record { code = c; stderr = messages })

abbrev pub usage : List String
usage = "Usage: ./image-transformer BMP_FILE_NAME1 BMP_FILE_NAME2\n" ∷ []

-- `err` prints its message, and the program exits with 1.
abbrev pub err : List String → String → Option Exit
err before_it msg = exit 1 (before_it ++ msg ∷ [])

-- Without an argument `fopen` is given a null pointer: a fault, `none`.
abbrev pub fopen {ℓ} :
    {A : Type ℓ}
    → (List ℕ → Option (List ℕ))
    → Option (List ℕ)
    → (Option (List ℕ) → Option A)
    → Option A
fopen open_read none then' = none
fopen open_read (some name) then' = then' (open_read name)

abbrev pub message : BmpCompareStatus → Option (List String)
message s = elim (bmp_cmp_error_msg s) [ none ↦ none | some m ↦ some (m ∷ "\n" ∷ []) ]

abbrev pub verdict : List String → Option BmpCompareStatus → Option Exit
verdict said none = none
verdict said (some bmp_cmp_equals) = exit 0 said
verdict said (some s) = elim (message s) [ none ↦ none | some m ↦ exit (code_of s) (said ++ m) ]

-- The arguments with the name of the program; opening a file to read is a parameter.
unfoldable pub main : (List ℕ → Option (List ℕ)) → List (List ℕ) → Option Exit
main open_read argv =
    let said = if length argv == 3 then [] else usage in
    fopen open_read (get_elem? argv 1) λ opened1. elim opened1 [
      | none ↦ err said "Bad first input file\n"
      | some f1 ↦ fopen open_read (get_elem? argv 2) λ opened2. elim opened2 [
        | none ↦ err said "Bad second input file\n"
        | some f2 ↦ verdict said (bmp_cmp f1 f2)
      ]
    ]
