-- ===== src/Image/Bmp.antt =====
-- BMP files of `Image Rotation C/solution`: `include/bmp.h` and `src/serialization.c`.
pub mod Header
pub mod Writer
pub mod Save
pub mod Reader
pub mod Load
pub mod Bounds
mod Tests
use low_level_programming.Base.{
  ℕ, zero, suc, ◌+◌, ◌-◌, ◌*◌, ◌/◌, ◌%◌, ◌^◌, Option, none, some, List, [], ◌∷◌, ◌++◌, ltb, leb,
  ◌==◌, not, if◌then◌else◌, length, set, take, drop,
}
use low_level_programming.Base.Words.{add_size, mul_size}
use low_level_programming.Image.{Pixel, Image, Malloc, pixel_size, accessible}

-- `struct bmp_header`
pub record BmpHeader : Type 0 where
  pub bf_type : ℕ
  pub bfile_size : ℕ
  pub bf_reserved : ℕ
  pub b_off_bits : ℕ
  pub bi_size : ℕ
  pub bi_width : ℕ
  pub bi_height : ℕ
  pub bi_planes : ℕ
  pub bi_bit_count : ℕ
  pub bi_compression : ℕ
  pub bi_size_image : ℕ
  pub bi_x_pels_per_meter : ℕ
  pub bi_y_pels_per_meter : ℕ
  pub bi_clr_used : ℕ
  pub bi_clr_important : ℕ

-- The bytes of an unsigned integer of `n` bytes, the lowest first, and back.
abbrev pub little_endian : ℕ → ℕ → List ℕ
little_endian zero x = []
little_endian (suc n) x = x % 256 ∷ little_endian n (x / 256)

abbrev pub of_little_endian : List ℕ → ℕ
of_little_endian [] = 0
of_little_endian (b ∷ bs) = b + 256 * of_little_endian bs

-- The packed struct in memory.
abbrev pub header_bytes : BmpHeader → List ℕ
header_bytes h =
    little_endian 2 h.bf_type
    ++ little_endian 4 h.bfile_size
    ++ little_endian 4 h.bf_reserved
    ++ little_endian 4 h.b_off_bits
    ++ little_endian 4 h.bi_size
    ++ little_endian 4 h.bi_width
    ++ little_endian 4 h.bi_height
    ++ little_endian 2 h.bi_planes
    ++ little_endian 2 h.bi_bit_count
    ++ little_endian 4 h.bi_compression
    ++ little_endian 4 h.bi_size_image
    ++ little_endian 4 h.bi_x_pels_per_meter
    ++ little_endian 4 h.bi_y_pels_per_meter
    ++ little_endian 4 h.bi_clr_used
    ++ little_endian 4 h.bi_clr_important

abbrev pub field : ℕ → ℕ → List ℕ → ℕ
field offset n bytes = of_little_endian (take n (drop offset bytes))

abbrev pub header_of_bytes : List ℕ → BmpHeader
header_of_bytes bs = record {
  bf_type = field 0 2 bs;
  bfile_size = field 2 4 bs;
  bf_reserved = field 6 4 bs;
  b_off_bits = field 10 4 bs;
  bi_size = field 14 4 bs;
  bi_width = field 18 4 bs;
  bi_height = field 22 4 bs;
  bi_planes = field 26 2 bs;
  bi_bit_count = field 28 2 bs;
  bi_compression = field 30 4 bs;
  bi_size_image = field 34 4 bs;
  bi_x_pels_per_meter = field 38 4 bs;
  bi_y_pels_per_meter = field 42 4 bs;
  bi_clr_used = field 46 4 bs;
  bi_clr_important = field 50 4 bs;
}

-- `sizeof(bmp_header)`
abbrev pub bi_header_size : ℕ
bi_header_size = 54

abbrev pub bmp_type : ℕ
bmp_type = 0x4D42

abbrev pub calc_padding : ℕ → ℕ
calc_padding width = 4 - mul_size width pixel_size % 4

abbrev pub create_bmp_header : Image → BmpHeader
create_bmp_header img =
    let row_size = mul_size img.width pixel_size in
    let data_size = mul_size (add_size row_size (calc_padding img.width)) img.height in
    record {
      bf_type = bmp_type;
      bfile_size = add_size data_size bi_header_size % 2 ^ 32;
      bf_reserved = 0;
      b_off_bits = bi_header_size;
      bi_size = 40;
      bi_width = img.width % 2 ^ 32;
      bi_height = img.height % 2 ^ 32;
      bi_planes = 1;
      bi_bit_count = 24;
      bi_compression = 0;
      bi_size_image = data_size % 2 ^ 32;
      bi_x_pels_per_meter = 2835;
      bi_y_pels_per_meter = 2835;
      bi_clr_used = 0;
      bi_clr_important = 0;
    }

-- A file that is read: its bytes, and those from the position on.
pub record Input : Type 0 where
  pub file : List ℕ
  pub rest : List ℕ

abbrev pub input : List ℕ → List ℕ → Input
input file rest = record { file = file; rest = rest }

pub data ReadStatus : Type 0 where
  read_ok invalid_signature invalid_bits invalid_header not_enough_memory : ReadStatus

-- How a loop of `from_bmp` ends: with a write outside of `data`, with too few bytes, or with the
-- pixels read so far, in front of the bytes that are left.
pub data Pixels : Type 0 where
  overrun : Pixels
  cut_short : (data' : List Pixel) → Pixels
  read_to : (curr_pixel : ℕ) (data' : List Pixel) (rest : List ℕ) → Pixels

-- The inner and the outer loop of `from_bmp`, by the rounds left.
unfoldable pub read_row : (left curr_pixel : ℕ) → List Pixel → List ℕ → Pixels
read_row zero k buf rest = read_to k buf rest
read_row (suc left) k buf (b ∷ g ∷ r ∷ rest) =
    if ltb k (length buf)
    then read_row left (add_size k 1) (set buf k (record { b = b; g = g; r = r })) rest
    else overrun
read_row (suc left) k buf rest = cut_short buf

module _ (width padding : ℕ) where
  unfoldable pub read_rows : (left curr_pixel : ℕ) → List Pixel → List ℕ → Pixels
  read_rows zero k buf rest = read_to k buf rest
  read_rows (suc left) k buf rest = elim (read_row width k buf rest) [
    | overrun ↦ overrun
    | cut_short buf' ↦ cut_short buf'
    | read_to k' buf' rest' ↦ read_rows left k' buf' (drop padding rest')
  ]

-- What `from_bmp` returns, and the image, unless its fields are not set.
pub record ReadBmp : Type 0 where
  pub status : ReadStatus
  pub image : Option Image

abbrev pub read_bmp : ReadStatus → Option Image → Option ReadBmp
read_bmp s i = some (record { status = s; image = i })

abbrev pub image_of : ℕ → ℕ → Option (List Pixel) → Image
image_of w h px = record { width = w; height = h; pixels = px }

abbrev pub finish : ℕ → ℕ → Pixels → Option ReadBmp
finish w h overrun = none
finish w h (cut_short buf) = read_bmp invalid_bits (some (image_of w h (some buf)))
finish w h (read_to k buf rest) = read_bmp read_ok (some (image_of w h (some buf)))

-- `from_bmp` behind its first `fread`. The seek to `bOffBits` may go beyond the end of the file.
abbrev pub read_image : Malloc → BmpHeader → Input → Option ReadBmp
read_image mem header in' =
    if not (header.bf_type == bmp_type)
    then read_bmp invalid_signature none
    else elim (mem.pixels (mul_size (mul_size pixel_size header.bi_width) header.bi_height)) [
      | none ↦ read_bmp not_enough_memory (some (image_of header.bi_width header.bi_height none))
      | some buf ↦ finish header.bi_width header.bi_height (
          read_rows header.bi_width (calc_padding header.bi_width) header.bi_height 0 buf
            (drop header.b_off_bits in'.file))
    ]

-- `none` is a fault; one is the call `free(img)`, whose argument is not from `malloc`.
unfoldable pub from_bmp : Malloc → Input → Option ReadBmp
from_bmp mem in' =
    if mem.has_image
    then (if leb bi_header_size (length in'.rest)
        then read_image mem (header_of_bytes (take bi_header_size in'.rest))
            (input in'.file (drop bi_header_size in'.rest))
        else read_bmp invalid_header none)
    else none

-- A file that is written: its bytes, and how many more there is room for.
pub record Output : Type 0 where
  pub written : List ℕ
  pub room : ℕ

abbrev pub output : List ℕ → ℕ → Output
output bs n = record { written = bs; room = n }

-- How writing ends: with a read outside of an array, with WRITE_BMP_ERROR, or with WRITE_BMP_OK.
pub data Written : Type 0 where
  out_of_range : Written
  write_error : Output → Written
  write_ok : Output → Written

-- Writes as much as there is room for, and goes on if that is all. An item of no bytes counts as
-- not written.
abbrev pub fwrite_item : List ℕ → Output → (Output → Written) → Written
fwrite_item [] out then' = write_error out
fwrite_item bs out then' =
    if leb (length bs) out.room
    then then' (output (out.written ++ bs) (out.room - length bs))
    else write_error (output (out.written ++ take out.room bs) 0)

abbrev pub pixel_bytes : List Pixel → List ℕ
pixel_bytes [] = []
pixel_bytes (p ∷ ps) = p.b ∷ p.g ∷ p.r ∷ pixel_bytes ps

abbrev pub zeros : ℕ → List ℕ
zeros zero = []
zeros (suc n) = 0 ∷ zeros n

-- `uint8_t zero_padding[3]`
abbrev pub zero_padding : List ℕ
zero_padding = zeros 3

-- The loop of `to_bmp`, by the rounds left. A row, and the padding, must lie in their arrays.
module _ (px : List Pixel) (width padding : ℕ) where
  unfoldable pub write_rows : (left i : ℕ) → Output → Written
  write_rows zero i out = write_ok out
  write_rows (suc left) i out =
      if leb (mul_size i width + width) (length px)
      then fwrite_item (pixel_bytes (take width (drop (mul_size i width) px))) out (λ out.
        if leb padding (length zero_padding)
        then fwrite_item (take padding zero_padding) out (write_rows left (i + 1))
        else out_of_range)
      else out_of_range

unfoldable pub to_bmp : Output → Image → Written
to_bmp out img =
    fwrite_item (header_bytes (create_bmp_header img)) out
      λ out. write_rows (accessible img.pixels) img.width (calc_padding img.width) img.height 0 out
