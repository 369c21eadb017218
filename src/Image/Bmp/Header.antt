-- ===== src/Image/Bmp/Header.antt =====
-- The header of `serialization.c` as bytes, and the padding of a row.
use low_level_programming.Base.{
  ℕ, zero, suc, ◌+◌, ◌/◌, ◌^◌, ◌<◌, ◌≡◌, List, ◌++◌, arith, length, take,
}
use low_level_programming.Image.Bmp.{
  BmpHeader, little_endian, of_little_endian, header_bytes, header_of_bytes, bi_header_size,
}

-- An integer that fits is read back.
pub of_little_endian-little_endian :
    (n x : ℕ) → x < 256 ^ n → of_little_endian (little_endian n x) ≡ x
of_little_endian-little_endian zero x h = omega arith
of_little_endian-little_endian (suc n) x h =
    let e : of_little_endian (little_endian n (x / 256)) ≡ x / 256 =
      of_little_endian-little_endian n (x / 256) (omega arith) in
    rw e (omega arith)

-- The struct takes 54 bytes.
pub length-header_bytes :
    (h : BmpHeader) (bs : List ℕ) → length (header_bytes h ++ bs) ≡ bi_header_size + length bs
length-header_bytes h bs = omega arith

module _ (h : BmpHeader) (bs : List ℕ) where
  pub header-type :
      h.bf_type < 2 ^ 16
      → (header_of_bytes (take bi_header_size (header_bytes h ++ bs))).bf_type ≡ h.bf_type
  header-type p = of_little_endian-little_endian 2 h.bf_type p

  pub header-width :
      h.bi_width < 2 ^ 32
      → (header_of_bytes (take bi_header_size (header_bytes h ++ bs))).bi_width ≡ h.bi_width
  header-width p = of_little_endian-little_endian 4 h.bi_width p

  pub header-height :
      h.bi_height < 2 ^ 32
      → (header_of_bytes (take bi_header_size (header_bytes h ++ bs))).bi_height ≡ h.bi_height
  header-height p = of_little_endian-little_endian 4 h.bi_height p

  pub header-offset :
      h.b_off_bits < 2 ^ 32
      → (header_of_bytes (take bi_header_size (header_bytes h ++ bs))).b_off_bits ≡ h.b_off_bits
  header-offset p = of_little_endian-little_endian 4 h.b_off_bits p
