-- ===== src/Image/Program/Runs.antt =====
-- Runs of the program from file to file, and where it fails.
use low_level_programming.Base.{
  ℕ, ◌+◌, ◌-◌, ◌*◌, ◌%◌, ◌^◌, ◌≤◌, ◌<◌, ◌≡◌, ◌≢◌, ◌⊎◌, refl, sym, ◌∙◌, inl, inr, true, false,
  Option, none, some, List, [], ◌∷◌, arith, leb, length, get_elem?, take, ◌==◌,
}
use low_level_programming.Base.Words.{size_mod}
use low_level_programming.Image.{Pixel, Image, Malloc, rotate_90}
use low_level_programming.Image.Rotation.{
  Shows, Gives, Small, Returned, rotate_90-Returned, rotate_90_reverse-Returned,
  rotate_180-Returned, copy_image-Returned,
}
use low_level_programming.Image.Bmp.{
  bi_header_size, bmp_type, header_of_bytes, input, from_bmp, ReadStatus, read_ok,
  invalid_signature, invalid_bits, invalid_header, not_enough_memory, read_bmp, output, to_bmp,
  write_ok,
}
use low_level_programming.Image.Bmp.Save.{bmp_file, to_bmp-write_ok}
use low_level_programming.Image.Bmp.Load.{bmp_file-read_ok}
use low_level_programming.Image.Command.{
  ℤ, angle_valid, read_angle, turn, angle_is_allowed, rotation_allowed_angles,
}
use low_level_programming.Image.Command.Turns.{
  quarters, times, is_in-All, turn-times, angle_is_allowed-read_angle,
}
use low_level_programming.Image.Program.{Chars, Files, Exit, exit, save, transform, load, run, main}

-- An image with this array, of as many pixels as it has, and with the sides `w` and `h`, in one
-- order or the other.
pub record Whole (w h : ℕ) (img : Image) : Type 0 where
  pub px : List Pixel
  pub stored : img.pixels ≡ some px
  pub size : length px ≡ img.height * img.width
  pub sides : ((img.width ≡ w) × (img.height ≡ h)) ⊎ ((img.width ≡ h) × (img.height ≡ w))

record Turned (w h : ℕ) (r : Option Image) : Type 0 where
  out : Image
  returns : r ≡ some out
  whole : Whole w h out

Returned-Turned :
    (r : Option Image) (w h : ℕ) (f : ℕ → ℕ → Option Pixel) → Returned r w h f → Turned w h r
Returned-Turned r w h f x = record {
  out = x.out;
  returns = x.returns;
  whole = record {
    px = x.shows.px;
    stored = x.shows.stored;
    size = x.shows.size ∙ sym (rw (x.shows.width, x.shows.height) refl);
    sides = inl (x.shows.width, x.shows.height);
  };
}

Turned-swap : (w h : ℕ) (r : Option Image) → Turned h w r → Turned w h r
Turned-swap w h r t = record {
  out = t.out;
  returns = t.returns;
  whole = record {
    px = t.whole.px;
    stored = t.whole.stored;
    size = t.whole.size;
    sides = elim t.whole.sides [ inl e ↦ inr e | inr e ↦ inl e ];
  };
}

module _ (mem : Malloc) (w h : ℕ) (small : Small w h) (gives : Gives mem (h * w)) (img : Image)
    (f : ℕ → ℕ → Option Pixel) (shows : Shows img w h f) where
  turn-Turned : (angle : ℤ) → angle_is_allowed angle ≡ true → Turned w h (turn mem angle img)
  unfolding turn
  turn-Turned angle allowed =
      let once =
        Turned-swap w h _
          (Returned-Turned _ h w _ (rotate_90-Returned mem w h small gives img f shows)) in
      let back =
        Turned-swap w h _
          (Returned-Turned _ h w _ (rotate_90_reverse-Returned mem w h small gives img f shows)) in
      let half = Returned-Turned _ w h _ (rotate_180-Returned mem w h small gives img f shows) in
      let same = Returned-Turned _ w h _ (copy_image-Returned mem w h small gives img f shows) in
      is_in-All (λ a. Turned w h (turn mem a img)) rotation_allowed_angles angle
        (same, (once, (back, (half, (half, (back, (once, tt))))))) allowed

-- The run ends with the exit code 0, prints nothing, and leaves the file of an image.
pub record Rotated (turned : Option Image) (r : Option Exit) : Type 0 where
  pub out : Image
  pub px : List Pixel
  pub is : turned ≡ some out
  pub stored : out.pixels ≡ some px
  pub returns : r ≡ exit 0 [] (some (bmp_file out px))

module _ (mem : Malloc) (strtol : Chars → Option ℤ) (files : Files) (img : Image) (px : List Pixel)
    (stored : img.pixels ≡ some px) (size : length px ≡ img.height * img.width)
    (small : 3 * length px < size_mod) (narrow : img.width < 2 ^ 32) (low : img.height < 2 ^ 32)
    (odd : img.width % 4 ≢ 0) (odd_too : img.height % 4 ≢ 0)
    (gives : Gives mem (img.height * img.width)) where
  pixel_at : ℕ → ℕ → Option Pixel
  pixel_at i j = get_elem? px (i * img.width + j)

  img-Shows : Shows img img.width img.height pixel_at
  unfolding pixel_at
  img-Shows = record {
    px = px;
    stored = stored;
    width = refl;
    height = refl;
    size = size;
    at = λ i j p q. refl;
  }

  img-Small : Small img.width img.height
  img-Small = record {
    area = omega (arith, size, small);
    row = omega (arith, narrow);
    column = omega (arith, low);
  }

  -- What `to_bmp` needs of the rotated image.
  record Savable (room : ℕ) (o : Image) (x : Whole img.width img.height o) : Type 0 where
    few : 3 * length x.px < size_mod
    row : 3 * o.width + 3 < size_mod
    odd_width : o.width % 4 ≢ 0
    space : bi_header_size + o.height * (3 * o.width + o.width % 4) ≤ room

  module _ (room : ℕ) (fits : bi_header_size + img.height * (3 * img.width + img.width % 4) ≤ room)
      (fits_too : bi_header_size + img.width * (3 * img.height + img.height % 4) ≤ room) (o : Image)
      (x : Whole img.width img.height o) where
    whole-Savable : Savable room o x
    whole-Savable = elim x.sides [
      | inl (w, h) ↦ record {
        few = omega (arith, rw (w, h) at x.size, size, small);
        row = omega (arith, w, narrow);
        odd_width = rw w odd;
        space = rw (w, h) fits;
      }
      | inr (w, h) ↦
          let swap : img.width * img.height ≡ img.height * img.width = omega arith in
          record {
            few = omega (arith, rw (w, h) at x.size, swap, size, small);
            row = omega (arith, w, low);
            odd_width = rw w odd_too;
            space = rw (w, h) fits_too;
          }
    ]

    saved :
        to_bmp (output [] room) o
        ≡ write_ok (output (bmp_file o x.px) (room - length (bmp_file o x.px)))
    saved =
        let s = whole-Savable in
        to_bmp-write_ok o x.px x.stored x.size s.few s.row (output [] room) s.odd_width s.space

  -- A source file that holds a BMP image with sides that 4 does not divide, an angle that is
  -- accepted, and a target that can be written: the program ends with the exit code 0, and the
  -- target is the file of the image after the angle's number of quarter turns. The room on the
  -- device and what `malloc` serves are assumed.
  pub main-Rotated :
      (program source out str_angle : Chars) (rest : List Chars) (angle : ℤ) (room : ℕ)
      → read_angle strtol str_angle ≡ angle_valid angle
      → files.open_read source ≡ some (bmp_file img px)
      → files.open_write out ≡ some room
      → bi_header_size + img.height * (3 * img.width + img.width % 4) ≤ room
      → bi_header_size + img.width * (3 * img.height + img.height % 4) ≤ room
      → Rotated
          (times (quarters angle) (rotate_90 mem) img)
          (main mem strtol files (program ∷ source ∷ out ∷ str_angle ∷ rest))
  unfolding main run load transform save
  main-Rotated program source out str_angle rest angle room accepted opened writable fits fits_too =
      let allowed = angle_is_allowed-read_angle strtol str_angle angle accepted in
      let t =
        turn-Turned mem img.width img.height img-Small gives img pixel_at img-Shows angle allowed in
      let e =
        turn-times mem img.width img.height img-Small gives img pixel_at img-Shows angle allowed in
      let read = bmp_file-read_ok mem img px stored size small narrow low odd gives in
      record {
        out = t.out;
        px = t.whole.px;
        is = sym e ∙ t.returns;
        stored = t.whole.stored;
        returns =
            rw
              (
                accepted,
                run,
                opened,
                load,
                read,
                transform,
                t.returns,
                writable,
                save,
                saved room fits fits_too t.out t.whole,
              )
              refl;
      }

module _ (mem : Malloc) (strtol : Chars → Option ℤ) (files : Files)
    (has : mem.has_image ≡ true) where
  -- A file is no BMP file.
  pub data NoBmp (bytes : List ℕ) : Type 0 where
    too_short : length bytes < bi_header_size → NoBmp bytes
    other_type :
        bi_header_size ≤ length bytes
        → (header_of_bytes (take bi_header_size bytes)).bf_type ≢ bmp_type
        → NoBmp bytes

  from_bmp-NoBmp :
      (bytes : List ℕ)
      → NoBmp bytes
      → (s : ReadStatus) × (from_bmp mem (input bytes bytes) ≡ read_bmp s none) × (s ≢ read_ok)
  unfolding from_bmp
  from_bmp-NoBmp bytes (too_short h) =
      let short : leb bi_header_size (length bytes) ≡ false = ground arith in
      (invalid_header, rw (has, short) refl, λ e. cc e)
  from_bmp-NoBmp bytes (other_type long other) =
      let enough : leb bi_header_size (length bytes) ≡ true = ground arith in
      let differs : ((header_of_bytes (take bi_header_size bytes)).bf_type == bmp_type) ≡ false =
        ground arith in
      (invalid_signature, rw (has, enough, differs) refl, λ e. cc e)

  load-fault :
      (out : Chars) (angle : ℤ) (bytes : List ℕ) (s : ReadStatus)
      → from_bmp mem (input bytes bytes) ≡ read_bmp s none
      → load mem strtol files out angle bytes ≡ none
  unfolding load
  load-fault out angle bytes read_ok e = rw (load, e) refl
  load-fault out angle bytes invalid_signature e = rw (load, e) refl
  load-fault out angle bytes invalid_bits e = rw (load, e) refl
  load-fault out angle bytes invalid_header e = rw (load, e) refl
  load-fault out angle bytes not_enough_memory e = rw (load, e) refl

  -- With arguments that are accepted and a source file that is too short for a header, or that has
  -- another signature, the program ends in a fault: `clear_images_memory` frees the pointer to the
  -- pixels, which `from_bmp` has not set.
  pub main-NoBmp :
      (program source out str_angle : Chars) (rest : List Chars) (angle : ℤ) (bytes : List ℕ)
      → read_angle strtol str_angle ≡ angle_valid angle
      → files.open_read source ≡ some bytes
      → NoBmp bytes
      → main mem strtol files (program ∷ source ∷ out ∷ str_angle ∷ rest) ≡ none
  unfolding main run
  main-NoBmp program source out str_angle rest angle bytes accepted opened bad =
      let (s, read, _) = from_bmp-NoBmp bytes bad in
      rw (main, run, accepted, opened) (load-fault out angle bytes s read)
