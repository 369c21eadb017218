-- ===== src/Sepia/Program/Runs.antt =====
-- A run of the sepia filter on a BMP file.
use low_level_programming.Base.{
  ℕ, zero, suc, ◌+◌, ◌*◌, ◌%◌, ◌^◌, ◌<◌, ◌≡◌, ◌≢◌, refl, Option, none, some, List, map, arith,
  length,
}
use low_level_programming.Image.{Pixel, Malloc}
use low_level_programming.Image.Rotation.{Gives, Small}
use low_level_programming.Image.Bmp.Save.{bmp_file}
use low_level_programming.Image.Bmp.Load.{bmp_file-read_ok}
use low_level_programming.Sepia.Bitmap.{Picture}
use low_level_programming.Sepia.Float.{Float}
use low_level_programming.Sepia.Simd.Overrun.{simd_filter-overrun}
use low_level_programming.Sepia.Filter.{sepia, filter_c, filter_asm}
use low_level_programming.Sepia.Filter.Channels.{filter_c-map, copied}
use low_level_programming.Sepia.Program.{Memory, iterate, transform, open_targets, load, main}

iterate-some :
    (filter : Malloc → Option Picture) (mem : ℕ → Malloc) (out : Picture)
    → ((k : ℕ) → filter (mem k) ≡ some out)
    → (left k : ℕ) (last : Option Picture) → iterate filter mem (suc left) k last ≡ some out
unfolding iterate
iterate-some filter mem out all zero k last = rw (iterate, all k) refl
iterate-some filter mem out all (suc left) k last =
    rw (iterate, all k) (iterate-some filter mem out all left (k + 1) (some out))

iterate-none :
    (filter : Malloc → Option Picture) (mem : ℕ → Malloc) (left k : ℕ) (last : Option Picture)
    → filter (mem k) ≡ none
    → iterate filter mem (suc left) k last ≡ none
unfolding iterate
iterate-none filter mem left k last e = rw (iterate, e) refl

abbrev pub with_pixels : Picture → List Pixel → Picture
with_pixels img px = record img { pixels = some px }

module _ (float : Float) (mem : Memory) (img : Picture) (px : List Pixel)
    (stored : img.pixels ≡ some px) (size : length px ≡ img.height * img.width)
    (few : 3 * length px < 2 ^ 63) (narrow : img.width < 2 ^ 32) (low : img.height < 2 ^ 32)
    (gives : Gives mem.first (img.height * img.width))
    (gives_c : (k : ℕ) → Gives (mem.c_rounds k) (img.height * img.width))
    (gives_asm : (k : ℕ) → Gives (mem.asm_rounds k) (img.height * img.width)) where
  small : Small img.width img.height
  small = record {
    area = omega (arith, size, few);
    row = omega (arith, narrow);
    column = omega (arith, low);
  }

  pub filter_asm-none :
      (m : Malloc) → Gives m (img.height * img.width) → filter_asm float m img ≡ none
  unfolding filter_asm
  filter_asm-none m g =
      rw
        (
          copied float m img px stored size small g,
          stored,
          (simd_filter-overrun float img.height img.width px size few).0,
        )
        refl

  -- Once a BMP image whose width 4 does not divide has been loaded and both targets opened, the
  -- loop that runs the filter in C ends with the sepia image, and the first round of the loop that
  -- runs the filter in assembly accesses memory behind the array.
  pub main-overrun :
      (again : List ℕ) (room1 room2 : ℕ)
      → img.width % 4 ≢ 0
      → (iterate (λ m. filter_c float m img) mem.c_rounds 500 0 none
          ≡ some (with_pixels img (map (sepia float) px)))
        × (main float mem (record {
          in_file = some (bmp_file img px);
          src = some again;
          out_file1 = some room1;
          out_file2 = some room2;
        })
            ≡ none)
  unfolding main load open_targets transform
  main-overrun again room1 room2 odd =
      let c =
        iterate-some (λ m. filter_c float m img) mem.c_rounds
          (with_pixels img (map (sepia float) px))
          (λ k. filter_c-map float (mem.c_rounds k) img px stored size small (gives_c k)) 499 0
          none in
      let asm : iterate (λ m. filter_asm float m img) mem.asm_rounds 500 0 none ≡ none =
        iterate-none (λ m. filter_asm float m img) mem.asm_rounds 499 0 none
          (filter_asm-none (mem.asm_rounds 0) (gives_asm 0)) in
      let read = bmp_file-read_ok mem.first img px stored size (omega arith) narrow low odd gives in
      (c, rw (load, read, open_targets, transform, c, asm) refl)
