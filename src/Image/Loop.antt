-- ===== src/Image/Loop.antt =====
-- The loops of the macro `ROATATE`: no access out of range, and what each pixel becomes.
use low_level_programming.Base.{
  ℕ, zero, suc, ◌+◌, ◌*◌, ◌<◌, ◌≡◌, refl, sym, ap, ◌∙◌, true, Option, some, List, arith, ltb,
  length, get_elem?, set, length-set, get_elem?-set_self, get_elem?-set_ne, get_elem?-lt,
}
use native.Mathlib.Decide.{ℕ_discrete}
use low_level_programming.Base.Words.{size_mod, add_size, mul_size, add_size-eq, mul_size-eq}
use low_level_programming.Image.{Pixel, put_pixel, row_loop, rows_loop}

pub index_lt : (i j width height : ℕ) → i < height → j < width → i * width + j < height * width
index_lt i j width height h k = grind arith

row_lt : (i j k l width : ℕ) → i < k → j < width → i * width + j < k * width + l
row_lt i j k l width h p = grind arith

-- Positions are told apart by their index.
pub index_inj :
    (i j k l width : ℕ) → j < width → l < width → i * width + j ≡ k * width + l → (i ≡ k) × (j ≡ l)
index_inj i j k l width p q e = ground (arith, row_lt i j k l width, row_lt k l i j width)

module _ (source : List Pixel) (width height : ℕ) (index : ℕ → ℕ → ℕ)
    (small : height * width < size_mod)
    (in_range : (i j : ℕ) → i < height → j < width → index i j < length source) where
  -- The pixels before the index `n` are written.
  record Painted (n : ℕ) (buf : List Pixel) : Type 0 where
    pub size : length buf ≡ height * width
    pub pixels :
        (i j : ℕ)
        → j < width
        → i * width + j < n
        → get_elem? buf (i * width + j) ≡ get_elem? source (index i j)

  -- The rounds end, without a fault, with the pixels before the index `n` written.
  record Paints (n : ℕ) (r : Option (List Pixel)) : Type 0 where
    pub out : List Pixel
    pub returns : r ≡ some out
    pub painted : Painted n out

  put-Paints :
      (i j : ℕ) (buf : List Pixel)
      → i < height
      → j < width
      → Painted (i * width + j) buf
      → Paints (i * width + j + 1) (put_pixel source width i j (index i j) buf)
  unfolding put_pixel
  put-Paints i j buf hi hj p =
      let (px, e) = get_elem?-lt source (index i j) (in_range i j hi hj) in
      let lt = index_lt i j width height hi hj in
      let a : add_size (mul_size i width) j ≡ i * width + j =
        rw (
          mul_size-eq i width (omega (arith, lt)),
          add_size-eq (i * width) j (omega (arith, lt)),
        ) in
      let b : ltb (i * width + j) (length buf) ≡ true = ground (arith, p.size) in
      record {
        out = set buf (i * width + j) px;
        returns = rw (e, a, b) refl;
        painted = record {
          size = length-set buf (i * width + j) px ∙ p.size;
          pixels = λ k l hl below. elim (ℕ_discrete (i * width + j) (k * width + l)) [
            | yes same ↦
                let (ei, ej) = index_inj i j k l width hj hl same in
                rw (← ei, ← ej, get_elem?-set_self buf (i * width + j) px (omega (arith, p.size)))
                  (sym e)
            | no other ↦
                get_elem?-set_ne buf (i * width + j) (k * width + l) px other
                ∙ p.pixels k l hl (omega arith)
          ];
        };
      }

  row_loop-Paints :
      (left i j : ℕ) (buf : List Pixel)
      → i < height
      → j + left ≡ width
      → Painted (i * width + j) buf
      → Paints (i * width + width) (row_loop source width index left i j buf)
  unfolding row_loop
  row_loop-Paints zero i j buf hi e p =
      let full : i * width + j ≡ i * width + width = omega arith in
      record { out = buf; returns = refl; painted = rw (← full) p }
  row_loop-Paints (suc left) i j buf hi e p =
      let one = put-Paints i j buf hi (omega arith) p in
      let next : i * width + j + 1 ≡ i * width + (j + 1) = omega arith in
      let rest = row_loop-Paints left i (j + 1) one.out hi (omega arith) (rw next at one.painted) in
      record { out = rest.out; returns = rw one.returns rest.returns; painted = rest.painted }

  rows_loop-Paints :
      (left i : ℕ) (buf : List Pixel)
      → i + left ≡ height
      → Painted (i * width) buf
      → Paints (height * width) (rows_loop source width index left i buf)
  unfolding rows_loop
  rows_loop-Paints zero i buf e p =
      let full : i * width ≡ height * width = ap (λ k. k * width) (omega arith) in
      record { out = buf; returns = refl; painted = rw (← full) p }
  rows_loop-Paints (suc left) i buf e p =
      let start : i * width ≡ i * width + 0 = omega arith in
      let one = row_loop-Paints width i 0 buf (omega arith) (omega arith) (rw start at p) in
      let next : i * width + width ≡ (i + 1) * width = omega arith in
      let rest = rows_loop-Paints left (i + 1) one.out (omega arith) (rw next at one.painted) in
      record { out = rest.out; returns = rw one.returns rest.returns; painted = rest.painted }

  pub record Copied (r : Option (List Pixel)) : Type 0 where
    pub out : List Pixel
    pub returns : r ≡ some out
    pub size : length out ≡ height * width
    pub pixels :
        (i j : ℕ)
        → i < height
        → j < width
        → get_elem? out (i * width + j) ≡ get_elem? source (index i j)

  -- The loops write every pixel of an array of `width * height`, from the source's pixel at the
  -- index, with no access out of range.
  pub rows_loop-Copied :
      (buf : List Pixel)
      → length buf ≡ height * width
      → Copied (rows_loop source width index height 0 buf)
  rows_loop-Copied buf size =
      let start : Painted (0 * width) buf = record {
        size = size;
        pixels = λ i j h below. absurd (omega arith);
      } in
      let r = rows_loop-Paints height 0 buf (omega arith) start in
      record {
        out = r.out;
        returns = r.returns;
        size = r.painted.size;
        pixels = λ i j h k. r.painted.pixels i j k (index_lt i j width height h k);
      }
