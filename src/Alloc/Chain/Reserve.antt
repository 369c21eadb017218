-- ===== src/Alloc/Chain/Reserve.antt =====
-- Taking a block for a request: what it becomes.
use mathlib.Core.Path.{subst}
use low_level_programming.Base.{
  ℕ, ◌+◌, ◌-◌, ◌≤◌, ◌<◌, ◌≡◌, inl, inr, Bool, true, false, ◌&&◌, List, [], ◌∷◌, arith,
  if◌then◌else◌, leb, max, Bool-cases, length,
}
use low_level_programming.Alloc.Sizes.{size_mod, contents_offset, block_min_capacity}
use low_level_programming.Alloc.Chain.{Block, block_at, end_of, first, Layout, total, taken}
use low_level_programming.Alloc.{Ptr}
use low_level_programming.Alloc.Chain.Paged.{OnPages, Tiles}
use low_level_programming.Alloc.Chain.Splice.{InsideAll}

abbrev pub can_split : ℕ → Block → Bool
can_split q b = b.is_free && leb (q + contents_offset + block_min_capacity) b.capacity

abbrev pub front_of : ℕ → Block → Bool → Block
front_of q b f = block_at b.addr (max q block_min_capacity) f

abbrev pub back_of : ℕ → Block → Block
back_of q b =
    block_at (b.addr + contents_offset + max q block_min_capacity)
      (b.capacity - (contents_offset + max q block_min_capacity)) true

-- The block with its state set to `f`, cut to the request where the rest can be a block.
abbrev pub reserve : ℕ → Block → Bool → List Block
reserve q b f =
    if can_split q b then front_of q b f ∷ back_of q b ∷ [] else (record b { is_free = f }) ∷ []

-- The block that serves the request.
abbrev pub reserved : ℕ → Block → Block
reserved q b = if can_split q b then front_of q b false else record b { is_free = false }

module _ (q : ℕ) (b : Block) where
  pub reserve-InsideAll : (f : Bool) → InsideAll b (reserve q b f)
  reserve-InsideAll f = elim (Bool-cases (can_split q b)) [
    | inl e ↦ rw e (ground arith, (ground arith, tt))
    | inr e ↦ rw e (omega arith, tt)
  ]

  pub reserve-Tiles : (f : Bool) → Tiles b (reserve q b f)
  reserve-Tiles f page e ys h = elim (Bool-cases (can_split q b)) [
    | inl c ↦
        let behind : end_of b ≡ end_of (back_of q b) = ground arith in
        rw c (h.0, (inr (ground arith), subst (λ (p : Ptr). OnPages page p ys) behind h.1))
    | inr c ↦ rw c h
  ]

  pub Layout-reserve : (f : Bool) → 0 < b.addr → end_of b < size_mod → Layout (reserve q b f)
  Layout-reserve f pos fit = elim (Bool-cases (can_split q b)) [
    | inl e ↦ rw e (pos, ground arith, (ground arith, tt), (ground arith, ground arith, tt, tt))
    | inr e ↦ rw e (pos, fit, tt, tt)
  ]

  pub total-reserve : (f : Bool) → total (reserve q b f) ≡ total (b ∷ [])
  total-reserve f = ground arith

  pub taken-reserve : taken (reserve q b false) ≡ reserved q b ∷ []
  taken-reserve = ground arith

  pub reserved-is_free : (reserved q b).is_free ≡ false
  reserved-is_free = ground arith

  pub reserved-addr : (reserved q b).addr ≡ b.addr
  reserved-addr = ground arith

  -- The request fits.
  pub le-reserved : q ≤ b.capacity → q ≤ (reserved q b).capacity
  le-reserved h = ground arith

  pub first-reserve : (f : Bool) → first (reserve q b f) ≡ b.addr
  first-reserve f = ground arith

  pub length-reserve : (f : Bool) → length (reserve q b f) ≤ 2
  length-reserve f = ground arith
