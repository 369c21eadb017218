-- ===== src/Alloc/Blocks/Split.antt =====
-- `split_if_too_big` and the flag that `try_memalloc_existing` clears, against `reserve`.
use low_level_programming.Base.{
  ℕ, ◌+◌, ◌≤◌, ◌<◌, ◌≡◌, refl, inl, inr, Bool, true, false, some, List, ◌∷◌, ◌++◌, arith,
  if◌then◌else◌, ltb, max, Bool-cases,
}
use low_level_programming.Alloc.{Ptr, Header, Cells, State, Cmd, ok, update, ◌>>◌}
use low_level_programming.Alloc.Sizes.{
  size_mod, add_size, sub_size, contents_offset, block_min_capacity, size_from_capacity,
  capacity_from_size,
}
use low_level_programming.Alloc.Chain.{Block, end_of, header_of, Holds, ApartAll}
use low_level_programming.Alloc.Chain.Splice.{SameOutside, Holds-SameOutside}
use low_level_programming.Alloc.Chain.Reserve.{can_split, front_of, back_of, reserve}
use low_level_programming.Alloc.Blocks.{block_splittable, split_if_too_big, set_is_free}
use low_level_programming.Alloc.Blocks.Merge.{with_cell, load-ok, store-ok}

-- Memory behind the split.
abbrev pub split_cells : ℕ → Block → List Block → Cells → Cells
split_cells q b ys c =
    if can_split q b
    then update (update c b.addr (header_of (front_of q b true) (back_of q b ∷ ys)))
        (back_of q b).addr (header_of (back_of q b) ys)
    else c

module _ (q : ℕ) (b : Block) (ys : List Block) (small : q + 41 < size_mod) (pos : 0 < b.addr)
    (fit : end_of b < size_mod) where
  splittable-eq-can_split : block_splittable (header_of b ys) q ≡ can_split q b
  splittable-eq-can_split = ground arith

  -- The numbers that the code computes for the two parts, with no wrap.
  request-eq-max :
      (if ltb q block_min_capacity then block_min_capacity else q) ≡ max q block_min_capacity
  request-eq-max = ground arith

  room : can_split q b ≡ true → max q block_min_capacity + contents_offset ≤ b.capacity
  room e = ground arith

  front_capacity :
      can_split q b ≡ true
      → capacity_from_size (size_from_capacity (max q block_min_capacity))
        ≡ max q block_min_capacity
  front_capacity e = omega (arith, room e)

  back_addr :
      can_split q b ≡ true
      → add_size b.addr (size_from_capacity (max q block_min_capacity)) ≡ (back_of q b).addr
  back_addr e = omega (arith, room e)

  back_capacity :
      can_split q b ≡ true
      → capacity_from_size
          (sub_size (size_from_capacity b.capacity) (size_from_capacity (max q block_min_capacity)))
        ≡ (back_of q b).capacity
  back_capacity e = omega (arith, room e)

  pub split_if_too_big-ok :
      (s : State)
      → s.cell b.addr ≡ some (header_of b ys)
      → split_if_too_big b.addr q s ≡ ok (can_split q b) (with_cell s (split_cells q b ys s.cell))
  unfolding split_if_too_big
  split_if_too_big-ok s k =
      rw (load-ok b.addr (header_of b ys) s pos k, splittable-eq-can_split)
        (elim (Bool-cases (can_split q b)) [
          | inl e ↦
              rw
                (
                  e,
                  request-eq-max,
                  back_addr e,
                  store-ok b.addr _ s pos,
                  store-ok (back_of q b).addr _ _ (omega arith),
                  front_capacity e,
                  back_capacity e,
                )
                refl
          | inr e ↦ rw e refl
        ])

-- `block->is_free = f`
pub set_is_free-ok :
    (p : Ptr) (h : Header) (f : Bool) (s : State)
    → 0 < p
    → s.cell p ≡ some h
    → set_is_free p f s ≡ ok tt (with_cell s (update s.cell p (record h { is_free = f })))
set_is_free-ok p h f s pos k = rw (load-ok p h s pos k, store-ok p _ s pos) refl

-- Memory behind the split and the write of the flag.
abbrev pub reserve_cells : ℕ → Block → List Block → Cells → Cells
reserve_cells q b ys c =
    if can_split q b
    then update (split_cells q b ys c) b.addr (header_of (front_of q b false) (back_of q b ∷ ys))
    else update c b.addr (header_of (record b { is_free = false }) ys)

module _ (q : ℕ) (b : Block) (ys : List Block) (small : q + 41 < size_mod) (pos : 0 < b.addr)
    (fit : end_of b < size_mod) where
  -- The two calls of `try_memalloc_existing` at the block that the search has found.
  pub reserve-ok :
      {A : Type 0} (next : Cmd A) (s : State)
      → s.cell b.addr ≡ some (header_of b ys)
      → (split_if_too_big b.addr q >> (set_is_free b.addr false >> next)) s
        ≡ next (with_cell s (reserve_cells q b ys s.cell))
  reserve-ok next s k =
      rw (split_if_too_big-ok q b ys small pos fit s k) (elim (Bool-cases (can_split q b)) [
        | inl e ↦
            let s' : State = with_cell s (split_cells q b ys s.cell) in
            let k' : s'.cell b.addr ≡ some (header_of (front_of q b true) (back_of q b ∷ ys)) =
              ground arith in
            rw (set_is_free-ok b.addr _ false s' pos k', e) refl
        | inr e ↦
            let s' : State = with_cell s (split_cells q b ys s.cell) in
            let k' : s'.cell b.addr ≡ some (header_of b ys) = rw e k in
            rw (set_is_free-ok b.addr _ false s' pos k', e) refl
      ])

  pub reserve_cells-SameOutside : (c : Cells) → SameOutside b c (reserve_cells q b ys c)
  reserve_cells-SameOutside c a out = ground arith

  pub Holds-reserve_cells :
      (c : Cells)
      → ApartAll b ys
      → Holds c ys
      → Holds (reserve_cells q b ys c) (reserve q b false ++ ys)
  Holds-reserve_cells c apart k =
      let rest =
        Holds-SameOutside b ys c (reserve_cells q b ys c) (reserve_cells-SameOutside c) apart k in
      elim (Bool-cases (can_split q b)) [
        | inl e ↦ rw e (ground arith, (ground arith, rw e at rest))
        | inr e ↦ rw e (ground arith, rw e at rest)
      ]
