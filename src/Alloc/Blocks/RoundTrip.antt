-- ===== src/Alloc/Blocks/RoundTrip.antt =====
-- A request that is served and given back.
use low_level_programming.Base.{
  ℕ, ◌+◌, ◌<◌, ◌≡◌, refl, sym, inl, inr, true, false, List, [], ◌∷◌, ◌++◌, arith, length,
  length-append, if◌then◌else◌, Bool-cases,
}
use low_level_programming.Alloc.{Cells, State, Run, ok, ◌>>=◌}
use low_level_programming.Alloc.Sizes.{size_mod, contents_offset}
use low_level_programming.Alloc.Chain.{Block, Holds, Layout, join, can_join}
use low_level_programming.Alloc.Chain.Coarser.{Coarser, Layout-Coarser, length-Coarser}
use low_level_programming.Alloc.Chain.Scan.{absorb, good, scan, scan-Coarser}
use low_level_programming.Alloc.Chain.Fit.{Fits, Unjoinable, Fits-scan}
use low_level_programming.Alloc.Chain.Reserve.{
  can_split, front_of, back_of, reserve, reserved, reserved-addr,
}
use low_level_programming.Alloc.Blocks.{find_good_or_last, try_memalloc_existing, free}
use low_level_programming.Alloc.Blocks.Merge.{with_cell}
use low_level_programming.Alloc.Blocks.Find.{Scanned}
use low_level_programming.Alloc.Blocks.Split.{reserve_cells}
use low_level_programming.Alloc.Blocks.Take.{
  find_good_or_last-Scanned, try_memalloc-good, Holds-reserve,
}
use low_level_programming.Alloc.Blocks.Free.{freed, free-Freed_at}

abbrev leftover : ℕ → Block → List Block
leftover q b = if can_split q b then back_of q b ∷ [] else []

reserve-eq-cons : (q : ℕ) (b : Block) → reserve q b false ≡ reserved q b ∷ leftover q b
reserve-eq-cons q b = ground arith

absorb-Unjoinable : (b : Block) (ys : List Block) → Unjoinable b ys → absorb b ys ≡ (b, ys)
unfolding absorb
absorb-Unjoinable b [] u = refl
absorb-Unjoinable b (y ∷ ys) u = rw u refl

-- The freed block takes back what was cut off, and no more.
absorb-leftover :
    (q : ℕ) (b : Block) (ys : List Block)
    → b.is_free ≡ true
    → Unjoinable b ys
    → absorb (freed (reserved q b)) (leftover q b ++ ys) ≡ (b, ys)
unfolding absorb
absorb-leftover q b ys free u = elim (Bool-cases (can_split q b)) [
  | inl e ↦
      let back : join (front_of q b true) (back_of q b) ≡ b = ground arith in
      let touches : can_join (front_of q b true) (back_of q b) ≡ true = ground arith in
      rw (e, touches, back) (absorb-Unjoinable b ys u)
  | inr e ↦
      let same : record b { is_free = true } ≡ b = ground arith in
      rw (e, same) (absorb-Unjoinable b ys u)
]

-- The state in which a request of `q` bytes was served and given back.
pub record Restored (bs : List Block) (s : State) (r : Run (Unit {0})) : Type 0 where
  pub cell : Cells
  pub returns : r ≡ ok tt (with_cell s cell)
  pub holds : Holds cell bs

module _ (fuel q : ℕ) (b : Block) (bs : List Block) (s : State) (f : length (b ∷ bs) < fuel)
    (small : q + 41 < size_mod) (k : Holds s.cell (b ∷ bs)) (l : Layout (b ∷ bs)) (xs : List Block)
    (c : Block) (ys : List Block) (e : scan q (b ∷ bs) ≡ good xs c ys) where
  fits : Fits q (good xs c ys)
  fits = rw e at (Fits-scan q (b ∷ bs))

  joined : Coarser (b ∷ bs) (xs ++ c ∷ ys)
  joined = rw e at (scan-Coarser q (b ∷ bs))

  searched : Scanned b.addr q (b ∷ bs) s (good xs c ys) (find_good_or_last fuel b.addr q s)
  searched = rw e at (find_good_or_last-Scanned fuel q b bs s f k l)

  fuel_left : length (leftover q c ++ ys) < fuel
  fuel_left =
      ground
        (arith, length-Coarser joined, length-append xs (c ∷ ys), length-append (leftover q c) ys)

  -- If the search for a block of `q` bytes ends at `c`, then a request of `q` bytes followed by
  -- `_free` of what it returned ends without a fault, and memory again holds the list in which the
  -- search found `c`: what was cut off is joined again, and nothing else.
  pub free-try_memalloc_existing :
      Restored
        (xs ++ c ∷ ys)
        s
        ((try_memalloc_existing fuel q b.addr >>= λ r. free fuel (r.block + contents_offset)) s)
  free-try_memalloc_existing =
      let l' = Layout-Coarser joined l in
      let s' : State = with_cell s searched.cell in
      let new = Holds-reserve q xs c ys searched.cell small searched.holds l' in
      let u = reserved q c in
      let zs = leftover q c ++ ys in
      let new_list : xs ++ (reserve q c false ++ ys) ≡ xs ++ u ∷ zs =
        rw (reserve-eq-cons q c) refl in
      let s'' : State = with_cell s (reserve_cells q c ys searched.cell) in
      let k'' : Holds s''.cell (xs ++ u ∷ zs) = rw new_list at new.0 in
      let l'' : Layout (xs ++ u ∷ zs) = rw new_list at new.1 in
      let given =
        free-Freed_at xs u zs l'' fuel c.addr s'' (sym (reserved-addr q c)) fuel_left k'' in
      let back = absorb-leftover q c ys fits.0 fits.3 in
      record {
        cell = given.cell;
        returns =
            rw
              (try_memalloc-good fuel q b.addr xs c ys s s' small searched.returns searched.holds
                l')
              given.returns;
        holds = rw back at given.holds;
      }
