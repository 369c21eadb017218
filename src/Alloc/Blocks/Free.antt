-- ===== src/Alloc/Blocks/Free.antt =====
-- `_free`, and a request that is served and given back.
use low_level_programming.Base.{
  ℕ, ◌+◌, ◌<◌, ◌≤◌, ◌≡◌, refl, ◌∙◌, true, List, [], ◌∷◌, ◌++◌, arith, length, length-append,
}
use low_level_programming.Alloc.{Ptr, Cells, State, Run, ok, update}
use low_level_programming.Alloc.Sizes.{size_mod, contents_offset}
use low_level_programming.Alloc.Chain.{Block, header_of, Holds, Layout, total, taken}
use low_level_programming.Alloc.Chain.Coarser.{
  Coarser, Coarser-append, Layout-Coarser, total-Coarser, taken-Coarser, length-Coarser,
}
use low_level_programming.Alloc.Chain.Scan.{absorb, absorb-Coarser, absorb-addr}
use low_level_programming.Alloc.Chain.Splice.{
  SameOutside, Holds-drop, Layout-drop, Holds-splice, Layout-splice, Inside-ApartAll, total-append,
  taken-append, first-append,
}
use low_level_programming.Alloc.Chain.Kept.{Kept, Kept-trans, Kept-Coarser, Kept-splice}
use low_level_programming.Alloc.Blocks.{block_get_header, free}
use low_level_programming.Alloc.Blocks.Merge.{with_cell, not_null, Holds-update, merge_loop-Merged}
use low_level_programming.Alloc.Blocks.Split.{set_is_free-ok}

abbrev pub freed : Block → Block
freed b = record b { is_free = true }

-- The list after a block of it is freed.
abbrev pub after_free : List Block → Block → List Block → List Block
after_free xs b ys = let (b', ys') = absorb (freed b) ys in xs ++ b' ∷ ys'

-- What `_free` leaves.
pub record Freed (xs : List Block) (b : Block) (ys : List Block) (s : State) (r : Run (Unit {0}))
    : Type 0 where
  pub cell : Cells
  pub returns : r ≡ ok tt (with_cell s cell)
  pub holds : Holds cell (after_free xs b ys)
  pub layout : Layout (after_free xs b ys)
  pub kept : total (after_free xs b ys) ≡ total (xs ++ b ∷ ys)
  pub in_use : taken (after_free xs b ys) ≡ taken xs ++ taken ys
  pub rest : Kept (xs ++ b ∷ ys) (after_free xs b ys) s.cell cell
  pub shrinks : length (after_free xs b ys) ≤ length (xs ++ b ∷ ys)

-- The header is found again from the pointer that `_malloc` returns.
block_get_header_lem :
    (p : Ptr) → p + contents_offset < size_mod → block_get_header (p + contents_offset) ≡ p
block_get_header_lem p h = omega arith

module _ (xs : List Block) (b : Block) (ys : List Block) where
  joined : Coarser (xs ++ freed b ∷ ys) (after_free xs b ys)
  joined = Coarser-append xs (absorb-Coarser (freed b) ys)

  taken-after_free : taken (after_free xs b ys) ≡ taken xs ++ taken ys
  taken-after_free = taken-Coarser joined ∙ taken-append xs (freed b ∷ ys)

  total-after_free : total (after_free xs b ys) ≡ total (xs ++ b ∷ ys)
  total-after_free =
      omega (arith, total-Coarser joined, total-append xs (freed b ∷ ys), total-append xs (b ∷ ys))

  module _ (l : Layout (xs ++ b ∷ ys)) where
    lb : Layout (b ∷ ys)
    lb = Layout-drop xs (b ∷ ys) l

    Layout-after_free : Layout (after_free xs b ys)
    Layout-after_free =
        Layout-Coarser joined
          (Layout-splice xs b (freed b ∷ []) ys (omega arith, tt) (lb.0, lb.1, tt, tt) l)

    -- `_free` of a block of the list, with more fuel than blocks behind it, ends without a fault.
    -- The block, joined with the free blocks that follow it without a gap, is free; the others
    -- are as before, no byte is lost, and no two blocks overlap.
    pub free-Freed :
        (fuel : ℕ) (s : State)
        → length ys < fuel
        → Holds s.cell (xs ++ b ∷ ys)
        → Freed xs b ys s (free fuel (b.addr + contents_offset) s)
    unfolding free
    free-Freed fuel s f k =
        let kb = Holds-drop s.cell xs (b ∷ ys) k in
        let s' : State = with_cell s (update s.cell b.addr (header_of (freed b) ys)) in
        let set = set_is_free-ok b.addr (header_of b ys) true s lb.0 kb.0 in
        let k' : Holds s'.cell (freed b ∷ ys) =
          (ground arith, Holds-update s.cell b _ ys lb.2 kb.1) in
        let l' : Layout (freed b ∷ ys) =
          (lb.0, lb.1, Inside-ApartAll b (freed b) ys (omega arith) lb.2, lb.3) in
        let m = merge_loop-Merged fuel (freed b) ys s' f k' l' in
        let same : SameOutside b s.cell m.cell = λ a out. ground (arith, m.same a) in
        record {
          cell = m.cell;
          returns =
              rw
                (
                  not_null (b.addr + contents_offset) (omega arith),
                  block_get_header_lem b.addr (omega arith),
                  set,
                )
                m.returns;
          holds =
              Holds-splice xs b ys ((absorb (freed b) ys).0 ∷ (absorb (freed b) ys).1) s.cell m.cell
                same (absorb-addr (freed b) ys) l k m.holds;
          layout = Layout-after_free;
          kept = total-after_free;
          in_use = taken-after_free;
          rest =
              Kept-trans
                (Kept-splice xs b (freed b ∷ []) ys s.cell m.cell (omega arith, tt)
                  (λ page e zs h. h) same (first-append xs (freed b ∷ ys) (b ∷ ys) refl))
                (Kept-Coarser joined (λ a h. refl));
          shrinks = omega (
            arith,
            length-Coarser joined,
            length-append xs (freed b ∷ ys),
            length-append xs (b ∷ ys),
          );
        }

    pub free-Freed_at :
        (fuel : ℕ) (p : Ptr) (s : State)
        → p ≡ b.addr
        → length ys < fuel
        → Holds s.cell (xs ++ b ∷ ys)
        → Freed xs b ys s (free fuel (p + contents_offset) s)
    free-Freed_at fuel p s e f k = rw e (free-Freed fuel s f k)
