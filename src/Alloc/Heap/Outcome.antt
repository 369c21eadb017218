-- ===== src/Alloc/Heap/Outcome.antt =====
-- What a client of `memalloc` may rely on.
use mathlib.Core.Path.{subst}
use low_level_programming.Base.{
  ℕ, ◌+◌, ◌≤◌, ◌<◌, ◌≡◌, refl, ◌∙◌, inl, inr, suc, Bool, List, [], ◌∷◌, ◌++◌, arith, length,
  length-append,
}
use low_level_programming.Alloc.{Ptr, null, SysCall, map_failed, Cells, State, Run, ok}
use low_level_programming.Alloc.Sizes.{
  size_mod, add_size, contents_offset, size_from_capacity, region_actual_size,
}
use low_level_programming.Alloc.Sizes.Pages.{region_actual_size-bounds}
use low_level_programming.Alloc.Chain.{Block, end_of, first, header_of, Holds, Layout, taken}
use low_level_programming.Alloc.Chain.Coarser.{
  Coarser, length-Coarser, first-Coarser, taken-Coarser,
}
use low_level_programming.Alloc.Blocks.{
  SearchResult, search_result, found_good_block, reached_end_not_found, try_memalloc_existing,
  block_after,
}
use low_level_programming.Alloc.Chain.Fit.{TooSmall, AllUnjoinable}
use low_level_programming.Alloc.Chain.Kept.{Kept, Kept-trans}
use low_level_programming.Alloc.Blocks.Merge.{with_cell, not_null, load-ok}
use low_level_programming.Alloc.Blocks.Take.{Served, try_memalloc_existing-Attempted}
use low_level_programming.Alloc.Blocks.Find.{last_free}
use low_level_programming.Alloc.Region.{Os, alloc_region}
use low_level_programming.Alloc.Region.Map.{
  Answers, Mapped, fresh_block, NoRegion, alloc_region-MappedRegion,
}
use low_level_programming.Alloc.Chain.Splice.{Holds-drop, Layout-drop}
use low_level_programming.Alloc.Heap.{grow_heap, memalloc}
use low_level_programming.Alloc.Heap.Grow.{Grown, grow_heap-Grown}
use low_level_programming.Alloc.Heap.Serve.{
  request, GrowsBehind, TooSmall-Coarser, TooSmall-last, retry, memalloc-found, memalloc-grows,
}
use low_level_programming.Alloc.Heap.Joined.{
  grows_at, Answers-Coarser, attempt, Served-Coarser, first-replace,
}

-- The outcome of `memalloc` for `q` bytes on the list `bs`: a block of the list serves the request;
-- or every free block is too small, once free neighbours are joined. Then no memory is to be had; or
-- the heap grows by a block behind the last free block `e`, which is the first block where none is
-- free, and one of the blocks then serves it. What stood behind `e`, all of it in use, is no longer
-- in the list.
pub data Outcome (os : Os) (q : ℕ) (bs : List Block) (s0 : State) (r : Run Ptr) : Type 0 where
  served :
      (after : List Block) (result : SearchResult) (s : State)
      → r ≡ ok result.block s
      → Holds s.cell after
      → Layout after
      → Served q bs after result
      → Kept bs after s0.cell s.cell
      → s.calls ≡ s0.calls
      → length after ≤ suc (length bs)
      → Outcome os q bs s0 r
  no_memory :
      (after : List Block) (s : State) (a n : ℕ)
      → r ≡ ok null s
      → Holds s.cell after
      → Layout after
      → taken after ≡ taken bs
      → TooSmall q after
      → AllUnjoinable after
      → Kept bs after s0.cell s.cell
      → s.calls ≡ map_failed a n ∷ map_failed a n ∷ s0.calls
      → length after ≤ length bs
      → Outcome os q bs s0 r
  grown :
      (xs : List Block) (e : Block) (ys : List Block) (a p size : ℕ) (extends : Bool) (mid : Cells)
      (after : List Block) (result : SearchResult) (s : State)
      → Coarser bs (xs ++ e ∷ ys)
      → Kept bs (xs ++ e ∷ ys) s0.cell mid
      → Holds mid (xs ++ e ∷ ys)
      → GrowsBehind xs e ys
      → TooSmall q (xs ++ e ∷ ys)
      → AllUnjoinable (xs ++ e ∷ ys)
      → contents_offset ≤ size
      → Mapped os s0.calls a size p extends s.calls
      → r ≡ ok result.block s
      → Holds s.cell after
      → Layout after
      → Served q (xs ++ e ∷ fresh_block p size ∷ []) after result
      → Kept (xs ++ e ∷ fresh_block p size ∷ []) after mid s.cell
      → length after + length ys ≤ length bs + 2
      → Outcome os q bs s0 r

module _ (os : Os) (fuel query : ℕ) (p : Ptr) (s : State) (bs : List Block) (pos : 0 < p)
    (f : length bs + 1 < fuel) (room : request query + 41 + os.page_size ≤ size_mod)
    (ans : Answers os s.calls bs) where
  abbrev q : ℕ
  q = request query

  abbrev size : ℕ
  size = region_actual_size os.page_size (add_size (size_from_capacity q) contents_offset)

  -- The region has room for the request and both headers.
  size_bounds : (q + contents_offset ≤ size) × (contents_offset ≤ size)
  size_bounds =
      let same : add_size (size_from_capacity q) contents_offset ≡ q + 34 = omega arith in
      rw same
        (omega (arith, region_actual_size-bounds os.page_size (q + 34) ans.page_pos (omega arith)))

  module _ (xs : List Block) (e : Block) (ys : List Block) (cell : Cells)
      (k : Holds cell (xs ++ e ∷ ys)) (l : Layout (xs ++ e ∷ ys)) (j : Coarser bs (xs ++ e ∷ ys))
      (last : GrowsBehind xs e ys) (small : TooSmall q (xs ++ e ∷ ys))
      (apart : AllUnjoinable (xs ++ e ∷ ys)) (start : first (xs ++ e ∷ ys) ≡ p)
      (kept : Kept bs (xs ++ e ∷ ys) s.cell cell) where
    abbrev s' : State
    s' = with_cell s cell

    length_parts : (n : Block) → length (xs ++ e ∷ n ∷ []) < fuel
    length_parts n =
        omega (arith, length-append xs (e ∷ n ∷ []), length-append xs (e ∷ ys), length-Coarser j)

    -- The second attempt, once the heap has grown, is served.
    retried :
        (a p' : ℕ) (extends : Bool) (calls : List SysCall) (r : Run Ptr)
        → Mapped os s.calls a size p' extends calls
        → (g : Grown xs e p' size calls cell r)
        → Outcome os q bs s (retry os fuel query p s s' pos g.last g.state)
    retried a p' extends calls r mapping g =
        let n = fresh_block p' size in
        let at : first g.after ≡ p =
          first-Coarser g.joined ∙ first-replace xs e (n ∷ []) ys ∙ start in
        let len : length g.after < fuel = omega (arith, length-Coarser g.joined, length_parts n) in
        let a' = attempt fuel q p g.after g.state at pos len (omega arith) g.holds g.layout in
        rw (not_null g.last g.not_null, a'.returns)
          (elim a'.outcome [
            | inl v ↦
                grown xs e ys a p' size extends cell a'.after a'.result (with_cell g.state a'.cell)
                  j kept k last small apart size_bounds.1 (rw g.called mapping) refl a'.holds
                  a'.layout (Served-Coarser q g.joined v) (Kept-trans g.kept a'.rest)
                  (omega (
                    arith,
                    a'.grows,
                    length-Coarser g.joined,
                    length-Coarser j,
                    length-append xs (e ∷ n ∷ []),
                    length-append xs (e ∷ ys),
                  ))
            | inr v ↦
                let little =
                  TooSmall-last q xs e n
                    (TooSmall-Coarser q g.joined (TooSmall-Coarser q v.joined v.too_small)) refl in
                absurd (omega (arith, little, size_bounds))
          ])

    none_left :
        (r : NoRegion os size (end_of e) s' (alloc_region os (end_of e) (size_from_capacity q) s'))
        → grow_heap os e.addr (size_from_capacity q) s' ≡ ok null (record s' { calls = r.calls })
    unfolding grow_heap
    none_left r =
        let le = Layout-drop xs (e ∷ ys) l in
        let ke = Holds-drop cell xs (e ∷ ys) k in
        let behind : block_after e.addr (header_of e ys) ≡ end_of e = omega arith in
        rw (not_null e.addr le.0, load-ok e.addr (header_of e ys) s' le.0 ke.0, behind, r.returns)
          refl

    grow :
        try_memalloc_existing fuel q p s ≡ ok (search_result reached_end_not_found e.addr) s'
        → Outcome os q bs s (memalloc os fuel query p s)
    grow tried =
        let ans' = Answers-Coarser os s.calls j ans in
        rw (memalloc-grows os fuel query p s s' pos e.addr tried)
          (elim (alloc_region-MappedRegion os (end_of e) (size_from_capacity q) (xs ++ e ∷ ys) s'
            ans' size_bounds.1) [
              | inr r ↦ rw (none_left r) (
                  no_memory (xs ++ e ∷ ys) (record s' { calls = r.calls }) (end_of e) size refl k l
                    (taken-Coarser j) small apart kept r.calls_are (length-Coarser j))
              | inl m ↦
                  let g =
                    grow_heap-Grown xs e ys s' l k m.p size m.is_new size_bounds.1 os
                      (size_from_capacity q) m.extends m.calls m.returns in
                  rw g.returns (retried (end_of e) m.p m.extends m.calls _ m.answered g)
            ])

  grow_after :
      (after : List Block) (cell : Cells)
      → Holds cell after
      → Layout after
      → Coarser bs after
      → first after ≡ p
      → Kept bs after s.cell cell
      → TooSmall q after
      → AllUnjoinable after
      → try_memalloc_existing fuel q p s
        ≡ ok (search_result reached_end_not_found (last_free p after)) (with_cell s cell)
      → Outcome os q bs s (memalloc os fuel query p s)
  grow_after [] cell k l j start kept small apart tried = absurd (omega arith)
  grow_after (c ∷ cs) cell k l j start kept small apart tried =
      let g = grows_at c cs in
      let at : last_free p (c ∷ cs) ≡ g.e.addr = rw (← start) g.at in
      grow g.xs g.e g.ys cell (subst (λ z. Holds cell z) g.parts k)
        (subst (λ z. Layout z) g.parts l) (subst (λ z. Coarser bs z) g.parts j) g.last
        (subst (λ z. TooSmall q z) g.parts small) (subst (λ z. AllUnjoinable z) g.parts apart)
        (subst (λ z. first z ≡ p) g.parts start) (subst (λ z. Kept bs z s.cell cell) g.parts kept)
        (rw at at tried)

-- With more fuel than blocks and a request far enough below 2 ^ 64, `memalloc` on a list of blocks
-- in memory ends without a fault. It returns a block in use of at least the size asked for, and
-- every block in use that is still in the list is as before; or `NULL`, with the same blocks in
-- use. The blocks stay apart. Where it returns `NULL` or the heap grows, every free block was too small once
-- free neighbours had been joined. The new memory stands behind the last free block, or behind the
-- first block where none is free, and the blocks in use that stood there are no longer in the list.
pub memalloc-Outcome :
    (os : Os) (fuel query : ℕ) (b : Block) (bs : List Block) (s : State)
    → length (b ∷ bs) + 1 < fuel
    → request query + 41 + os.page_size ≤ size_mod
    → Answers os s.calls (b ∷ bs)
    → Holds s.cell (b ∷ bs)
    → Layout (b ∷ bs)
    → Outcome os (request query) (b ∷ bs) s (memalloc os fuel query b.addr s)
memalloc-Outcome os fuel query b bs s f room ans k l =
    let q : ℕ = request query in
    let a = try_memalloc_existing-Attempted fuel q b bs s (omega arith) (omega arith) k l in
    elim a.outcome [
      | inl v ↦
          let result =
            memalloc-found os fuel query b.addr s (with_cell s a.cell) l.0 v.it.addr
              (rw v.result at a.returns) in
          served a.after (search_result found_good_block v.it.addr) (with_cell s a.cell) result
            a.holds a.layout
            (record {
              before_it = v.before_it;
              it = v.it;
              behind_it = v.behind_it;
              result = refl;
              in_use = v.in_use;
              fits = v.fits;
              was = v.was;
              now = v.now;
            })
            a.rest refl a.grows
      | inr v ↦
          grow_after os fuel query b.addr s (b ∷ bs) l.0 f room ans a.after a.cell a.holds a.layout
            v.joined a.start a.rest v.too_small v.unjoinable (rw v.result at a.returns)
    ]
