-- ===== src/Alloc/Blocks/Take.antt =====
-- `find_good_or_last` and `try_memalloc_existing`: what a client may rely on.
use low_level_programming.Base.{
  ℕ, ◌+◌, ◌≤◌, ◌<◌, ◌≡◌, ◌⊎◌, refl, sym, ◌∙◌, inl, inr, true, false, List, ◌∷◌, ◌++◌, arith, length,
  suc, length-append,
}
use low_level_programming.Alloc.{Ptr, Cells, State, Run, ok}
use low_level_programming.Alloc.Sizes.{size_mod}
use low_level_programming.Alloc.Chain.{Block, first, Holds, Layout, Away, total, taken}
use low_level_programming.Alloc.Chain.Coarser.{
  Coarser, Layout-Coarser, total-Coarser, taken-Coarser, first-Coarser, length-Coarser,
}
use low_level_programming.Alloc.Chain.Kept.{Kept, Kept-trans, Kept-Coarser, Kept-splice}
use low_level_programming.Alloc.Chain.Scan.{Found, good, missing, blocks_of, scan, scan-Coarser}
use low_level_programming.Alloc.Chain.Fit.{Fits, TooSmall, AllUnjoinable, Fits-scan}
use low_level_programming.Alloc.Chain.Splice.{
  Holds-drop, Layout-drop, first-append, Holds-splice, Layout-splice, total-append, taken-append,
}
use low_level_programming.Alloc.Chain.Reserve.{
  reserve, reserved, reserve-InsideAll, reserve-Tiles, Layout-reserve, total-reserve, taken-reserve,
  reserved-is_free, le-reserved, length-reserve,
}
use low_level_programming.Alloc.Blocks.{
  SearchResult, search_result, found_good_block, reached_end_not_found, find_good_or_last,
  try_memalloc_existing,
}
use low_level_programming.Alloc.Blocks.Merge.{with_cell, not_null}
use low_level_programming.Alloc.Blocks.Find.{last_free, result_of, Scanned, find_loop-Scanned}
use low_level_programming.Alloc.Blocks.Split.{
  reserve_cells, reserve-ok, reserve_cells-SameOutside, Holds-reserve_cells,
}

-- The outcome of a search in the list `bs`.
pub record Searched (sz : ℕ) (d : Ptr) (bs : List Block) (s : State) (r : Run SearchResult)
    : Type 0 where
  pub found : Found
  pub cell : Cells
  pub returns : r ≡ ok (result_of d found) (with_cell s cell)
  pub holds : Holds cell (blocks_of found)
  pub joined : Coarser bs (blocks_of found)
  pub fits : Fits sz found
  pub is_scan : found ≡ scan sz bs
  pub same : (a : Ptr) → Away a bs → cell a ≡ s.cell a

pub find_good_or_last-Scanned :
    (fuel sz : ℕ) (b : Block) (bs : List Block) (s : State)
    → length (b ∷ bs) < fuel
    → Holds s.cell (b ∷ bs)
    → Layout (b ∷ bs)
    → Scanned b.addr sz (b ∷ bs) s (scan sz (b ∷ bs)) (find_good_or_last fuel b.addr sz s)
unfolding find_good_or_last
find_good_or_last-Scanned fuel sz b bs s f k l =
    rw (not_null b.addr l.0) (find_loop-Scanned fuel b.addr sz (b ∷ bs) s f k l)

-- On a list of blocks in memory, with more fuel than blocks, `find_good_or_last` ends without a
-- fault. It returns the first block that is free and large enough once free neighbours are joined;
-- where there is none, the last free block, or the first block if none is free. Of the blocks that
-- it has passed, none can be joined with the one behind it. It only joins free neighbours, leaves
-- the list that first fit with joining (`scan`) leaves, and writes only at headers of the list.
pub find_good_or_last-Searched :
    (fuel sz : ℕ) (b : Block) (bs : List Block) (s : State)
    → length (b ∷ bs) < fuel
    → Holds s.cell (b ∷ bs)
    → Layout (b ∷ bs)
    → Searched sz b.addr (b ∷ bs) s (find_good_or_last fuel b.addr sz s)
find_good_or_last-Searched fuel sz b bs s f k l =
    let r = find_good_or_last-Scanned fuel sz b bs s f k l in
    record {
      found = scan sz (b ∷ bs);
      cell = r.cell;
      returns = r.returns;
      holds = r.holds;
      joined = scan-Coarser sz (b ∷ bs);
      is_scan = refl;
      fits = Fits-scan sz (b ∷ bs);
      same = r.same;
    }

try_memalloc-missing :
    (fuel q : ℕ) (p d : Ptr) (s s' : State)
    → find_good_or_last fuel p q s ≡ ok (search_result reached_end_not_found d) s'
    → try_memalloc_existing fuel q p s ≡ ok (search_result reached_end_not_found d) s'
unfolding try_memalloc_existing
try_memalloc-missing fuel q p d s s' e = rw e refl

pub try_memalloc-good :
    (fuel q : ℕ) (p : Ptr) (xs : List Block) (b : Block) (ys : List Block) (s s' : State)
    → q + 41 < size_mod
    → find_good_or_last fuel p q s ≡ ok (search_result found_good_block b.addr) s'
    → Holds s'.cell (xs ++ b ∷ ys)
    → Layout (xs ++ b ∷ ys)
    → try_memalloc_existing fuel q p s
      ≡ ok (search_result found_good_block b.addr) (with_cell s' (reserve_cells q b ys s'.cell))
unfolding try_memalloc_existing
try_memalloc-good fuel q p xs b ys s s' small e k l =
    let lb = Layout-drop xs (b ∷ ys) l in
    rw (e, reserve-ok q b ys small lb.0 lb.1 _ s' (Holds-drop s'.cell xs (b ∷ ys) k).0) refl

-- The list after the block `b` of it has served the request.
pub Holds-reserve :
    (q : ℕ) (xs : List Block) (b : Block) (ys : List Block) (c : Cells)
    → q + 41 < size_mod
    → Holds c (xs ++ b ∷ ys)
    → Layout (xs ++ b ∷ ys)
    → Holds (reserve_cells q b ys c) (xs ++ (reserve q b false ++ ys))
      × Layout (xs ++ (reserve q b false ++ ys))
Holds-reserve q xs b ys c small k l =
    let lb = Layout-drop xs (b ∷ ys) l in
    let kb = Holds-drop c xs (b ∷ ys) k in
    (
      Holds-splice xs b ys (reserve q b false ++ ys) c (reserve_cells q b ys c)
          (reserve_cells-SameOutside q b ys small lb.0 lb.1 c) (ground arith) l k
          (Holds-reserve_cells q b ys small lb.0 lb.1 c lb.2 kb.1),
      Layout-splice xs b (reserve q b false) ys (reserve-InsideAll q b false)
          (Layout-reserve q b false lb.0 lb.1) l,
    )

total-reserve-middle :
    (q : ℕ) (xs : List Block) (b : Block) (ys : List Block)
    → total (xs ++ (reserve q b false ++ ys)) ≡ total (xs ++ b ∷ ys)
total-reserve-middle q xs b ys = omega (
  arith,
  total-append xs (reserve q b false ++ ys),
  total-append (reserve q b false) ys,
  total-append xs (b ∷ ys),
  total-reserve q b false,
)

taken-reserve-middle :
    (q : ℕ) (xs : List Block) (b : Block) (ys : List Block)
    → taken (xs ++ (reserve q b false ++ ys)) ≡ taken xs ++ reserved q b ∷ taken ys
taken-reserve-middle q xs b ys =
    rw
      (
        taken-append xs (reserve q b false ++ ys),
        taken-append (reserve q b false) ys,
        taken-reserve q b,
      )
      refl

taken-free-middle :
    (xs : List Block) (b : Block) (ys : List Block)
    → b.is_free ≡ true
    → taken (xs ++ b ∷ ys) ≡ taken xs ++ taken ys
taken-free-middle xs b ys e = rw (taken-append xs (b ∷ ys), e) refl

-- A block of the new list serves the request: all others in use are as before.
pub record Served (q : ℕ) (bs after : List Block) (r : SearchResult) : Type 0 where
  pub before_it : List Block
  pub it : Block
  pub behind_it : List Block
  pub result : r ≡ search_result found_good_block it.addr
  pub in_use : it.is_free ≡ false
  pub fits : q ≤ it.capacity
  pub was : taken bs ≡ before_it ++ behind_it
  pub now : taken after ≡ before_it ++ it ∷ behind_it

-- No block serves it: nothing is in use that was not, and every free block is too small.
pub record Refused (q : ℕ) (d : Ptr) (bs after : List Block) (r : SearchResult) : Type 0 where
  pub result : r ≡ search_result reached_end_not_found (last_free d after)
  pub joined : Coarser bs after
  pub unchanged : taken after ≡ taken bs
  pub too_small : TooSmall q after
  pub unjoinable : AllUnjoinable after

-- The outcome of an attempt to serve a request from the list `bs`.
pub record Attempted (q : ℕ) (d : Ptr) (bs : List Block) (s : State) (r : Run SearchResult)
    : Type 0 where
  pub after : List Block
  pub result : SearchResult
  pub cell : Cells
  pub returns : r ≡ ok result (with_cell s cell)
  pub holds : Holds cell after
  pub layout : Layout after
  pub start : first after ≡ first bs
  pub kept : total after ≡ total bs
  pub rest : Kept bs after s.cell cell
  pub grows : length after ≤ suc (length bs)
  pub outcome : Served q bs after result ⊎ Refused q d bs after result

Attempted-found :
    (fuel q : ℕ) (d p : Ptr) (bs : List Block) (s : State) (found : Found) (cell : Cells)
    → q + 41 < size_mod
    → find_good_or_last fuel p q s ≡ ok (result_of d found) (with_cell s cell)
    → Holds cell (blocks_of found)
    → Layout bs
    → Coarser bs (blocks_of found)
    → Fits q found
    → ((a : Ptr) → Away a bs → cell a ≡ s.cell a)
    → Attempted q d bs s (try_memalloc_existing fuel q p s)
Attempted-found fuel q d p bs s (missing after) cell small e k l j f same = record {
  after = after;
  result = search_result reached_end_not_found (last_free d after);
  cell = cell;
  returns = try_memalloc-missing fuel q p (last_free d after) s (with_cell s cell) e;
  holds = k;
  layout = Layout-Coarser j l;
  start = first-Coarser j;
  kept = total-Coarser j;
  rest = Kept-Coarser j same;
  grows = omega (arith, length-Coarser j);
  outcome = inr (record {
    result = refl;
    joined = j;
    unchanged = taken-Coarser j;
    too_small = f.0;
    unjoinable = f.1;
  });
}
Attempted-found fuel q d p bs s (good xs b ys) cell small e k l j f same =
    let l' = Layout-Coarser j l in
    let new = Holds-reserve q xs b ys cell small k l' in
    let lb = Layout-drop xs (b ∷ ys) l' in
    record {
      after = xs ++ (reserve q b false ++ ys);
      result = search_result found_good_block b.addr;
      cell = reserve_cells q b ys cell;
      returns = try_memalloc-good fuel q p xs b ys s (with_cell s cell) small e k l';
      holds = new.0;
      layout = new.1;
      start = first-append xs (reserve q b false ++ ys) (b ∷ ys) (ground arith) ∙ first-Coarser j;
      kept = total-reserve-middle q xs b ys ∙ total-Coarser j;
      rest = Kept-trans (Kept-Coarser j same) (
          Kept-splice xs b (reserve q b false) ys cell (reserve_cells q b ys cell)
            (reserve-InsideAll q b false) (reserve-Tiles q b false)
            (reserve_cells-SameOutside q b ys small lb.0 lb.1 cell)
            (first-append xs (reserve q b false ++ ys) (b ∷ ys) (ground arith)));
      grows = omega (
        arith,
        length-Coarser j,
        length-append xs (reserve q b false ++ ys),
        length-append (reserve q b false) ys,
        length-append xs (b ∷ ys),
        length-reserve q b false,
      );
      outcome = inl (record {
        before_it = taken xs;
        it = reserved q b;
        behind_it = taken ys;
        result = ground arith;
        in_use = reserved-is_free q b;
        fits = le-reserved q b f.1;
        was = sym (taken-Coarser j) ∙ taken-free-middle xs b ys f.0;
        now = taken-reserve-middle q xs b ys;
      });
    }

-- With more fuel than blocks and a request below 2 ^ 64 - 41, `try_memalloc_existing` ends without
-- a fault and leaves a list of blocks that do not overlap and hold as many bytes as before. Either
-- one more block is in use, of at least the size asked for, and is returned; or no block is, and
-- every free block is too small.
pub try_memalloc_existing-Attempted :
    (fuel q : ℕ) (b : Block) (bs : List Block) (s : State)
    → length (b ∷ bs) < fuel
    → q + 41 < size_mod
    → Holds s.cell (b ∷ bs)
    → Layout (b ∷ bs)
    → Attempted q b.addr (b ∷ bs) s (try_memalloc_existing fuel q b.addr s)
try_memalloc_existing-Attempted fuel q b bs s f small k l =
    let r = find_good_or_last-Searched fuel q b bs s f k l in
    Attempted-found fuel q b.addr b.addr (b ∷ bs) s r.found r.cell small r.returns r.holds l
      r.joined r.fits r.same
