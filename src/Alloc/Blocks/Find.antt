-- ===== src/Alloc/Blocks/Find.antt =====
-- `find_good_or_last` against `scan` on the list of blocks.
use low_level_programming.Base.{
  ℕ, zero, suc, ◌<◌, ◌≡◌, ◌≢◌, refl, ◌∙◌, inl, inr, true, false, some, List, [], ◌∷◌, arith,
  if◌then◌else◌, leb, length, Bool-cases,
}
use low_level_programming.Alloc.{Ptr, null, Header, Cells, State, Run, ok}
use low_level_programming.Alloc.Chain.{Block, first, header_of, Holds, Layout, Away}
use low_level_programming.Alloc.Chain.Coarser.{
  Coarser, Layout-Coarser, Away-Coarser, ApartAll-Away, first-Coarser,
}
use low_level_programming.Alloc.Chain.Scan.{
  absorb, Found, good, missing, push, blocks_of, scan, absorb-is_free, absorb-addr, absorb-Coarser,
  length-absorb, scan-nil, scan-taken, scan-free, scan-Coarser, blocks_of-push,
}
use low_level_programming.Alloc.Blocks.{
  SearchResult, search_result, found_good_block, reached_end_not_found, merge_loop, find_loop,
}
use low_level_programming.Alloc.Blocks.Merge.{with_cell, load-ok, not_null, merge_loop-Merged}

-- The last free block, or `d` where there is none.
abbrev pub last_free : Ptr → List Block → Ptr
last_free d [] = d
last_free d (b ∷ bs) = last_free (if b.is_free then b.addr else d) bs

-- What the code returns for an end of the search.
abbrev pub result_of : Ptr → Found → SearchResult
result_of d (good xs b ys) = search_result found_good_block b.addr
result_of d (missing xs) = search_result reached_end_not_found (last_free d xs)

result_of-push :
    (d : Ptr) (b : Block) (r : Found)
    → result_of d (push b r) ≡ result_of (if b.is_free then b.addr else d) r
result_of-push d b (good xs c ys) = refl
result_of-push d b (missing xs) = refl

-- What the search leaves.
pub record Scanned (d : Ptr) (sz : ℕ) (bs : List Block) (s : State) (found : Found)
    (r : Run SearchResult) : Type 0 where
  pub cell : Cells
  pub returns : r ≡ ok (result_of d found) (with_cell s cell)
  pub holds : Holds cell (blocks_of found)
  pub same : (a : Ptr) → Away a bs → cell a ≡ s.cell a

-- A block in front of a list that the search has dealt with.
Holds-push :
    (b : Block) (bs : List Block) (found : Found) (c : Cells)
    → Coarser bs (blocks_of found)
    → c b.addr ≡ some (header_of b bs)
    → Holds c (blocks_of found)
    → Holds c (blocks_of (push b found))
Holds-push b bs found c r e h = rw (blocks_of-push, first-Coarser r) (e, h)

-- The step at a block in use.
Scanned-taken :
    (d : Ptr) (sz : ℕ) (b : Block) (bs : List Block) (s : State) (r : Run SearchResult)
    → b.is_free ≡ false
    → Holds s.cell (b ∷ bs)
    → Layout (b ∷ bs)
    → Scanned d sz bs s (scan sz bs) r
    → Scanned d sz (b ∷ bs) s (scan sz (b ∷ bs)) r
Scanned-taken d sz b bs s r e k l rest = rw (scan-taken sz b bs e) (record {
  cell = rest.cell;
  returns = rw (result_of-push, if_false) rest.returns;
  holds =
      Holds-push b bs (scan sz bs) rest.cell (scan-Coarser sz bs)
        (rest.same b.addr (ApartAll-Away b bs l.2) ∙ k.0) rest.holds;
  same = λ a n. rest.same a n.1;
})
  where
    if_false : (if b.is_free then b.addr else d) ≡ d
    if_false = ground arith

-- The step at a free block that, joined with its free neighbours, is too small.
Scanned-small :
    (d : Ptr) (sz : ℕ) (b : Block) (bs : List Block) (s : State) (r : Run SearchResult)
    → let (b', bs') = absorb b bs in
      b.is_free ≡ true
      → leb sz b'.capacity ≡ false
      → Layout (b ∷ bs)
      → (m : Cells) → Holds m (b' ∷ bs')
      → ((a : Ptr) → a ≢ b.addr → m a ≡ s.cell a)
      → Scanned b.addr sz bs' (with_cell s m) (scan sz bs') r
      → Scanned d sz (b ∷ bs) s (scan sz (b ∷ bs)) r
Scanned-small d sz b bs s r e small l m k same rest =
    rw (scan-free sz b bs e, small)
      (record {
        cell = rest.cell;
        returns = rw (result_of-push, is_b) rest.returns;
        holds =
            Holds-push b' bs' (scan sz bs') rest.cell (scan-Coarser sz bs')
              (rest.same b'.addr (ApartAll-Away b' bs' l'.2) ∙ k.0) rest.holds;
        same = λ a n. rest.same a (Away-Coarser a joined n).1 ∙ same a n.0;
      })
  where
    b' : Block
    b' = (absorb b bs).0

    bs' : List Block
    bs' = (absorb b bs).1

    joined : Coarser (b ∷ bs) (b' ∷ bs')
    joined = absorb-Coarser b bs

    l' : Layout (b' ∷ bs')
    l' = Layout-Coarser joined l

    is_b : (if b'.is_free then b'.addr else d) ≡ b.addr
    is_b = ground (arith, absorb-is_free b bs, absorb-addr b bs)

-- The step at a free block that, joined with its free neighbours, is large enough.
Scanned-good :
    (d : Ptr) (sz : ℕ) (b : Block) (bs : List Block) (s : State)
    → let (b', bs') = absorb b bs in
      b.is_free ≡ true
      → leb sz b'.capacity ≡ true
      → (m : Cells) → Holds m (b' ∷ bs')
      → ((a : Ptr) → a ≢ b.addr → m a ≡ s.cell a)
      → Scanned d sz
          (b ∷ bs)
          s
          (scan sz (b ∷ bs))
          (ok (search_result found_good_block b.addr) (with_cell s m))
Scanned-good d sz b bs s e big m k same =
    rw (scan-free sz b bs e, big)
      (record {
        cell = m;
        returns = rw (absorb-addr b bs) refl;
        holds = k;
        same = λ a n. same a n.0;
      })

find_loop-end :
    (fuel : ℕ) (d : Ptr) (sz : ℕ) (s : State)
    → find_loop (suc fuel) null d sz s ≡ ok (search_result reached_end_not_found d) s
unfolding find_loop
find_loop-end fuel d sz s = refl

-- One round of the outer loop, at a block in use and at a free one.
find_loop-taken :
    (fuel : ℕ) (p d : Ptr) (sz : ℕ) (s : State) (h : Header)
    → 0 < p
    → s.cell p ≡ some h
    → h.is_free ≡ false
    → find_loop (suc fuel) p d sz s ≡ find_loop fuel h.next d sz s
unfolding find_loop
find_loop-taken fuel p d sz s h pos k e = rw (not_null p pos, load-ok p h s pos k, e) refl

find_loop-free :
    (fuel : ℕ) (p d : Ptr) (sz : ℕ) (s : State) (h k : Header) (m : Cells)
    → 0 < p
    → s.cell p ≡ some h
    → h.is_free ≡ true
    → merge_loop fuel p s ≡ ok tt (with_cell s m)
    → m p ≡ some k
    → find_loop (suc fuel) p d sz s ≡ (
        if leb sz k.capacity
        then ok (search_result found_good_block p) (with_cell s m)
        else find_loop fuel k.next p sz (with_cell s m))
unfolding find_loop
find_loop-free fuel p d sz s h k m pos hs e ms ks =
    rw (not_null p pos, load-ok p h s pos hs, e, ms, load-ok p k (with_cell s m) pos ks)
      (elim (Bool-cases (leb sz k.capacity)) [ inl big ↦ rw big refl | inr small ↦ rw small refl ])

-- The outer loop ends, without a fault, where `scan` ends on the list.
pub find_loop-Scanned :
    (fuel : ℕ) (d : Ptr) (sz : ℕ) (bs : List Block) (s : State)
    → length bs < fuel
    → Holds s.cell bs
    → Layout bs
    → Scanned d sz bs s (scan sz bs) (find_loop fuel (first bs) d sz s)
find_loop-Scanned zero d sz bs s f k l = absurd (omega arith)
find_loop-Scanned (suc fuel) d sz [] s f k l =
    rw (scan-nil sz) (record {
      cell = s.cell;
      returns = find_loop-end fuel d sz s;
      holds = tt;
      same = λ a n. refl;
    })
find_loop-Scanned (suc fuel) d sz (b ∷ bs) s f k l = elim (Bool-cases b.is_free) [
  | inr e ↦
      rw (find_loop-taken fuel b.addr d sz s (header_of b bs) l.0 k.0 e)
        (Scanned-taken d sz b bs s _ e k l (find_loop-Scanned fuel d sz bs s (omega arith) k.1 l.3))
  | inl e ↦
      let (b', bs') = absorb b bs in
      let m = merge_loop-Merged fuel b bs s (omega arith) k l in
      let l' = Layout-Coarser (absorb-Coarser b bs) l in
      let s' : State = with_cell s m.cell in
      let kb : m.cell b.addr ≡ some (header_of b' bs') = rw (absorb-addr b bs) at m.holds.0 in
      rw
        (find_loop-free fuel b.addr d sz s (header_of b bs) (header_of b' bs') m.cell l.0 k.0 e
          m.returns kb)
        (elim (Bool-cases (leb sz b'.capacity)) [
          | inl big ↦ rw big (Scanned-good d sz b bs s e big m.cell m.holds m.same)
          | inr small ↦ rw small (
              Scanned-small d sz b bs s _ e small l m.cell m.holds m.same (
                find_loop-Scanned fuel b.addr sz bs' s' (omega (arith, length-absorb b bs))
                  m.holds.1 l'.3))
        ])
]
