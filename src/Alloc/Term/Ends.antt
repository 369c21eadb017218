-- ===== src/Alloc/Term/Ends.antt =====
-- The loop of `heap_term`.
use native.Mathlib.Nat.{zero-add}
use low_level_programming.Base.{
  ℕ, zero, suc, ◌<◌, ◌≡◌, refl, ◌∙◌, none, List, [], ◌∷◌, arith, length,
}
use low_level_programming.Alloc.{Ptr, null, Cells, unmapped, State, Run, ok}
use low_level_programming.Alloc.Sizes.{round_pages, heap_start}
use low_level_programming.Alloc.Blocks.Merge.{not_null}
use low_level_programming.Alloc.Chain.{Block, first, Holds, Layout}
use low_level_programming.Alloc.Region.{Os}
use low_level_programming.Alloc.Term.{
  stretch_loop, unmap_cells, unmap_from_pointer, term_loop, heap_term,
}
use low_level_programming.Alloc.Term.Parts.{Part, part, parts, AlignedAll, Spread, Layout-Spread}
use low_level_programming.Alloc.Term.Clear.{
  unmaps, clear, OffPages, clear-OffPages, clear-InParts, AllIn, AllIn-parts, Holds-unmap,
}
use low_level_programming.Alloc.Term.Stretches.{Stretched, stretch_loop-Stretched}

module _ (os : Os) (pos : 0 < os.page_size) where
  -- What the whole loop leaves.
  abbrev emptied : List Block → State → State
  emptied bs s = record {
    cell = clear os.page_size (parts bs) s.cell;
    calls = unmaps os.page_size (parts bs) s.calls;
  }

  unmap_from_pointer-eq :
      (fuel : ℕ) (b : Block) (bs : List Block) (s : State)
      (r : Stretched b bs 0 s (stretch_loop fuel b.addr 0 s))
      → unmap_from_pointer os fuel b.addr s
        ≡ ok (first r.rest) (record {
          cell = unmap_cells s.cell b.addr (round_pages os.page_size r.n);
          calls = unmapped b.addr (round_pages os.page_size r.n) ∷ s.calls;
        })
  unfolding unmap_from_pointer
  unmap_from_pointer-eq fuel b bs s r = rw (r.returns, zero-add) refl

  term_loop-nil : (fuel : ℕ) (s : State) → term_loop os (suc fuel) null s ≡ ok tt s
  unfolding term_loop
  term_loop-nil fuel s = refl

  term_loop-cons :
      (fuel : ℕ) (p next : Ptr) (s s' : State)
      → 0 < p
      → unmap_from_pointer os fuel p s ≡ ok next s'
      → term_loop os (suc fuel) p s ≡ term_loop os fuel next s'
  unfolding term_loop
  term_loop-cons fuel p next s s' h e = rw (not_null p h, e) refl

  emptied-nil : (s : State) → emptied [] s ≡ s
  unfolding parts
  emptied-nil s = refl

  term_loop-emptied :
      (fuel : ℕ) (bs : List Block) (s : State)
      → length bs < fuel
      → Layout bs
      → AlignedAll os.page_size (parts bs)
      → Holds s.cell bs
      → term_loop os fuel (first bs) s ≡ ok tt (emptied bs s)
  term_loop-emptied zero bs s f l al k = absurd (omega arith)
  term_loop-emptied (suc fuel) [] s f l al k = term_loop-nil fuel s ∙ rw (emptied-nil s) refl
  term_loop-emptied (suc fuel) (b ∷ bs) s f l al k =
      let r = stretch_loop-Stretched fuel 0 b bs s (omega arith) (omega arith) l k in
      let w : Spread (part b.addr r.n ∷ parts r.rest) =
        rw r.is_parts at (Layout-Spread (b ∷ bs) l) in
      let al' : AlignedAll os.page_size (part b.addr r.n ∷ parts r.rest) = rw r.is_parts at al in
      let k' =
        Holds-unmap os.page_size pos (part b.addr r.n) w.0 w.2 al'.0 r.rest (parts r.rest) w.3 al'.1
          (AllIn-parts r.rest) s.cell r.holds in
      term_loop-cons fuel b.addr (first r.rest) s _ l.0 (unmap_from_pointer-eq fuel b bs s r)
      ∙ term_loop-emptied fuel r.rest _ (omega (arith, r.fewer)) r.layout al'.1 k'
      ∙ rw r.is_parts refl

-- No header of the list's blocks is left.
abbrev pub AllGone : List Block → Cells → Type 0
AllGone [] c = Unit {0}
AllGone (b ∷ bs) c = (c b.addr ≡ none) × AllGone bs c

-- What `heap_term` leaves: its calls, and memory outside of the pages unmapped.
pub record Terminated (page : ℕ) (bs : List Block) (s : State) (r : Run (Unit {0})) : Type 0 where
  pub cell : Cells
  pub returns : r ≡ ok tt (record { cell = cell; calls = unmaps page (parts bs) s.calls })
  pub gone : AllGone bs cell
  pub same : (a : Ptr) → OffPages page (parts bs) a → cell a ≡ s.cell a

AllIn-AllGone :
    (page : ℕ) (pos : 0 < page) (bs : List Block) (ps : List Part) (c : Cells)
    → Spread ps
    → AlignedAll page ps
    → AllIn bs ps
    → AllGone bs (clear page ps c)
AllIn-AllGone page pos [] ps c w al h = tt
AllIn-AllGone page pos (b ∷ bs) ps c w al h =
    (clear-InParts page pos ps w al c b h.0, AllIn-AllGone page pos bs ps c w al h.1)

-- Where the blocks from the heap's start on are a list and each of the stretches that they fill
-- starts on a page, `heap_term` ends without a fault: it unmaps each stretch once, in the order of
-- the list, rounded up to pages. No header of the list is left, and the headers outside of those
-- pages are as before. The fuel exceeds the number of blocks.
pub heap_term-Terminated :
    (os : Os)
    → 0 < os.page_size
    → (fuel : ℕ) (bs : List Block) (s : State) → length bs < fuel
    → first bs ≡ heap_start
    → Layout bs
    → AlignedAll os.page_size (parts bs)
    → Holds s.cell bs
    → Terminated os.page_size bs s (heap_term os fuel s)
unfolding heap_term
heap_term-Terminated os pos fuel bs s f start l al k = record {
  cell = clear os.page_size (parts bs) s.cell;
  returns = rw (← start) (term_loop-emptied os pos fuel bs s f l al k);
  gone =
      AllIn-AllGone os.page_size pos bs (parts bs) s.cell (Layout-Spread bs l) al (AllIn-parts bs);
  same = λ a h. clear-OffPages os.page_size (parts bs) s.cell a h;
}
