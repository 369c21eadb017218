-- ===== src/Alloc/Client/Grows.antt =====
-- A call of `_malloc` for which the heap grows.
use mathlib.Core.Path.{subst}
use low_level_programming.Base.{
  ℕ, ◌+◌, ◌≤◌, ◌<◌, ◌≡◌, ◌⊎◌, inl, inr, ap, ◌∙◌, Bool, List, [], ◌∷◌, ◌++◌, arith, length,
}
use low_level_programming.Alloc.{Cells, State, ok}
use low_level_programming.Alloc.Sizes.{contents_offset, size_mod, heap_start}
use low_level_programming.Alloc.Chain.{Block, Holds, Apart, ApartAll, Layout}
use low_level_programming.Alloc.Chain.Coarser.{
  Coarser, ApartAll-Coarser, Layout-Coarser, taken-Coarser,
}
use low_level_programming.Alloc.Chain.Paged.{OnPages, OnPages-tail}
use low_level_programming.Alloc.Chain.Kept.{Kept}
use low_level_programming.Alloc.Blocks.{SearchResult}
use low_level_programming.Alloc.Blocks.Take.{Served}
use low_level_programming.Alloc.Region.{Os}
use low_level_programming.Alloc.Region.Map.{Mapped, fresh_block}
use low_level_programming.Alloc.Heap.{memalloc}
use low_level_programming.Alloc.Heap.Serve.{request}
use low_level_programming.Alloc.Heap.Outcome.{Outcome, memalloc-Outcome, served, no_memory, grown}
use low_level_programming.Alloc.Client.{Live, live_at, request_call}
use low_level_programming.Alloc.Client.Forest.{HoldsAll, Cross, CrossAll, Separate, AllApart}
use low_level_programming.Alloc.Client.InUse.{Has, HasAll, Has-taken, taken-Has}
use low_level_programming.Alloc.Chain.Splice.{Holds-drop, Layout-drop}
use low_level_programming.Alloc.Heap.Grow.{ApartAll-tail}
use low_level_programming.Alloc.Heap.Joined.{first-replace}
use low_level_programming.Alloc.Client.Forest.{
  Cross-sym, Cross-Kept, CrossAll-Kept, Holds-Kept, HoldsAll-Kept,
}
use low_level_programming.Alloc.Client.Invariant.{Fresh, IsSystem, ValidAt, Valid, All-map, Stepped}
use low_level_programming.Alloc.Client.Served.{
  Mapped-Fresh, Mapped-aligned, Fresh-Mapped, AllApart-Answers, Has-Served, fresh-Has, Has-ne_new,
  CrossAll-ne_new, ptr_fits,
}
use low_level_programming.Alloc.Client.Cut.{Has-cut, ApartAll-drop, Cross-cut, CrossAll-tail}
use low_level_programming.Alloc.Client.Requests.{
  request_call-some, Stepped-Served, Stepped-no_memory,
}

module _ (os : Os) (sys : IsSystem os) (fuel query n : ℕ) (live : List Live) (s : State)
    (main : List Block) (lost : List (List Block)) (h : ValidAt os.page_size (main ∷ lost) n live s)
    (xs : List Block) (e : Block) (ys : List Block) (a p size : ℕ) (extends : Bool) (mid : Cells)
    (after : List Block) (r : SearchResult) (s' : State) (joined : Coarser main (xs ++ e ∷ ys))
    (first_kept : Kept main (xs ++ e ∷ ys) s.cell mid) (held : Holds mid (xs ++ e ∷ ys))
    (big : contents_offset ≤ size) (mapping : Mapped os s.calls a size p extends s'.calls)
    (k : Holds s'.cell after) (l : Layout after)
    (v : Served (request query) (xs ++ e ∷ fresh_block p size ∷ []) after r)
    (kept : Kept (xs ++ e ∷ fresh_block p size ∷ []) after mid s'.cell) where
  abbrev new : Block
  new = fresh_block p size

  abbrev grown_list : List Block
  grown_list = xs ++ e ∷ new ∷ []

  Layout-cut : Layout (xs ++ e ∷ ys)
  Layout-cut = Layout-Coarser joined h.separate.0

  new-AllApart : AllApart new (main ∷ lost)
  new-AllApart =
      let (pos, fit, fresh) = Mapped-Fresh os sys s.calls a size p extends s'.calls mapping in
      h.covered p size big fresh

  new-ApartAll : ApartAll new (xs ++ e ∷ ys)
  new-ApartAll = ApartAll-Coarser new joined new-AllApart.0

  Cross-grown : Cross grown_list ys
  Cross-grown = Cross-sym ys grown_list (Cross-cut xs e ys new Layout-cut new-ApartAll)

  CrossAll-cut : CrossAll grown_list lost × CrossAll ys lost
  CrossAll-cut =
      CrossAll-tail xs e ys new lost new-AllApart.1 (CrossAll-Kept lost first_kept h.separate.1)

  Separate-grown : Separate (after ∷ ys ∷ lost)
  Separate-grown = (
    l,
    (Cross-Kept ys kept Cross-grown, CrossAll-Kept lost kept CrossAll-cut.0),
    ((Layout-drop xs (e ∷ ys) Layout-cut).3, CrossAll-cut.1, h.separate.2),
  )

  HoldsAll-grown : HoldsAll s'.cell (after ∷ ys ∷ lost)
  HoldsAll-grown = (
    k,
    (
      Holds-Kept ys kept Cross-grown (Holds-drop mid xs (e ∷ ys) held).1,
      HoldsAll-Kept lost kept CrossAll-cut.0 (HoldsAll-Kept lost first_kept h.separate.1 h.holds.1),
    ),
  )

  OnPages-grown : OnPages os.page_size 0 grown_list
  OnPages-grown =
      OnPages-tail os.page_size 0 xs e new ys
        (Mapped-aligned os sys s.calls a size p extends s'.calls mapping)
        (first_kept.paged os.page_size 0 h.paged)

  covered-grown :
      (q m : ℕ)
      → contents_offset ≤ m
      → Fresh q m s'.calls
      → AllApart (fresh_block q m) (after ∷ ys ∷ lost)
  covered-grown q m large fresh =
      let d = fresh_block q m in
      let (off, older) = Fresh-Mapped os s.calls a size p extends s'.calls q m mapping fresh in
      let old = h.covered q m large older in
      let cut = ApartAll-Coarser d joined old.0 in
      let apart : Apart d new = omega (arith, off) in
      (
        kept.apart d (ApartAll-tail d xs e new ys cut apart),
        ((ApartAll-drop d xs (e ∷ ys) cut).1, old.1),
      )

  -- A block in use is in what is kept of the list, or in what is cut off.
  Has-grown : (m : Live) → HasAll m (main ∷ lost) → Has m grown_list ⊎ HasAll m (ys ∷ lost)
  Has-grown m (inr b) = inr (inr b)
  Has-grown m (inl b) =
      let there : Has m (xs ++ e ∷ ys) =
        taken-Has m (xs ++ e ∷ ys) (rw (← taken-Coarser joined) at (Has-taken m main b)) in
      elim (Has-cut xs e ys new m there) [ inl c ↦ inl c | inr d ↦ inr (inl d) ]

  pub Stepped-grown :
      memalloc os fuel query heap_start s ≡ ok r.block s'
      → length after + length ys ≤ length main + 2
      → Stepped os.page_size n (request_call os fuel query live s)
  Stepped-grown returned longer =
      let q = request query in
      let now = live_at (v.it.addr + contents_offset) query ∷ live in
      record {
        now = now;
        s = s';
        returns =
            request_call-some os fuel query live s s' v.it.addr
              (returned ∙ ap (λ t. ok t.block s') v.result) (ptr_fits q grown_list after r v l);
        valid = record {
          chains = after ∷ ys ∷ lost;
          valid = record {
            starts = kept.start ∙ first-replace xs e (new ∷ []) ys ∙ first_kept.start ∙ h.starts;
            paged = kept.paged os.page_size 0 OnPages-grown;
            few = omega (arith, h.few);
            holds = HoldsAll-grown;
            separate = Separate-grown;
            covered = covered-grown;
            has = (
              inl (fresh-Has q grown_list after r v l query (ground arith)),
              All-map live h.has (λ m old. elim (Has-grown m old) [
                | inl c ↦ inl (Has-Served q grown_list after r v l m c)
                | inr d ↦ inr d
              ]),
            );
            distinct = (
              All-map live h.has (λ m old. elim (Has-grown m old) [
                | inl c ↦ Has-ne_new q grown_list after r v l m c
                | inr d ↦ CrossAll-ne_new q grown_list after r v l m (ys ∷ lost) Separate-grown.1 d
              ]),
              h.distinct,
            );
          };
        };
      }

-- A call of `_malloc` ends without a fault at every heap that a client can meet, and leaves one.
pub request_call-Stepped :
    (os : Os)
    → IsSystem os
    → (fuel query n : ℕ) (live : List Live) (s : State) → n + 1 < fuel
    → request query + 41 + os.page_size ≤ size_mod
    → Valid os.page_size n live s
    → Stepped os.page_size n (request_call os fuel query live s)
request_call-Stepped os sys fuel query n live s f room v = at v.chains v.valid
  where
    at :
        (chains : List (List Block))
        → ValidAt os.page_size chains n live s
        → Stepped os.page_size n (request_call os fuel query live s)
    at [] h = absurd (omega (arith, h.starts))
    at ([] ∷ lost) h = absurd (omega (arith, h.starts))
    at ((b ∷ bs) ∷ lost) h =
        let ans =
          AllApart-Answers os sys s.calls (b ∷ bs) (λ p m big new. (h.covered p m big new).0) in
        let o =
          memalloc-Outcome os fuel query b bs s (omega (arith, h.few)) room ans h.holds.0
            h.separate.0 in
        elim (subst (λ a. Outcome os (request query) (b ∷ bs) s (memalloc os fuel query a s))
          h.starts o) [
            | served after r s' e k l w kept same longer ↦
                Stepped-Served os fuel query n live s (b ∷ bs) lost h after r s' e k l w kept same
                  longer
            | no_memory after s' a j e k l same few apart kept called shorter ↦
                Stepped-no_memory os fuel query n live s (b ∷ bs) lost h after s' a j e k l same
                  kept called shorter
            | grown xs e ys a p size ext mid after r s' joined kept0 held used few apart big mapping
                  ret k l w kept longer ↦
                Stepped-grown os sys fuel query n live s (b ∷ bs) lost h xs e ys a p size ext mid
                  after r s' joined kept0 held big mapping k l w kept ret longer
          ]
