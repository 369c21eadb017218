-- ===== src/Alloc/Client/Requests.antt =====
-- A call of `_malloc`, at any heap that a client can meet.
use low_level_programming.Base.{
  ℕ, suc, ◌+◌, ◌≤◌, ◌<◌, ◌≡◌, inl, inr, refl, ap, ◌∙◌, false, List, ◌∷◌, arith, length, All, ◌==◌,
}
use low_level_programming.Alloc.{Ptr, null, map_failed, State, ok}
use low_level_programming.Alloc.Sizes.{contents_offset, size_mod, add_size, heap_start}
use low_level_programming.Alloc.Chain.{Block, Holds, Layout, taken}
use low_level_programming.Alloc.Chain.Kept.{Kept}
use low_level_programming.Alloc.Blocks.{SearchResult}
use low_level_programming.Alloc.Blocks.Take.{Served}
use low_level_programming.Alloc.Region.{Os}
use low_level_programming.Alloc.Region.Map.{fresh_block}
use low_level_programming.Alloc.Heap.{memalloc, malloc}
use low_level_programming.Alloc.Heap.Serve.{request}
use low_level_programming.Alloc.Client.{Live, live_at, request_call}
use low_level_programming.Alloc.Client.Forest.{CrossAll, count}
use low_level_programming.Alloc.Client.InUse.{HasAll, Has-taken, taken-Has}
use low_level_programming.Alloc.Client.Forest.{CrossAll-Kept, HoldsAll-Kept}
use low_level_programming.Alloc.Client.Invariant.{Fresh, Distinct, ValidAt, Valid, All-map, Stepped}
use low_level_programming.Alloc.Client.Served.{
  Has-Served, fresh-Has, Has-ne_new, CrossAll-ne_new, ptr_fits,
}

module _ (os : Os) (fuel query : ℕ) (live : List Live) (s s' : State) where
  pub request_call-null :
      memalloc os fuel query heap_start s ≡ ok null s'
      → request_call os fuel query live s ≡ ok live s'
  unfolding request_call malloc
  request_call-null e = rw e refl

  pub request_call-some :
      (p : Ptr)
      → memalloc os fuel query heap_start s ≡ ok p s'
      → (0 < p) × (p + contents_offset < size_mod)
      → request_call os fuel query live s ≡ ok (live_at (p + contents_offset) query ∷ live) s'
  unfolding request_call malloc
  request_call-some p e h =
      let pos : (p == null) ≡ false = ground arith in
      let fits : add_size p contents_offset ≡ p + contents_offset = omega arith in
      let pos' : (p + contents_offset == null) ≡ false = ground arith in
      rw (e, pos, fits, pos') refl

module _ (os : Os) (fuel query n : ℕ) (live : List Live) (s : State) (main : List Block)
    (lost : List (List Block)) (h : ValidAt os.page_size (main ∷ lost) n live s) where
  -- The list of the allocator is replaced by what it has made of it.
  kept_chains :
      (after : List Block) (s' : State) (m : ℕ) (now : List Live)
      → Holds s'.cell after
      → Layout after
      → Kept main after s.cell s'.cell
      → ((p k : ℕ) → Fresh p k s'.calls → Fresh p k s.calls)
      → length after + count lost ≤ m
      → All (λ l. HasAll l (after ∷ lost)) now
      → Distinct now
      → Valid os.page_size m now s'
  kept_chains after s' m now k l kept older few' has' distinct' = record {
    chains = after ∷ lost;
    valid = record {
      starts = kept.start ∙ h.starts;
      paged = kept.paged os.page_size 0 h.paged;
      few = few';
      holds = (k, HoldsAll-Kept lost kept h.separate.1 h.holds.1);
      separate = (l, CrossAll-Kept lost kept h.separate.1, h.separate.2);
      covered = λ p j big new.
          let a = h.covered p j big (older p j new) in (kept.apart (fresh_block p j) a.0, a.1);
      has = has';
      distinct = distinct';
    };
  }

  pub Stepped-Served :
      (after : List Block) (r : SearchResult) (s' : State)
      → memalloc os fuel query heap_start s ≡ ok r.block s'
      → Holds s'.cell after
      → Layout after
      → Served (request query) main after r
      → Kept main after s.cell s'.cell
      → s'.calls ≡ s.calls
      → length after ≤ suc (length main)
      → Stepped os.page_size n (request_call os fuel query live s)
  Stepped-Served after r s' e k l v kept same longer =
      let q = request query in
      let separate' : CrossAll after lost = CrossAll-Kept lost kept h.separate.1 in
      let now = live_at (v.it.addr + contents_offset) query ∷ live in
      record {
        now = now;
        s = s';
        returns =
            request_call-some os fuel query live s s' v.it.addr
              (e ∙ ap (λ t. ok t.block s') v.result) (ptr_fits q main after r v l);
        valid =
            kept_chains after s' (n + 2) now k l kept (λ p j new. rw same at new)
              (omega (arith, h.few))
              (
                inl (fresh-Has q main after r v l query (ground arith)),
                All-map live h.has (λ m old. elim old [
                  | inl a ↦ inl (Has-Served q main after r v l m a)
                  | inr b ↦ inr b
                ]),
              )
              (
                All-map live h.has (λ m old. elim old [
                  | inl a ↦ Has-ne_new q main after r v l m a
                  | inr b ↦ CrossAll-ne_new q main after r v l m lost separate' b
                ]),
                h.distinct,
              );
      }

  pub Stepped-no_memory :
      (after : List Block) (s' : State) (a j : ℕ)
      → memalloc os fuel query heap_start s ≡ ok null s'
      → Holds s'.cell after
      → Layout after
      → taken after ≡ taken main
      → Kept main after s.cell s'.cell
      → s'.calls ≡ map_failed a j ∷ map_failed a j ∷ s.calls
      → length after ≤ length main
      → Stepped os.page_size n (request_call os fuel query live s)
  Stepped-no_memory after s' a j e k l same kept called shorter = record {
    now = live;
    s = s';
    returns = request_call-null os fuel query live s s' e;
    valid =
        kept_chains after s' (n + 2) live k l kept (λ p i new. rw called at new)
          (omega (arith, h.few))
          (All-map live h.has (λ m old. elim old [
            | inl b ↦ inl (taken-Has m after (rw (← same) at (Has-taken m main b)))
            | inr b ↦ inr b
          ]))
          h.distinct;
  }
