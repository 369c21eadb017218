-- ===== src/Alloc/Heap/Serve.antt =====
-- `memalloc` on every outcome.
use low_level_programming.Base.{
  ℕ, ◌<◌, ◌≡◌, ◌⊎◌, refl, ◌∙◌, ap, inl, inr, true, false, List, [], ◌∷◌, ◌++◌, arith, ◌==◌,
  if◌then◌else◌, ltb, Bool-cases,
}
use low_level_programming.Alloc.{Ptr, null, State, Cmd, ok, continue, pure, ◌>>=◌}
use low_level_programming.Alloc.Sizes.{block_min_capacity, size_from_capacity}
use low_level_programming.Alloc.Chain.{Block}
use low_level_programming.Alloc.Chain.Coarser.{Coarser, done, keep, glue}
use low_level_programming.Alloc.Chain.Fit.{TooSmall}
use low_level_programming.Alloc.Blocks.{
  search_result, found_good_block, reached_end_not_found, try_memalloc_existing,
}
use low_level_programming.Alloc.Blocks.Merge.{not_null}
use low_level_programming.Alloc.Blocks.Find.{last_free}
use low_level_programming.Alloc.Region.{Os}
use low_level_programming.Alloc.Heap.{grow_heap, memalloc}

-- The size that `memalloc` asks for.
abbrev pub request : ℕ → ℕ
request query = if ltb query block_min_capacity then block_min_capacity else query

-- Every block is in use.
abbrev pub AllTaken : List Block → Type 0
AllTaken [] = Unit {0}
AllTaken (b ∷ bs) = (b.is_free ≡ false) × AllTaken bs

-- `e` is the last free block of `xs ++ e ∷ ys`, or the first block of it where none is free.
abbrev pub GrowsBehind : List Block → Block → List Block → Type 0
GrowsBehind xs e ys = AllTaken ys × ((e.is_free ≡ true) ⊎ ((e.is_free ≡ false) × (xs ≡ [])))

-- Where the last free block stands.
pub record LastFree (bs : List Block) : Type 0 where
  pub before_it : List Block
  pub it : Block
  pub behind_it : List Block
  pub parts : bs ≡ before_it ++ it ∷ behind_it
  pub is_free : it.is_free ≡ true
  pub in_use : AllTaken behind_it
  pub found : (d : Ptr) → last_free d bs ≡ it.addr

pub last_free-cases :
    (bs : List Block) → (AllTaken bs × ((d : Ptr) → last_free d bs ≡ d)) ⊎ LastFree bs
last_free-cases [] = inl (tt, λ d. refl)
last_free-cases (b ∷ bs) = elim (last_free-cases bs) [
  | inr r ↦ inr (record {
    before_it = b ∷ r.before_it;
    it = r.it;
    behind_it = r.behind_it;
    is_free = r.is_free;
    parts = ap (λ l. b ∷ l) r.parts;
    in_use = r.in_use;
    found = λ d. r.found _;
  })
  | inl (all, same) ↦ elim (Bool-cases b.is_free) [
    | inl e ↦ inr (record {
      before_it = [];
      it = b;
      behind_it = bs;
      is_free = e;
      parts = refl;
      in_use = all;
      found = λ d. same _ ∙ ground arith;
    })
    | inr e ↦ inl ((e, all), λ d. same _ ∙ ground arith)
  ]
]

-- Joining blocks makes none smaller: what is too small behind it was too small before.
pub TooSmall-Coarser : {bs cs : List Block} (q : ℕ) → Coarser bs cs → TooSmall q cs → TooSmall q bs
TooSmall-Coarser q done h = tt
TooSmall-Coarser q (keep b r) h = (h.0, TooSmall-Coarser q r h.1)
TooSmall-Coarser q (glue b c e r) h =
    let rest = TooSmall-Coarser q r h in (ground arith, (ground arith, rest.1))

pub TooSmall-last :
    (q : ℕ) (xs : List Block) (d n : Block)
    → TooSmall q (xs ++ d ∷ n ∷ [])
    → n.is_free ≡ true
    → n.capacity < q
TooSmall-last q [] d n h e = h.1.0 e
TooSmall-last q (x ∷ xs) d n h e = TooSmall-last q xs d n h.1 e

-- The code, given what its parts return.
module _ (os : Os) (fuel query : ℕ) (p : Ptr) (s s' : State) (pos : 0 < p) where
  pub memalloc-found :
      (a : Ptr)
      → try_memalloc_existing fuel (request query) p s ≡ ok (search_result found_good_block a) s'
      → memalloc os fuel query p s ≡ ok a s'
  unfolding memalloc
  memalloc-found a e = rw (not_null p pos, e) refl

  abbrev pub retry : Ptr → Cmd Ptr
  retry grown =
      if grown == null
      then pure null
      else do again ← try_memalloc_existing fuel (request query) p; pure again.block

  pub memalloc-grows :
      (d : Ptr)
      → try_memalloc_existing fuel (request query) p s
        ≡ ok (search_result reached_end_not_found d) s'
      → memalloc os fuel query p s
        ≡ continue (grow_heap os d (size_from_capacity (request query)) s') retry
  unfolding memalloc
  memalloc-grows d e = rw (not_null p pos, e) refl
