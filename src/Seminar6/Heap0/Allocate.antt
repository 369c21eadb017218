-- ===== src/Seminar6/Heap0/Allocate.antt =====
-- `block_allocate` and `block_free` of `heap-0.c`.
use low_level_programming.Base.{
  ◌+◌, ◌≡◌, refl, sym, ap, ◌∙◌, true, false, Option, none, some, [], ◌∷◌, ◌++◌, length,
  length-append, append_assoc, append_nil, get_elem?-append, set-append,
}
use low_level_programming.Seminar6.Heap0.{
  Heap, BlockId, block_id_new, allocate_loop, block_allocate, block_free,
}

-- Every block is in use.
abbrev pub AllOccupied : Heap → Type 0
AllOccupied [] = Unit
AllOccupied (o ∷ heap) = (o ≡ true) × AllOccupied heap

-- The outcome of `block_allocate`: no block is free, and nothing is returned; or the first free
-- block is now in use, and returned.
pub data Allocated (heap : Heap) (r : Option (Heap × BlockId)) : Type 0 where
  full : AllOccupied heap → r ≡ none → Allocated heap r
  taken :
      (xs ys : Heap)
      → AllOccupied xs
      → heap ≡ xs ++ false ∷ ys
      → r ≡ some (xs ++ true ∷ ys, block_id_new (length xs))
      → Allocated heap r

AllOccupied-append : (xs : Heap) → AllOccupied xs → AllOccupied (xs ++ true ∷ [])
AllOccupied-append [] h = (refl, tt)
AllOccupied-append (x ∷ xs) h = (h.0, AllOccupied-append xs h.1)

allocate_loop-Allocated :
    (rest xs : Heap)
    → AllOccupied xs
    → Allocated (xs ++ rest) (allocate_loop rest (length xs) (xs ++ rest))
unfolding allocate_loop
allocate_loop-Allocated [] xs h = full (rw (append_nil xs) h) refl
allocate_loop-Allocated (false ∷ rest) xs h = taken xs rest h refl (
    ap (λ l. some (l, block_id_new (length xs)))
      (set-append xs false rest true ∙ append_assoc xs (true ∷ []) rest))
allocate_loop-Allocated (true ∷ rest) xs h =
    let next : length xs + 1 ≡ length (xs ++ true ∷ []) = sym (length-append xs (true ∷ [])) in
    let shape : xs ++ true ∷ rest ≡ (xs ++ true ∷ []) ++ rest =
      sym (append_assoc xs (true ∷ []) rest) in
    rw (next, shape) (allocate_loop-Allocated rest (xs ++ true ∷ []) (AllOccupied-append xs h))

-- `block_allocate` takes the first free block and returns its index; where no block is free it ends
-- without a result.
pub block_allocate-Allocated : (heap : Heap) → Allocated heap (block_allocate heap)
unfolding block_allocate
block_allocate-Allocated heap = allocate_loop-Allocated heap [] tt

-- `block_free` of the block that was taken gives the heap back.
pub block_free-block_allocate :
    (heap heap' : Heap) (b : BlockId)
    → block_allocate heap ≡ some (heap', b)
    → block_free heap' b ≡ some heap
unfolding block_free
block_free-block_allocate heap heap' b e = elim (block_allocate-Allocated heap) [
  | full _ none_left ↦ absurd (cc (e, none_left))
  | taken xs ys used parts r ↦
      let same : xs ++ true ∷ ys ≡ heap' = cc (e, r) in
      let id : block_id_new (length xs) ≡ b = cc (e, r) in
      rw (← same, ← id)
        (rw (block_free, get_elem?-append xs true ys)
          (ap some (set-append xs true ys false ∙ append_assoc xs (false ∷ []) ys ∙ sym parts)))
]
