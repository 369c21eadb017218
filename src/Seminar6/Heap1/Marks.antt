-- ===== src/Seminar6/Heap1/Marks.antt =====
-- The blocks that `block_allocate` marks, and that `block_free` clears.
use low_level_programming.Base.{
  ℕ, zero, suc, ◌+◌, ◌-◌, ◌≤◌, ◌<◌, ◌≡◌, ◌≢◌, ◌⊎◌, refl, sym, ap, ◌∙◌, inl, inr, some, [], ◌∷◌,
  ◌++◌, arith, length, replicate, set, get_elem?, length-append, append_assoc, get_elem?-append,
  set-append,
}
use low_level_programming.Seminar6.Heap1.{
  Status, blk_free, blk_first, blk_cont, blk_last, Heap, tag, mark_loop, free_loop,
}

-- The statuses of the blocks from `i` on of an allocation.
abbrev pub tags : (left i start_id size : ℕ) → Heap
tags zero i start_id size = []
tags (suc left) i start_id size = tag i start_id size ∷ tags left (i + 1) start_id size

pub mark_loop-tags :
    (left start_id size : ℕ) (xs ys : Heap)
    → mark_loop left (length xs) start_id size (xs ++ (replicate left blk_free ++ ys))
      ≡ xs ++ (tags left (length xs) start_id size ++ ys)
unfolding mark_loop
mark_loop-tags zero start_id size xs ys = refl
mark_loop-tags (suc left) start_id size xs ys =
    let t = tag (length xs) start_id size in
    let next : length xs + 1 ≡ length (xs ++ t ∷ []) = sym (length-append xs (t ∷ [])) in
    rw (set-append xs blk_free (replicate left blk_free ++ ys) t, next)
      (mark_loop-tags left start_id size (xs ++ t ∷ []) ys ∙ append_assoc xs (t ∷ []) _)

-- A block of an allocation that is not its last.
tag-middle :
    (i start_id size : ℕ)
    → i ≢ start_id + size - 1
    → (tag i start_id size ≡ blk_first) ⊎ (tag i start_id size ≡ blk_cont)
tag-middle i start_id size h = ground arith

free_round :
    (fuel i : ℕ) (heap : Heap) (s : Status)
    → get_elem? heap i ≡ some s
    → (s ≡ blk_first) ⊎ (s ≡ blk_cont)
    → free_loop (suc fuel) i heap ≡ free_loop fuel (i + 1) (set heap i blk_free)
unfolding free_loop
free_round fuel i heap s e (inl f) = rw (free_loop, e, f) refl
free_round fuel i heap s e (inr c) = rw (free_loop, e, c) refl

free_last :
    (fuel i : ℕ) (heap : Heap)
    → get_elem? heap i ≡ some blk_last
    → free_loop (suc fuel) i heap ≡ some (set heap i blk_free)
unfolding free_loop
free_last fuel i heap e = rw (free_loop, e) refl

-- The loop of `block_free` clears what is left of an allocation of two blocks or more.
pub free_loop-tags :
    (left fuel start_id size : ℕ) (xs ys : Heap)
    → 0 < left
    → left ≤ fuel
    → 2 ≤ size
    → start_id ≤ length xs
    → length xs + left ≡ start_id + size
    → free_loop fuel (length xs) (xs ++ (tags left (length xs) start_id size ++ ys))
      ≡ some (xs ++ (replicate left blk_free ++ ys))
free_loop-tags zero fuel start_id size xs ys pos rounds two from end = absurd (omega arith)
free_loop-tags (suc left) zero start_id size xs ys pos rounds two from end = absurd (omega arith)
free_loop-tags (suc zero) (suc fuel) start_id size xs ys pos rounds two from end =
    let last : tag (length xs) start_id size ≡ blk_last = ground arith in
    rw last (
      free_last fuel (length xs) (xs ++ blk_last ∷ ys) (get_elem?-append xs blk_last ys)
      ∙ ap some (set-append xs blk_last ys blk_free ∙ append_assoc xs (blk_free ∷ []) ys))
free_loop-tags (suc (suc left)) (suc fuel) start_id size xs ys pos rounds two from end =
    let t = tag (length xs) start_id size in
    let behind = tags (suc left) (length xs + 1) start_id size ++ ys in
    let next : length xs + 1 ≡ length (xs ++ blk_free ∷ []) =
      sym (length-append xs (blk_free ∷ [])) in
    free_round fuel (length xs) (xs ++ t ∷ behind) t (get_elem?-append xs t behind)
      (tag-middle (length xs) start_id size (omega arith))
    ∙ rw (set-append xs t behind blk_free, next)
        (free_loop-tags (suc left) fuel start_id size (xs ++ blk_free ∷ []) ys (omega arith)
            (omega arith) two (omega (arith, next)) (omega (arith, next))
          ∙ ap some (append_assoc xs (blk_free ∷ []) _))
