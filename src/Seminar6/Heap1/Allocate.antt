-- ===== src/Seminar6/Heap1/Allocate.antt =====
-- `block_allocate` and `block_free` one after another.
use low_level_programming.Base.{
  ℕ, zero, suc, ◌+◌, ◌<◌, ◌≡◌, refl, sym, ap, ◌∙◌, true, false, inl, inr, none, some, [], ◌∷◌, ◌++◌,
  arith, ltb, ◌==◌, if◌then◌else◌, Bool-cases, length, replicate, set, length-append, append_assoc,
  get_elem?-append, set-append, length-replicate,
}
use low_level_programming.Seminar6.Heap1.{
  blk_free, blk_one, blk_first, blk_cont, blk_last, Heap, BlockId, block_id_new, block_id_invalid,
  tag, search_at, search_loop, mark_loop, free_loop, block_allocate, block_free,
}
use low_level_programming.Seminar6.Heap1.FirstFit.{
  first_fit, found, search_loop-first_fit, FitsAt, first_fit-FitsAt,
}
use low_level_programming.Seminar6.Heap1.Marks.{tags, mark_loop-tags, free_loop-tags}

-- The statuses of an allocation of `size` blocks.
abbrev pub allocation : ℕ → Heap
allocation zero = []
allocation (suc zero) = blk_one ∷ []
allocation (suc (suc n)) = blk_first ∷ (replicate n blk_cont ++ blk_last ∷ [])

tags-tail :
    (n i start_id size : ℕ)
    → start_id < i
    → i + suc n ≡ start_id + size
    → tags (suc n) i start_id size ≡ replicate n blk_cont ++ blk_last ∷ []
tags-tail zero i start_id size from end = ap (λ s. s ∷ []) (ground arith)
tags-tail (suc n) i start_id size from end =
    let cont : tag i start_id size ≡ blk_cont = ground arith in
    rw (cont, tags-tail n (i + 1) start_id size (omega arith) (omega arith)) refl

tags-allocation :
    (n start_id : ℕ) → tags (suc (suc n)) start_id start_id (suc (suc n)) ≡ allocation (suc (suc n))
tags-allocation n start_id =
    let first : tag start_id start_id (suc (suc n)) ≡ blk_first = ground arith in
    rw (first, tags-tail n (start_id + 1) start_id (suc (suc n)) (omega arith) (omega arith)) refl

-- The outcome of `block_allocate`: no run of free blocks is long enough, and nothing changes; or
-- the first such run holds the allocation, and its first block is returned.
pub data Allocated (size : ℕ) (heap : Heap) (r : Heap × BlockId) : Type 0 where
  full : first_fit size heap ≡ none → r ≡ (heap, block_id_invalid) → Allocated size heap r
  fitted :
      (k : ℕ) (fits : FitsAt size k heap)
      → first_fit size heap ≡ some k
      → r ≡ (fits.before_it ++ (allocation size ++ fits.behind_it), block_id_new k)
      → Allocated size heap r

-- What the two writers leave of a run of free blocks.
marked :
    (size k : ℕ) (xs ys : Heap)
    → 0 < size
    → length xs ≡ k
    → (if size == 1
        then set (xs ++ (replicate size blk_free ++ ys)) k blk_one
        else mark_loop size k k size (xs ++ (replicate size blk_free ++ ys)))
      ≡ xs ++ (allocation size ++ ys)
marked zero k xs ys pos at = absurd (omega arith)
marked (suc zero) k xs ys pos at =
    rw (← at) (set-append xs blk_free ys blk_one ∙ append_assoc xs (blk_one ∷ []) ys)
marked (suc (suc n)) k xs ys pos at =
    let more : (suc (suc n) == 1) ≡ false = ground arith in
    rw (← at, more)
      (mark_loop-tags (suc (suc n)) (length xs) (suc (suc n)) xs ys
        ∙ ap (λ l. xs ++ (l ++ ys)) (tags-allocation n (length xs)))

-- `block_allocate` is first fit: it takes the first run of enough free blocks, marks them and
-- returns the index of the first; where no run is long enough, it changes nothing and returns an
-- invalid id. The size must not be 0.
pub block_allocate-Allocated :
    (heap : Heap) (size : ℕ) → 0 < size → Allocated size heap (block_allocate heap size)
unfolding block_allocate
block_allocate-Allocated heap size pos =
    let v = search_loop heap 0 size (search_at 0 0 0 false) in
    let e : found size v ≡ first_fit size heap = search_loop-first_fit heap size pos in
    elim (Bool-cases (ltb v.max_free size)) [
      | inl short ↦ full (sym (rw short at e)) (rw short refl)
      | inr enough ↦
          let at : first_fit size heap ≡ some v.start_id = sym (rw enough at e) in
          let fits = first_fit-FitsAt size v.start_id heap at in
          let write = λ (h : Heap).
            if size == 1
            then set h v.start_id blk_one
            else mark_loop size v.start_id v.start_id size h in
          fitted v.start_id fits at (
            rw enough (
              ap (λ h. (h, block_id_new v.start_id))
                (ap write fits.parts
                  ∙ marked size v.start_id fits.before_it fits.behind_it pos fits.at)))
    ]

length-allocation : (size : ℕ) → length (allocation size) ≡ size
length-allocation zero = refl
length-allocation (suc zero) = refl
length-allocation (suc (suc n)) =
    omega (arith, length-append (replicate n blk_cont) (blk_last ∷ []), length-replicate n blk_cont)

-- `block_free` of an allocation.
freed :
    (size : ℕ) (xs ys : Heap)
    → 0 < size
    → block_free (xs ++ (allocation size ++ ys)) (block_id_new (length xs))
      ≡ some (xs ++ (replicate size blk_free ++ ys))
unfolding block_free
freed zero xs ys pos = absurd (omega arith)
freed (suc zero) xs ys pos =
    rw (block_free, get_elem?-append xs blk_one ys)
      (ap some (set-append xs blk_one ys blk_free ∙ append_assoc xs (blk_free ∷ []) ys))
freed (suc (suc n)) xs ys pos =
    let heap = xs ++ (allocation (suc (suc n)) ++ ys) in
    let long : length heap ≡ length xs + (suc (suc n) + length ys) =
      length-append xs _
      ∙ ap (λ m. length xs + m)
          (length-append (allocation (suc (suc n))) ys
            ∙ ap (λ m. m + length ys) (length-allocation (suc (suc n)))) in
    rw (block_free, get_elem?-append xs blk_first ((replicate n blk_cont ++ blk_last ∷ []) ++ ys))
      (ap (λ l. free_loop (length heap) (length xs) (xs ++ (l ++ ys)))
          (sym (tags-allocation n (length xs)))
        ∙ free_loop-tags (suc (suc n)) (length heap) (length xs) (suc (suc n)) xs ys (omega arith)
            (omega (arith, long)) (omega arith) (omega arith) refl)

-- What `block_allocate` has marked, `block_free` clears: the heap is as before. The size must not
-- be 0.
pub block_free-block_allocate :
    (heap : Heap) (size : ℕ)
    → 0 < size
    → (block_allocate heap size).1.valid ≡ true
    → block_free (block_allocate heap size).0 (block_allocate heap size).1 ≡ some heap
block_free-block_allocate heap size pos valid = elim (block_allocate-Allocated heap size pos) [
  | full none_fits r ↦ absurd (cc (rw r at valid))
  | fitted k fits at r ↦ rw r (
      ap (λ i. block_free (fits.before_it ++ (allocation size ++ fits.behind_it)) (block_id_new i))
        (sym fits.at)
      ∙ freed size fits.before_it fits.behind_it pos
      ∙ ap some (sym fits.parts))
]
