-- ===== src/Seminar6/Heap1/FirstFit.antt =====
-- `block_allocate` against a definition of first fit.
use mathlib.Core.Path.{subst}
use low_level_programming.Base.{
  ℕ, zero, suc, ◌+◌, ◌≤◌, ◌<◌, ◌≡◌, refl, sym, ap, ◌∙◌, Bool, true, false, inl, inr, Option, none,
  some, [], ◌∷◌, ◌++◌, arith, max, ltb, leb, if◌then◌else◌, Bool-cases, Option-cases, length,
  replicate, replicate-append,
}
use low_level_programming.Seminar6.Heap1.{
  Status, blk_free, blk_one, blk_first, blk_cont, blk_last, Heap, Search, search_at, search_loop,
}

-- Whether `size` free blocks stand at the start.
abbrev pub free_run : ℕ → Heap → Bool
free_run zero heap = true
free_run (suc size) (blk_free ∷ heap) = free_run size heap
free_run (suc size) heap = false

abbrev pub later : Option ℕ → Option ℕ
later none = none
later (some k) = some (suc k)

-- The first index at which `size` free blocks stand.
unfoldable pub first_fit : ℕ → Heap → Option ℕ
first_fit size [] = if free_run size [] then some 0 else none
first_fit size (s ∷ heap) =
    let rest = later (first_fit size heap) in if free_run size (s ∷ heap) then some 0 else rest

abbrev shift : ℕ → Option ℕ → Option ℕ
shift n none = none
shift n (some k) = some (n + k)

shift-later : (n : ℕ) (o : Option ℕ) → shift n (later o) ≡ shift (n + 1) o
shift-later n none = refl
shift-later n (some k) = ap some (omega arith)

shift-suc : (n : ℕ) (o : Option ℕ) → later (shift (n + 1) o) ≡ shift (suc n + 1) o
shift-suc n none = refl
shift-suc n (some k) = ap some (omega arith)

shift-shift : (m n : ℕ) (o : Option ℕ) → shift m (shift n o) ≡ shift (m + n) o
shift-shift m n none = refl
shift-shift m n (some k) = ap some (omega arith)

-- What the first loop has found.
abbrev pub found : ℕ → Search → Option ℕ
found size v = if ltb v.max_free size then none else some v.start_id

free_run-replicate :
    (size n : ℕ) (heap : Heap) → size ≤ n → free_run size (replicate n blk_free ++ heap) ≡ true
free_run-replicate zero n heap h = refl
free_run-replicate (suc size) zero heap h = absurd (omega arith)
free_run-replicate (suc size) (suc n) heap h = free_run-replicate size n heap (omega arith)

-- A run that is too short does not fit, in front of the end or of a block in use.
free_run-short : (size n : ℕ) → n < size → free_run size (replicate n blk_free ++ []) ≡ false
free_run-short zero n h = absurd (omega arith)
free_run-short (suc size) zero h = refl
free_run-short (suc size) (suc n) h = free_run-short size n (omega arith)

first_fit-short : (size n : ℕ) → n < size → first_fit size (replicate n blk_free ++ []) ≡ none
unfolding first_fit
first_fit-short zero n h = absurd (omega arith)
first_fit-short (suc size) zero h = refl
first_fit-short (suc size) (suc n) h =
    rw (free_run-short size n (omega arith), first_fit-short (suc size) n (omega arith)) refl

-- A block in use.
abbrev IsUsed : Status → Type 0
IsUsed blk_free = ⊥
IsUsed _ = Unit

free_run-used :
    (size n : ℕ) (s : Status) (heap : Heap)
    → IsUsed s
    → n < size
    → free_run size (replicate n blk_free ++ s ∷ heap) ≡ false
free_run-used zero n s heap u h = absurd (omega arith)
free_run-used (suc size) zero blk_free heap u h = absurd u
free_run-used (suc size) zero blk_one heap u h = refl
free_run-used (suc size) zero blk_first heap u h = refl
free_run-used (suc size) zero blk_cont heap u h = refl
free_run-used (suc size) zero blk_last heap u h = refl
free_run-used (suc size) (suc n) s heap u h = free_run-used size n s heap u (omega arith)

first_fit-used :
    (size n : ℕ) (s : Status) (heap : Heap)
    → IsUsed s
    → n < size
    → first_fit size (replicate n blk_free ++ s ∷ heap) ≡ shift (n + 1) (first_fit size heap)
unfolding first_fit
first_fit-used size zero s heap u h =
    rw (free_run-used size 0 s heap u h) (one_later (first_fit size heap))
  where
    one_later : (o : Option ℕ) → later o ≡ shift (0 + 1) o
    one_later none = refl
    one_later (some k) = ap some (omega arith)
first_fit-used size (suc n) s heap u h =
    rw (free_run-used size (suc n) s heap u h, first_fit-used size n s heap u (omega arith))
      (shift-suc n (first_fit size heap))

first_fit-start :
    (size : ℕ) (heap : Heap) → free_run size heap ≡ true → first_fit size heap ≡ some 0
unfolding first_fit
first_fit-start size [] h = rw h refl
first_fit-start size (s ∷ heap) h = rw h refl

not_yet : (size m : ℕ) → m < size → ltb m size ≡ true
not_yet size m h = ground arith

-- A free block behind a run of `c`, from what holds of the blocks behind it.
free-step :
    (rest : Heap) (size s c m : ℕ)
    → m < size
    → (c + 1 < size
        → max (c + 1) m < size
        → found size
            (search_loop rest (s + (c + 1)) size (search_at (max (c + 1) m) s (c + 1) true))
          ≡ shift s (first_fit size (replicate (c + 1) blk_free ++ rest)))
    → found size (search_loop (blk_free ∷ rest) (s + c) size (search_at m s c true))
      ≡ shift s (first_fit size (replicate c blk_free ++ blk_free ∷ rest))
unfolding search_loop
free-step rest size s c m low ih =
    let more = replicate-append c blk_free rest in
    elim (Bool-cases (leb size (max (c + 1) m))) [
      | inl stop ↦
          let enough : ltb (max (c + 1) m) size ≡ false = ground arith in
          let run : free_run size (replicate c blk_free ++ blk_free ∷ rest) ≡ true =
            rw more (free_run-replicate size (suc c) rest (ground arith)) in
          rw (stop, enough, first_fit-start size _ run) (ap some (omega arith))
      | inr on ↦
          let next : s + c + 1 ≡ s + (c + 1) = omega arith in
          let one_more : c + 1 ≡ suc c = omega arith in
          rw (on, next) (ih (ground arith) (ground arith) ∙ rw (one_more, ← more) refl)
    ]

-- The first loop, in a run of `c` free blocks that starts at `s`, and between two runs.
mutual
  unfolding search_loop

  found-started :
      (heap : Heap) (size s c m : ℕ)
      → c < size
      → m < size
      → found size (search_loop heap (s + c) size (search_at m s c true))
        ≡ shift s (first_fit size (replicate c blk_free ++ heap))
  found-started [] size s c m short low = rw (not_yet size m low, first_fit-short size c short) refl
  found-started (blk_free ∷ rest) size s c m short low =
      free-step rest size s c m low (found-started rest size s (c + 1) (max (c + 1) m))
  found-started (u ∷ rest) size s c m short low =
      let next : s + c + 1 ≡ s + (c + 1) = omega arith in
      found-between rest size (s + c + 1) m s low
      ∙ rw (next, first_fit-used size c u rest tt short)
          (sym (shift-shift s (c + 1) (first_fit size rest)))

  found-between :
      (heap : Heap) (size i m s : ℕ)
      → m < size
      → found size (search_loop heap i size (search_at m s 0 false)) ≡ shift i (first_fit size heap)
  found-between [] size i m s low =
      rw (not_yet size m low, first_fit-short size 0 (omega arith)) refl
  found-between (blk_free ∷ rest) size i m s low =
      let here : i + 0 ≡ i = omega arith in
      rw here at (free-step rest size i 0 m low (found-started rest size i (0 + 1) (max (0 + 1) m)))
  found-between (u ∷ rest) size i m s low =
      found-between rest size (i + 1) m s low
      ∙ sym (
          ap (shift i) (first_fit-used size 0 u rest tt (omega arith))
          ∙ shift-shift i 1 (first_fit size rest))

shift-zero : (o : Option ℕ) → shift 0 o ≡ o
shift-zero none = refl
shift-zero (some k) = ap some (omega arith)

-- The first loop finds the first index at which `size` blocks are free.
pub search_loop-first_fit :
    (heap : Heap) (size : ℕ)
    → 0 < size
    → found size (search_loop heap 0 size (search_at 0 0 0 false)) ≡ first_fit size heap
search_loop-first_fit heap size pos = found-between heap size 0 0 0 pos ∙ shift-zero _

-- A fit splits the heap.
pub record FitsAt (size k : ℕ) (heap : Heap) : Type 0 where
  pub before_it : Heap
  pub behind_it : Heap
  pub at : length before_it ≡ k
  pub parts : heap ≡ before_it ++ (replicate size blk_free ++ behind_it)

free_run-parts :
    (size : ℕ) (heap : Heap)
    → free_run size heap ≡ true
    → (rest : Heap) × (heap ≡ replicate size blk_free ++ rest)
free_run-parts zero heap h = (heap, refl)
free_run-parts (suc size) [] h = absurd (cc h)
free_run-parts (suc size) (blk_free ∷ heap) h =
    let (rest, e) = free_run-parts size heap h in (rest, ap (λ l. blk_free ∷ l) e)
free_run-parts (suc size) (u ∷ heap) h = absurd (cc h)

fits_here : (size k : ℕ) (heap : Heap) → free_run size heap ≡ true → 0 ≡ k → FitsAt size k heap
fits_here size k heap h at =
    let (rest, e) = free_run-parts size heap h in
    record { before_it = []; behind_it = rest; at = at; parts = e }

fits_later :
    (size k : ℕ) (s : Status) (heap : Heap) → FitsAt size k heap → FitsAt size (suc k) (s ∷ heap)
fits_later size k s heap f = record {
  before_it = s ∷ f.before_it;
  behind_it = f.behind_it;
  at = ap suc f.at;
  parts = ap (λ l. s ∷ l) f.parts;
}

pub first_fit-FitsAt :
    (size k : ℕ) (heap : Heap) → first_fit size heap ≡ some k → FitsAt size k heap
unfolding first_fit
first_fit-FitsAt size k [] h = elim (Bool-cases (free_run size [])) [
  | inl run ↦ fits_here size k [] run (cc (rw run at h))
  | inr no_run ↦ absurd (cc (rw no_run at h))
]
first_fit-FitsAt size k (s ∷ heap) h = elim (Bool-cases (free_run size (s ∷ heap))) [
  | inl run ↦ fits_here size k (s ∷ heap) run (cc (rw run at h))
  | inr no_run ↦ elim (Option-cases (first_fit size heap)) [
    | inl nowhere ↦ absurd (cc (rw (no_run, nowhere) at h))
    | inr (k', e) ↦
        let next : suc k' ≡ k = cc (rw (no_run, e) at h) in
        subst (λ n. FitsAt size n (s ∷ heap)) next
          (fits_later size k' s heap (first_fit-FitsAt size k' heap e))
  ]
]
