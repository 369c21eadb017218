-- ===== src/Alloc/Chain/Fit.antt =====
-- What the search finds: the first block that is large enough, or that there is none.
use low_level_programming.Base.{
  ℕ, ◌≤◌, ◌<◌, ◌≡◌, inl, inr, refl, true, false, ◌&&◌, List, [], ◌∷◌, ◌++◌, arith, leb, Bool-cases,
}
use low_level_programming.Alloc.Chain.{Block, join, can_join}
use low_level_programming.Alloc.Chain.Scan.{Found, good, missing, push, visit, scan}

-- Every free block is too small; a block cannot be joined with the one behind it.
abbrev pub TooSmall : ℕ → List Block → Type 0
TooSmall sz [] = Unit {0}
TooSmall sz (b ∷ bs) = (b.is_free ≡ true → b.capacity < sz) × TooSmall sz bs

abbrev pub Unjoinable : Block → List Block → Type 0
Unjoinable b [] = Unit {0}
Unjoinable b (c ∷ cs) = can_join b c ≡ false

-- No block can be joined with the one behind it.
abbrev pub AllUnjoinable : List Block → Type 0
AllUnjoinable [] = Unit {0}
AllUnjoinable (b ∷ bs) = Unjoinable b bs × AllUnjoinable bs

-- The block that ends the search is free and fits, and cannot be joined with what comes behind it.
-- Of the blocks before it none can be joined with its successor, and all are too small.
abbrev pub Fits : ℕ → Found → Type 0
Fits sz (good xs b ys) =
    (b.is_free ≡ true)
    × (sz ≤ b.capacity)
    × TooSmall sz xs
    × Unjoinable b ys
    × AllUnjoinable (xs ++ b ∷ [])
Fits sz (missing xs) = TooSmall sz xs × AllUnjoinable xs

-- The first block that the search leaves stands where the list starts, and is as free.
Starts : Block → Found → Type 0
Starts c (good [] b ys) = (b.addr ≡ c.addr) × (b.is_free ≡ c.is_free)
Starts c (good (x ∷ xs) b ys) = (x.addr ≡ c.addr) × (x.is_free ≡ c.is_free)
Starts c (missing []) = ⊥
Starts c (missing (x ∷ xs)) = (x.addr ≡ c.addr) × (x.is_free ≡ c.is_free)

Starts-push : (p : Block) (r : Found) → Starts p (push p r)
unfolding Starts
Starts-push p (good xs b ys) = (refl, refl)
Starts-push p (missing xs) = (refl, refl)

Starts-join : (p c : Block) (r : Found) → Starts (join p c) r → Starts p r
unfolding Starts
Starts-join p c (good [] b ys) h = h
Starts-join p c (good (x ∷ xs) b ys) h = h
Starts-join p c (missing []) h = h
Starts-join p c (missing (x ∷ xs)) h = h

Starts-visit : (sz : ℕ) (p : Block) (bs : List Block) → Starts p (visit sz p bs)
unfolding visit Starts
Starts-visit sz p [] = elim (Bool-cases (p.is_free && leb sz p.capacity)) [
  | inl e ↦ rw e (refl, refl)
  | inr e ↦ rw e (refl, refl)
]
Starts-visit sz p (c ∷ cs) = elim (Bool-cases (can_join p c)) [
  | inl j ↦ rw j (Starts-join p c _ (Starts-visit sz (join p c) cs))
  | inr j ↦ rw j (elim (Bool-cases (p.is_free && leb sz p.capacity)) [
    | inl e ↦ rw e (refl, refl)
    | inr e ↦ rw e (Starts-push p (visit sz c cs))
  ])
]

can_join-same :
    (p c x : Block)
    → (x.addr ≡ c.addr) × (x.is_free ≡ c.is_free)
    → can_join p c ≡ false
    → can_join p x ≡ false
can_join-same p c x h j = rw (h.0, h.1) j

Fits-push :
    (sz : ℕ) (p c : Block) (r : Found)
    → (p.is_free ≡ true → p.capacity < sz)
    → Starts c r
    → can_join p c ≡ false
    → Fits sz r
    → Fits sz (push p r)
unfolding Starts
Fits-push sz p c (good [] b ys) h st j f =
    (f.0, f.1, (h, f.2), f.3, (can_join-same p c b st j, f.4))
Fits-push sz p c (good (x ∷ xs) b ys) h st j f =
    (f.0, f.1, (h, f.2), f.3, (can_join-same p c x st j, f.4))
Fits-push sz p c (missing []) h st j f = absurd st
Fits-push sz p c (missing (x ∷ xs)) h st j f = ((h, f.0), (can_join-same p c x st j, f.1))

small :
    (sz : ℕ) (p : Block)
    → (p.is_free && leb sz p.capacity) ≡ false
    → p.is_free ≡ true
    → p.capacity < sz
small sz p e f = ground arith

Fits-visit : (sz : ℕ) (p : Block) (bs : List Block) → Fits sz (visit sz p bs)
unfolding visit
Fits-visit sz p [] = elim (Bool-cases (p.is_free && leb sz p.capacity)) [
  | inl e ↦ rw e (ground arith, ground arith, tt, tt, (tt, tt))
  | inr e ↦ rw e ((small sz p e, tt), (tt, tt))
]
Fits-visit sz p (c ∷ cs) = elim (Bool-cases (can_join p c)) [
  | inl j ↦ rw j (Fits-visit sz (join p c) cs)
  | inr j ↦ rw j (elim (Bool-cases (p.is_free && leb sz p.capacity)) [
    | inl e ↦ rw e (ground arith, ground arith, tt, j, (tt, tt))
    | inr e ↦ rw e (
        Fits-push sz p c (visit sz c cs) (small sz p e) (Starts-visit sz c cs) j
          (Fits-visit sz c cs))
  ])
]

pub Fits-scan : (sz : ℕ) (bs : List Block) → Fits sz (scan sz bs)
unfolding scan
Fits-scan sz [] = (tt, tt)
Fits-scan sz (b ∷ bs) = Fits-visit sz b bs
