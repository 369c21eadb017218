-- ===== src/Alloc/Chain/Scan.antt =====
-- The search for a block, as a function on the list of blocks.
use low_level_programming.Base.{
  ℕ, ◌≤◌, ◌≡◌, refl, inl, inr, true, false, ◌&&◌, List, [], ◌∷◌, ◌++◌, arith, if◌then◌else◌, leb,
  length, Bool-cases,
}
use low_level_programming.Alloc.Chain.{Block, join, can_join}
use low_level_programming.Alloc.Chain.Coarser.{Coarser, done, keep, glue, Coarser-refl}

-- A block joined with the free blocks that follow it without a gap, and the rest.
unfoldable pub absorb : Block → List Block → Block × List Block
absorb b [] = (b, [])
absorb b (c ∷ cs) = let more = absorb (join b c) cs in if can_join b c then more else (b, c ∷ cs)

-- Where the search ends: at a good block, or behind the last.
pub data Found : Type 0 where
  good : (before : List Block) (b : Block) (after : List Block) → Found
  missing : List Block → Found

abbrev pub push : Block → Found → Found
push p (good xs b ys) = good (p ∷ xs) b ys
push p (missing xs) = missing (p ∷ xs)

-- The list that the search leaves.
abbrev pub blocks_of : Found → List Block
blocks_of (good xs b ys) = xs ++ b ∷ ys
blocks_of (missing xs) = xs

-- First fit from the block `p` on, where free neighbours are joined on the way.
unfoldable pub visit : ℕ → Block → List Block → Found
visit sz p [] = if p.is_free && leb sz p.capacity then good [] p [] else missing (p ∷ [])
visit sz p (c ∷ cs) =
    let joined = visit sz (join p c) cs in
    let skipped = push p (visit sz c cs) in
    if can_join p c
    then joined
    else if p.is_free && leb sz p.capacity
    then good [] p (c ∷ cs)
    else skipped

unfoldable pub scan : ℕ → List Block → Found
unfolding visit
scan sz [] = missing []
scan sz (b ∷ bs) = visit sz b bs

pub absorb-is_free : (b : Block) (bs : List Block) → (absorb b bs).0.is_free ≡ b.is_free
unfolding absorb
absorb-is_free b [] = refl
absorb-is_free b (c ∷ cs) = ground (arith, absorb-is_free (join b c) cs)

pub absorb-addr : (b : Block) (bs : List Block) → (absorb b bs).0.addr ≡ b.addr
unfolding absorb
absorb-addr b [] = refl
absorb-addr b (c ∷ cs) = ground (arith, absorb-addr (join b c) cs)

pub length-absorb : (b : Block) (bs : List Block) → length (absorb b bs).1 ≤ length bs
unfolding absorb
length-absorb b [] = omega arith
length-absorb b (c ∷ cs) = ground (arith, length-absorb (join b c) cs)

pub absorb-Coarser :
    (b : Block) (bs : List Block) → Coarser (b ∷ bs) ((absorb b bs).0 ∷ (absorb b bs).1)
unfolding absorb
absorb-Coarser b [] = Coarser-refl (b ∷ [])
absorb-Coarser b (c ∷ cs) = elim (Bool-cases (can_join b c)) [
  | inl e ↦ rw e (glue b c e (absorb-Coarser (join b c) cs))
  | inr e ↦ rw e (Coarser-refl (b ∷ c ∷ cs))
]

pub scan-nil : (sz : ℕ) → scan sz [] ≡ missing []
unfolding scan
scan-nil sz = refl

-- A block in use is passed over.
pub scan-taken :
    (sz : ℕ) (b : Block) (bs : List Block)
    → b.is_free ≡ false
    → scan sz (b ∷ bs) ≡ push b (scan sz bs)
unfolding scan
scan-taken sz b [] e = rw e
scan-taken sz b (c ∷ cs) e = rw e

-- A free block is first joined with what follows it, then tried.
pub scan-free :
    (sz : ℕ) (b : Block) (bs : List Block)
    → b.is_free ≡ true
    → scan sz (b ∷ bs) ≡ (
        if leb sz (absorb b bs).0.capacity
        then good [] (absorb b bs).0 (absorb b bs).1
        else push (absorb b bs).0 (scan sz (absorb b bs).1))
unfolding scan absorb
scan-free sz b [] e = rw e
scan-free sz b (c ∷ cs) e = elim (Bool-cases (can_join b c)) [
  | inl j ↦ rw j (scan-free sz (join b c) cs e)
  | inr j ↦ rw (j, e)
]

pub blocks_of-push : (p : Block) (r : Found) → blocks_of (push p r) ≡ p ∷ blocks_of r
blocks_of-push p (good xs b ys) = refl
blocks_of-push p (missing xs) = refl

visit-Coarser :
    (sz : ℕ) (p : Block) (bs : List Block) → Coarser (p ∷ bs) (blocks_of (visit sz p bs))
unfolding visit
visit-Coarser sz p [] = elim (Bool-cases (p.is_free && leb sz p.capacity)) [
  | inl e ↦ rw e (Coarser-refl (p ∷ []))
  | inr e ↦ rw e (Coarser-refl (p ∷ []))
]
visit-Coarser sz p (c ∷ cs) = elim (Bool-cases (can_join p c)) [
  | inl j ↦ rw j (glue p c j (visit-Coarser sz (join p c) cs))
  | inr j ↦ rw j (elim (Bool-cases (p.is_free && leb sz p.capacity)) [
    | inl e ↦ rw e (Coarser-refl (p ∷ c ∷ cs))
    | inr e ↦ rw (e, blocks_of-push) (keep p (visit-Coarser sz c cs))
  ])
]

-- The search changes the list only by joining free neighbours.
pub scan-Coarser : (sz : ℕ) (bs : List Block) → Coarser bs (blocks_of (scan sz bs))
unfolding scan
scan-Coarser sz [] = done
scan-Coarser sz (b ∷ bs) = visit-Coarser sz b bs
