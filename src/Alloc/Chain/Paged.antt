-- ===== src/Alloc/Chain/Paged.antt =====
-- Where the blocks of a list start: on a page, or where the block in front of them ends.
use low_level_programming.Base.{ℕ, ◌%◌, ◌≡◌, ◌⊎◌, inl, List, [], ◌∷◌, ◌++◌, arith}
use mathlib.Core.Path.{subst}
use low_level_programming.Alloc.{Ptr}
use low_level_programming.Alloc.Chain.{Block, end_of, join}
use low_level_programming.Alloc.Chain.Coarser.{Coarser, done, keep, glue}

-- `e` is where the block in front of the list ends.
abbrev pub OnPages : ℕ → Ptr → List Block → Type 0
OnPages page e [] = Unit {0}
OnPages page e (b ∷ bs) = ((b.addr % page ≡ 0) ⊎ (b.addr ≡ e)) × OnPages page (end_of b) bs

pub OnPages-Coarser :
    {bs cs : List Block} (page : ℕ) (e : Ptr)
    → Coarser bs cs
    → OnPages page e bs
    → OnPages page e cs
OnPages-Coarser page e done h = tt
OnPages-Coarser page e (keep b r) h = (h.0, OnPages-Coarser page (end_of b) r h.1)
OnPages-Coarser page e (glue b c {bs} j r) h =
    let same : end_of c ≡ end_of (join b c) = ground arith in
    OnPages-Coarser page e r (h.0, subst (λ (q : Ptr). OnPages page q bs) same h.1.1)

-- Blocks that take a block's place in every list.
abbrev pub Tiles : Block → List Block → Type 0
Tiles b ps =
    (page : ℕ) (e : Ptr) (ys : List Block) → OnPages page e (b ∷ ys) → OnPages page e (ps ++ ys)

pub OnPages-splice :
    (page : ℕ) (e : Ptr) (xs : List Block) (b : Block) (ps ys : List Block)
    → Tiles b ps
    → OnPages page e (xs ++ b ∷ ys)
    → OnPages page e (xs ++ (ps ++ ys))
OnPages-splice page e [] b ps ys t h = t page e ys h
OnPages-splice page e (x ∷ xs) b ps ys t h = (h.0, OnPages-splice page (end_of x) xs b ps ys t h.1)

-- A block on a page, put behind `d` in place of what stood there.
pub OnPages-tail :
    (page : ℕ) (e : Ptr) (xs : List Block) (d n : Block) (ys : List Block)
    → n.addr % page ≡ 0
    → OnPages page e (xs ++ d ∷ ys)
    → OnPages page e (xs ++ d ∷ n ∷ [])
OnPages-tail page e [] d n ys on h = (h.0, (inl on, tt))
OnPages-tail page e (x ∷ xs) d n ys on h = (h.0, OnPages-tail page (end_of x) xs d n ys on h.1)
