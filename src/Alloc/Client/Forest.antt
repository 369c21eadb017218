-- ===== src/Alloc/Client/Forest.antt =====
-- The chains of headers in memory: the list that the allocator walks, and the parts of it that
-- `grow_heap` has cut off, in which the client may still hold blocks.
use low_level_programming.Base.{ℕ, ◌+◌, ◌∙◌, List, [], ◌∷◌, arith, length}
use low_level_programming.Alloc.{Cells}
use low_level_programming.Alloc.Chain.{Block, Holds, Apart, ApartAll, Layout}
use low_level_programming.Alloc.Chain.Kept.{OutsideAll, Kept}

abbrev pub HoldsAll : Cells → List (List Block) → Type 0
HoldsAll c [] = Unit {0}
HoldsAll c (bs ∷ css) = Holds c bs × HoldsAll c css

-- No block of the one list overlaps one of the other.
abbrev pub Cross : List Block → List Block → Type 0
Cross bs [] = Unit {0}
Cross bs (d ∷ ds) = ApartAll d bs × Cross bs ds

abbrev pub CrossAll : List Block → List (List Block) → Type 0
CrossAll bs [] = Unit {0}
CrossAll bs (cs ∷ css) = Cross bs cs × CrossAll bs css

-- No two blocks of the chains overlap.
abbrev pub Separate : List (List Block) → Type 0
Separate [] = Unit {0}
Separate (bs ∷ css) = Layout bs × CrossAll bs css × Separate css

abbrev pub AllApart : Block → List (List Block) → Type 0
AllApart d [] = Unit {0}
AllApart d (bs ∷ css) = ApartAll d bs × AllApart d css

abbrev pub count : List (List Block) → ℕ
count [] = 0
count (bs ∷ css) = length bs + count css

abbrev pub head : List (List Block) → List Block
head [] = []
head (bs ∷ css) = bs

pub Apart-sym : (b c : Block) → Apart b c → Apart c b
Apart-sym b c h = omega arith

Cross-nil : (cs : List Block) → Cross [] cs
Cross-nil [] = tt
Cross-nil (c ∷ cs) = (tt, Cross-nil cs)

Cross-cons : (b : Block) (bs cs : List Block) → ApartAll b cs → Cross bs cs → Cross (b ∷ bs) cs
Cross-cons b bs [] a h = tt
Cross-cons b bs (c ∷ cs) a h = ((Apart-sym b c a.0, h.0), Cross-cons b bs cs a.1 h.1)

pub Cross-sym : (bs cs : List Block) → Cross bs cs → Cross cs bs
Cross-sym bs [] h = Cross-nil bs
Cross-sym bs (c ∷ cs) h = Cross-cons c cs bs h.0 (Cross-sym bs cs h.1)

pub Cross-Kept :
    {bs after : List Block} {c c' : Cells} (cs : List Block)
    → Kept bs after c c'
    → Cross bs cs
    → Cross after cs
Cross-Kept [] k h = tt
Cross-Kept (d ∷ ds) k h = (k.apart d h.0, Cross-Kept ds k h.1)

pub CrossAll-Kept :
    {bs after : List Block} {c c' : Cells} (css : List (List Block))
    → Kept bs after c c'
    → CrossAll bs css
    → CrossAll after css
CrossAll-Kept [] k h = tt
CrossAll-Kept (cs ∷ css) k h = (Cross-Kept cs k h.0, CrossAll-Kept css k h.1)

pub ApartAll-OutsideAll : (d : Block) (bs : List Block) → ApartAll d bs → OutsideAll bs d.addr
ApartAll-OutsideAll d [] h = tt
ApartAll-OutsideAll d (b ∷ bs) h = (omega (arith, h.0), ApartAll-OutsideAll d bs h.1)

-- What an operation on one chain leaves of another.
pub Holds-Kept :
    {bs after : List Block} {c c' : Cells} (cs : List Block)
    → Kept bs after c c'
    → Cross bs cs
    → Holds c cs
    → Holds c' cs
Holds-Kept [] k x h = tt
Holds-Kept {bs} (d ∷ ds) k x h =
    (k.same d.addr (ApartAll-OutsideAll d bs x.0) ∙ h.0, Holds-Kept ds k x.1 h.1)

pub HoldsAll-Kept :
    {bs after : List Block} {c c' : Cells} (css : List (List Block))
    → Kept bs after c c'
    → CrossAll bs css
    → HoldsAll c css
    → HoldsAll c' css
HoldsAll-Kept [] k x h = tt
HoldsAll-Kept (cs ∷ css) k x h = (Holds-Kept cs k x.0 h.0, HoldsAll-Kept css k x.1 h.1)
