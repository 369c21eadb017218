-- ===== src/Alloc/Chain/Kept.antt =====
-- What an operation on a list of blocks leaves to the rest of memory: it works on the bytes of the
-- list, and its new blocks lie there.
use low_level_programming.Base.{ℕ, ◌≡◌, ◌∙◌, true, List, [], ◌∷◌, ◌++◌, arith}
use low_level_programming.Alloc.{Ptr, Cells}
use low_level_programming.Alloc.Chain.{Block, first, ApartAll, Away, join, can_join}
use low_level_programming.Alloc.Chain.Coarser.{
  Coarser, done, keep, glue, first-Coarser, ApartAll-Coarser,
}
use low_level_programming.Alloc.Chain.Paged.{OnPages, Tiles, OnPages-Coarser, OnPages-splice}
use low_level_programming.Alloc.Chain.Splice.{Outside, SameOutside, InsideAll, ApartAll-splice}

-- An address that is none of a list's blocks.
abbrev pub OutsideAll : List Block → Ptr → Type 0
OutsideAll [] a = Unit {0}
OutsideAll (b ∷ bs) a = Outside b a × OutsideAll bs a

-- The list `after` takes the place of `bs`, and `c'` that of `c`.
pub record Kept (bs after : List Block) (c c' : Cells) : Type 0 where
  pub start : first after ≡ first bs
  pub apart : (d : Block) → ApartAll d bs → ApartAll d after
  pub paged : (page : ℕ) (e : Ptr) → OnPages page e bs → OnPages page e after
  pub outside : (a : Ptr) → OutsideAll bs a → OutsideAll after a
  pub same : (a : Ptr) → OutsideAll bs a → c' a ≡ c a

pub Kept-trans :
    {bs cs ds : List Block} {c c' c'' : Cells}
    → Kept bs cs c c'
    → Kept cs ds c' c''
    → Kept bs ds c c''
Kept-trans k k' = record {
  start = k'.start ∙ k.start;
  apart = λ d h. k'.apart d (k.apart d h);
  paged = λ page e h. k'.paged page e (k.paged page e h);
  outside = λ a h. k'.outside a (k.outside a h);
  same = λ a h. k'.same a (k.outside a h) ∙ k.same a h;
}

pub OutsideAll-Away : (bs : List Block) (a : Ptr) → OutsideAll bs a → Away a bs
OutsideAll-Away [] a h = tt
OutsideAll-Away (b ∷ bs) a h = (λ e. omega (arith, h.0), OutsideAll-Away bs a h.1)

Outside-join :
    (b c : Block) (a : Ptr) → can_join b c ≡ true → Outside b a → Outside c a → Outside (join b c) a
Outside-join b c a e p q = ground arith

OutsideAll-Coarser :
    {bs cs : List Block} (a : Ptr) → Coarser bs cs → OutsideAll bs a → OutsideAll cs a
OutsideAll-Coarser a done h = tt
OutsideAll-Coarser a (keep b r) h = (h.0, OutsideAll-Coarser a r h.1)
OutsideAll-Coarser a (glue b c e r) h =
    OutsideAll-Coarser a r (Outside-join b c a e h.0 h.1.0, h.1.1)

-- Joining free neighbours, with writes at headers only.
pub Kept-Coarser :
    {bs cs : List Block} {c c' : Cells}
    → Coarser bs cs
    → ((a : Ptr) → Away a bs → c' a ≡ c a)
    → Kept bs cs c c'
Kept-Coarser {bs} r same = record {
  start = first-Coarser r;
  apart = λ d h. ApartAll-Coarser d r h;
  paged = λ page e h. OnPages-Coarser page e r h;
  outside = λ a h. OutsideAll-Coarser a r h;
  same = λ a h. same a (OutsideAll-Away bs a h);
}

OutsideAll-append :
    (xs ys : List Block) (a : Ptr) → OutsideAll xs a → OutsideAll ys a → OutsideAll (xs ++ ys) a
OutsideAll-append [] ys a h k = k
OutsideAll-append (x ∷ xs) ys a h k = (h.0, OutsideAll-append xs ys a h.1 k)

OutsideAll-InsideAll :
    (b : Block) (ps : List Block) (a : Ptr) → InsideAll b ps → Outside b a → OutsideAll ps a
OutsideAll-InsideAll b [] a i h = tt
OutsideAll-InsideAll b (p ∷ ps) a i h = (omega arith, OutsideAll-InsideAll b ps a i.1 h)

pub OutsideAll-middle :
    (xs : List Block) (b : Block) (ys : List Block) (a : Ptr)
    → OutsideAll (xs ++ b ∷ ys) a
    → Outside b a
OutsideAll-middle [] b ys a h = h.0
OutsideAll-middle (x ∷ xs) b ys a h = OutsideAll-middle xs b ys a h.1

OutsideAll-splice :
    (xs : List Block) (b : Block) (ps ys : List Block) (a : Ptr)
    → InsideAll b ps
    → OutsideAll (xs ++ b ∷ ys) a
    → OutsideAll (xs ++ (ps ++ ys)) a
OutsideAll-splice [] b ps ys a i h =
    OutsideAll-append ps ys a (OutsideAll-InsideAll b ps a i h.0) h.1
OutsideAll-splice (x ∷ xs) b ps ys a i h = (h.0, OutsideAll-splice xs b ps ys a i h.1)

-- A block replaced by blocks inside it.
pub Kept-splice :
    (xs : List Block) (b : Block) (ps ys : List Block) (c c' : Cells)
    → InsideAll b ps
    → Tiles b ps
    → SameOutside b c c'
    → first (xs ++ (ps ++ ys)) ≡ first (xs ++ b ∷ ys)
    → Kept (xs ++ b ∷ ys) (xs ++ (ps ++ ys)) c c'
Kept-splice xs b ps ys c c' i tiles same e = record {
  start = e;
  apart = λ d h. ApartAll-splice d xs b ps ys i h;
  paged = λ page q h. OnPages-splice page q xs b ps ys tiles h;
  outside = λ a h. OutsideAll-splice xs b ps ys a i h;
  same = λ a h. same a (OutsideAll-middle xs b ys a h);
}
