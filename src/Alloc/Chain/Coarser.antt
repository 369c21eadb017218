-- ===== src/Alloc/Chain/Coarser.antt =====
-- Joining free blocks that touch: what it keeps.
use low_level_programming.Base.{◌≤◌, ◌≡◌, refl, true, List, [], ◌∷◌, ◌++◌, arith, length}
use low_level_programming.Alloc.{Ptr}
use low_level_programming.Alloc.Chain.{
  Block, first, Apart, ApartAll, Layout, Away, join, can_join, total, taken,
}

-- The second list is the first with some free neighbours joined.
pub data Coarser : List Block → List Block → Type 0 where
  done : Coarser [] []
  keep : (b : Block) {bs cs : List Block} → Coarser bs cs → Coarser (b ∷ bs) (b ∷ cs)
  glue :
      (b c : Block) {bs cs : List Block}
      → can_join b c ≡ true
      → Coarser (join b c ∷ bs) cs
      → Coarser (b ∷ c ∷ bs) cs

pub Coarser-refl : (bs : List Block) → Coarser bs bs
Coarser-refl [] = done
Coarser-refl (b ∷ bs) = keep b (Coarser-refl bs)

pub total-Coarser : {bs cs : List Block} → Coarser bs cs → total cs ≡ total bs
total-Coarser done = refl
total-Coarser (keep b r) = omega (arith, total-Coarser r)
total-Coarser (glue b c e r) = omega (arith, total-Coarser r)

pub taken-Coarser : {bs cs : List Block} → Coarser bs cs → taken cs ≡ taken bs
taken-Coarser done = refl
taken-Coarser (keep b r) = ground (arith, taken-Coarser r)
taken-Coarser (glue b c e r) = ground (arith, taken-Coarser r)

pub first-Coarser : {bs cs : List Block} → Coarser bs cs → first cs ≡ first bs
first-Coarser done = refl
first-Coarser (keep b r) = refl
first-Coarser (glue b c e r) = first-Coarser r

Apart-join : (d b c : Block) → can_join b c ≡ true → Apart d b → Apart d c → Apart d (join b c)
Apart-join d b c e p q = ground arith

pub ApartAll-Coarser :
    {bs cs : List Block} (d : Block) → Coarser bs cs → ApartAll d bs → ApartAll d cs
ApartAll-Coarser d done h = tt
ApartAll-Coarser d (keep b r) h = (h.0, ApartAll-Coarser d r h.1)
ApartAll-Coarser d (glue b c e r) h = ApartAll-Coarser d r (Apart-join d b c e h.0 h.1.0, h.1.1)

Join-ApartAll :
    (b c : Block) (ds : List Block)
    → can_join b c ≡ true
    → ApartAll b ds
    → ApartAll c ds
    → ApartAll (join b c) ds
Join-ApartAll b c [] e p q = tt
Join-ApartAll b c (d ∷ ds) e p q = (ground arith, Join-ApartAll b c ds e p.1 q.1)

pub Layout-join :
    (b c : Block) (bs : List Block)
    → can_join b c ≡ true
    → Layout (b ∷ c ∷ bs)
    → Layout (join b c ∷ bs)
Layout-join b c bs e l = (l.0, ground arith, Join-ApartAll b c bs e l.2.1 l.3.2, l.3.3)

pub Layout-Coarser : {bs cs : List Block} → Coarser bs cs → Layout bs → Layout cs
Layout-Coarser done l = tt
Layout-Coarser (keep b r) l = (l.0, l.1, ApartAll-Coarser b r l.2, Layout-Coarser r l.3)
Layout-Coarser (glue b c e r) l = Layout-Coarser r (Layout-join b c _ e l)

pub Away-Coarser : {bs cs : List Block} (a : Ptr) → Coarser bs cs → Away a bs → Away a cs
Away-Coarser a done h = tt
Away-Coarser a (keep b r) h = (h.0, Away-Coarser a r h.1)
Away-Coarser a (glue b c e r) h = Away-Coarser a r (h.0, h.1.1)

pub ApartAll-Away : (b : Block) (bs : List Block) → ApartAll b bs → Away b.addr bs
ApartAll-Away b [] h = tt
ApartAll-Away b (c ∷ cs) h = (ground arith, ApartAll-Away b cs h.1)

pub Coarser-append :
    {bs cs : List Block} (xs : List Block) → Coarser bs cs → Coarser (xs ++ bs) (xs ++ cs)
Coarser-append [] r = r
Coarser-append (x ∷ xs) r = keep x (Coarser-append xs r)

pub length-Coarser : {bs cs : List Block} → Coarser bs cs → length cs ≤ length bs
length-Coarser done = omega arith
length-Coarser (keep b r) = omega (arith, length-Coarser r)
length-Coarser (glue b c e r) = omega (arith, length-Coarser r)
