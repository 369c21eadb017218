-- ===== src/Alloc/Chain/Splice.antt =====
-- Replacing one block in the middle of a list by blocks that lie inside it.
use low_level_programming.Base.{◌+◌, ◌≤◌, ◌<◌, ◌≡◌, ◌⊎◌, refl, sym, ◌∙◌, List, [], ◌∷◌, ◌++◌, arith}
use low_level_programming.Alloc.{Ptr, Cells}
use low_level_programming.Alloc.Chain.{
  Block, end_of, first, Holds, Apart, ApartAll, Layout, total, taken,
}

-- An address that is none of the block's.
abbrev pub Outside : Block → Ptr → Type 0
Outside b a = (a < b.addr) ⊎ (end_of b ≤ a)

-- Memory changed at most at addresses of the block.
abbrev pub SameOutside : Block → Cells → Cells → Type 0
SameOutside b c c' = (a : Ptr) → Outside b a → c' a ≡ c a

abbrev pub Inside : Block → Block → Type 0
Inside b p = (b.addr ≤ p.addr) × (end_of p ≤ end_of b)

abbrev pub InsideAll : Block → List Block → Type 0
InsideAll b [] = Unit {0}
InsideAll b (p ∷ ps) = Inside b p × InsideAll b ps

pub Holds-drop : (c : Cells) (xs ys : List Block) → Holds c (xs ++ ys) → Holds c ys
Holds-drop c [] ys k = k
Holds-drop c (x ∷ xs) ys k = Holds-drop c xs ys k.1

pub Layout-drop : (xs ys : List Block) → Layout (xs ++ ys) → Layout ys
Layout-drop [] ys l = l
Layout-drop (x ∷ xs) ys l = Layout-drop xs ys l.3

pub Apart-middle :
    (x : Block) (xs : List Block) (b : Block) (ys : List Block)
    → ApartAll x (xs ++ b ∷ ys)
    → Apart x b
Apart-middle x [] b ys h = h.0
Apart-middle x (z ∷ xs) b ys h = Apart-middle x xs b ys h.1

-- The blocks apart from `b` keep their headers.
pub Holds-SameOutside :
    (b : Block) (ys : List Block) (c c' : Cells)
    → SameOutside b c c'
    → ApartAll b ys
    → Holds c ys
    → Holds c' ys
Holds-SameOutside b [] c c' same a k = tt
Holds-SameOutside b (y ∷ ys) c c' same a k =
    (same y.addr (omega arith) ∙ k.0, Holds-SameOutside b ys c c' same a.1 k.1)

pub first-append :
    (xs ys zs : List Block) → first ys ≡ first zs → first (xs ++ ys) ≡ first (xs ++ zs)
first-append [] ys zs e = e
first-append (x ∷ xs) ys zs e = refl

-- What comes before `b` keeps its headers, where the replacement starts at the same address.
pub Holds-splice :
    (xs : List Block) (b : Block) (ys zs : List Block) (c c' : Cells)
    → SameOutside b c c'
    → first zs ≡ b.addr
    → Layout (xs ++ b ∷ ys)
    → Holds c (xs ++ b ∷ ys)
    → Holds c' zs
    → Holds c' (xs ++ zs)
Holds-splice [] b ys zs c c' same e l k h = h
Holds-splice (x ∷ xs) b ys zs c c' same e l k h =
    let apart = Apart-middle x xs b ys l.2 in
    (
      rw (← first-append xs (b ∷ ys) zs (sym e)) (same x.addr (omega arith) ∙ k.0),
      Holds-splice xs b ys zs c c' same e l.3 k.1 h,
    )

ApartAll-append :
    (x : Block) (xs ys : List Block) → ApartAll x xs → ApartAll x ys → ApartAll x (xs ++ ys)
ApartAll-append x [] ys p q = q
ApartAll-append x (z ∷ xs) ys p q = (p.0, ApartAll-append x xs ys p.1 q)

ApartAll-InsideAll : (x b : Block) (ps : List Block) → Apart x b → InsideAll b ps → ApartAll x ps
ApartAll-InsideAll x b [] a i = tt
ApartAll-InsideAll x b (p ∷ ps) a i = (omega arith, ApartAll-InsideAll x b ps a i.1)

pub Inside-ApartAll : (b p : Block) (ys : List Block) → Inside b p → ApartAll b ys → ApartAll p ys
Inside-ApartAll b p [] i a = tt
Inside-ApartAll b p (y ∷ ys) i a = (omega arith, Inside-ApartAll b p ys i a.1)

Layout-InsideAll :
    (b : Block) (ps ys : List Block)
    → InsideAll b ps
    → Layout ps
    → ApartAll b ys
    → Layout ys
    → Layout (ps ++ ys)
Layout-InsideAll b [] ys i lp a l = l
Layout-InsideAll b (p ∷ ps) ys i lp a l = (
  lp.0,
  lp.1,
  ApartAll-append p ps ys lp.2 (Inside-ApartAll b p ys i.0 a),
  Layout-InsideAll b ps ys i.1 lp.3 a l,
)

pub ApartAll-splice :
    (x : Block) (xs : List Block) (b : Block) (ps ys : List Block)
    → InsideAll b ps
    → ApartAll x (xs ++ b ∷ ys)
    → ApartAll x (xs ++ (ps ++ ys))
ApartAll-splice x [] b ps ys i a = ApartAll-append x ps ys (ApartAll-InsideAll x b ps a.0 i) a.1
ApartAll-splice x (z ∷ xs) b ps ys i a = (a.0, ApartAll-splice x xs b ps ys i a.1)

pub Layout-splice :
    (xs : List Block) (b : Block) (ps ys : List Block)
    → InsideAll b ps
    → Layout ps
    → Layout (xs ++ b ∷ ys)
    → Layout (xs ++ (ps ++ ys))
Layout-splice [] b ps ys i lp l = Layout-InsideAll b ps ys i lp l.2 l.3
Layout-splice (x ∷ xs) b ps ys i lp l =
    (l.0, l.1, ApartAll-splice x xs b ps ys i l.2, Layout-splice xs b ps ys i lp l.3)

pub total-append : (xs ys : List Block) → total (xs ++ ys) ≡ total xs + total ys
total-append [] ys = omega arith
total-append (x ∷ xs) ys = omega (arith, total-append xs ys)

pub taken-append : (xs ys : List Block) → taken (xs ++ ys) ≡ taken xs ++ taken ys
taken-append [] ys = refl
taken-append (x ∷ xs) ys = ground (arith, taken-append xs ys)
