-- ===== src/Alloc/Client/Cut.antt =====
-- The list that `grow_heap` cuts: what it keeps, and what becomes a chain of its own.
use low_level_programming.Base.{◌⊎◌, inl, inr, List, [], ◌∷◌, ◌++◌}
use low_level_programming.Alloc.Chain.{Block, ApartAll, Layout}
use low_level_programming.Alloc.Client.{Live}
use low_level_programming.Alloc.Client.Forest.{Cross, CrossAll, AllApart}
use low_level_programming.Alloc.Client.InUse.{Has}
use low_level_programming.Alloc.Heap.Grow.{ApartAll-tail}
use low_level_programming.Alloc.Client.Forest.{Apart-sym}

-- Where the heap grows, the list is cut behind `e`, and the new block `n` put there. What is cut off
-- is a chain of its own.
module _ (xs : List Block) (e : Block) (ys : List Block) (n : Block) where
  pub Has-cut : (l : Live) → Has l (xs ++ e ∷ ys) → Has l (xs ++ e ∷ n ∷ []) ⊎ Has l ys
  Has-cut l h = cut xs h
    where
      cut : (zs : List Block) → Has l (zs ++ e ∷ ys) → Has l (zs ++ e ∷ n ∷ []) ⊎ Has l ys
      cut [] (inl k) = inl (inl k)
      cut [] (inr k) = inr k
      cut (z ∷ zs) (inl k) = inl (inl k)
      cut (z ∷ zs) (inr k) = elim (cut zs k) [ inl a ↦ inl (inr a) | inr b ↦ inr b ]

pub ApartAll-drop : (d : Block) (xs ys : List Block) → ApartAll d (xs ++ ys) → ApartAll d ys
ApartAll-drop d [] ys h = h
ApartAll-drop d (x ∷ xs) ys h = ApartAll-drop d xs ys h.1

pub Cross-cut :
    (xs : List Block) (e : Block) (ys : List Block) (n : Block)
    → Layout (xs ++ e ∷ ys)
    → ApartAll n (xs ++ e ∷ ys)
    → Cross ys (xs ++ e ∷ n ∷ [])
Cross-cut [] e ys n l a = (l.2, (a.1, tt))
Cross-cut (x ∷ xs) e ys n l a = ((ApartAll-drop x xs (e ∷ ys) l.2).1, Cross-cut xs e ys n l.3 a.1)

pub Cross-tail :
    (xs : List Block) (e : Block) (ys : List Block) (n : Block) (ds : List Block)
    → ApartAll n ds
    → Cross (xs ++ e ∷ ys) ds
    → Cross (xs ++ e ∷ n ∷ []) ds × Cross ys ds
Cross-tail xs e ys n [] a x = (tt, tt)
Cross-tail xs e ys n (d ∷ ds) a x =
    let (k, k') = Cross-tail xs e ys n ds a.1 x.1 in
    (
      (ApartAll-tail d xs e n ys x.0 (Apart-sym n d a.0), k),
      ((ApartAll-drop d xs (e ∷ ys) x.0).1, k'),
    )

pub CrossAll-tail :
    (xs : List Block) (e : Block) (ys : List Block) (n : Block) (css : List (List Block))
    → AllApart n css
    → CrossAll (xs ++ e ∷ ys) css
    → CrossAll (xs ++ e ∷ n ∷ []) css × CrossAll ys css
CrossAll-tail xs e ys n [] a x = (tt, tt)
CrossAll-tail xs e ys n (ds ∷ css) a x =
    let (k, k') = Cross-tail xs e ys n ds a.0 x.0 in
    let (m, m') = CrossAll-tail xs e ys n css a.1 x.1 in ((k, m), (k', m'))
