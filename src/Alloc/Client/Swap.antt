-- ===== src/Alloc/Client/Swap.antt =====
-- One chain of many replaced by what an operation has made of it.
use low_level_programming.Base.{ℕ, ◌+◌, ◌≤◌, ◌≡◌, refl, List, ◌∷◌, arith, length}
use low_level_programming.Alloc.{Cells}
use low_level_programming.Alloc.Chain.{Block, first, Holds, Layout}
use low_level_programming.Alloc.Chain.Paged.{OnPages}
use low_level_programming.Alloc.Chain.Kept.{Kept}
use low_level_programming.Alloc.Client.Forest.{
  HoldsAll, Cross, CrossAll, Separate, AllApart, count, head, Cross-sym, Cross-Kept, CrossAll-Kept,
  Holds-Kept, HoldsAll-Kept,
}

pub data Swap (bs after : List Block) : List (List Block) → List (List Block) → Type 0 where
  here : (css : List (List Block)) → Swap bs after (bs ∷ css) (after ∷ css)
  there :
      (cs : List Block) {css css' : List (List Block)}
      → Swap bs after css css'
      → Swap bs after (cs ∷ css) (cs ∷ css')

module _ {bs after : List Block} where
  pub Swap-Layout :
      {css css' : List (List Block)} → Swap bs after css css' → Separate css → Layout bs
  Swap-Layout (here css) h = h.0
  Swap-Layout (there cs w) h = Swap-Layout w h.2

  pub Swap-Holds :
      {css css' : List (List Block)} (c : Cells)
      → Swap bs after css css'
      → HoldsAll c css
      → Holds c bs
  Swap-Holds c (here css) h = h.0
  Swap-Holds c (there cs w) h = Swap-Holds c w h.1

  Swap-Cross :
      {css css' : List (List Block)} (cs : List Block)
      → Swap bs after css css'
      → CrossAll cs css
      → Cross cs bs
  Swap-Cross cs (here css) h = h.0
  Swap-Cross cs (there ds w) h = Swap-Cross cs w h.1

  pub Swap-count :
      {css css' : List (List Block)}
      → Swap bs after css css'
      → count css' + length bs ≡ count css + length after
  Swap-count (here css) = omega arith
  Swap-count (there cs w) = omega (arith, Swap-count w)

  pub Swap-le : {css css' : List (List Block)} → Swap bs after css css' → length bs ≤ count css
  Swap-le (here css) = omega arith
  Swap-le (there cs w) = omega (arith, Swap-le w)

  module _ {c c' : Cells} (k : Kept bs after c c') where
    Swap-CrossAll :
        {css css' : List (List Block)} (cs : List Block)
        → Swap bs after css css'
        → CrossAll cs css
        → CrossAll cs css'
    Swap-CrossAll cs (here css) h =
        (Cross-sym after cs (Cross-Kept cs k (Cross-sym cs bs h.0)), h.1)
    Swap-CrossAll cs (there ds w) h = (h.0, Swap-CrossAll cs w h.1)

    pub Swap-Separate :
        {css css' : List (List Block)}
        → Swap bs after css css'
        → Layout after
        → Separate css
        → Separate css'
    Swap-Separate (here css) l h = (l, CrossAll-Kept css k h.1, h.2)
    Swap-Separate (there cs w) l h = (h.0, Swap-CrossAll cs w h.1, Swap-Separate w l h.2)

    pub Swap-HoldsAll :
        {css css' : List (List Block)}
        → Swap bs after css css'
        → Holds c' after
        → Separate css
        → HoldsAll c css
        → HoldsAll c' css'
    Swap-HoldsAll (here css) a h m = (a, HoldsAll-Kept css k h.1 m.1)
    Swap-HoldsAll (there cs w) a h m =
        (Holds-Kept cs k (Cross-sym cs bs (Swap-Cross cs w h.1)) m.0, Swap-HoldsAll w a h.2 m.1)

    pub Swap-AllApart :
        {css css' : List (List Block)} (d : Block)
        → Swap bs after css css'
        → AllApart d css
        → AllApart d css'
    Swap-AllApart d (here css) h = (k.apart d h.0, h.1)
    Swap-AllApart d (there cs w) h = (h.0, Swap-AllApart d w h.1)

    pub Swap-head :
        {css css' : List (List Block)}
        → Swap bs after css css'
        → first (head css') ≡ first (head css)
    Swap-head (here css) = k.start
    Swap-head (there cs w) = refl

    pub Swap-OnPages :
        {css css' : List (List Block)} (page : ℕ)
        → Swap bs after css css'
        → OnPages page 0 (head css)
        → OnPages page 0 (head css')
    Swap-OnPages page (here css) h = k.paged page 0 h
    Swap-OnPages page (there cs w) h = h
