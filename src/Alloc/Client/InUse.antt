-- ===== src/Alloc/Client/InUse.antt =====
-- Which pointers stand for a block in use, and that two of them never overlap.
use mathlib.Core.Path.{subst}
use low_level_programming.Base.{
  ◌∙◌, ◌+◌, ◌≤◌, ◌<◌, ◌≡◌, ◌≢◌, ◌⊎◌, inl, inr, refl, sym, false, List, [], ◌∷◌, ◌++◌, arith,
  Bool-cases, if◌then◌else◌,
}
use low_level_programming.Alloc.Sizes.{contents_offset, size_mod}
use low_level_programming.Alloc.Chain.{Block, Apart, ApartAll, Layout, taken}
use low_level_programming.Alloc.Chain.Splice.{Apart-middle}
use low_level_programming.Alloc.Client.{Live}
use low_level_programming.Alloc.Client.Forest.{Cross, CrossAll, Separate}
use low_level_programming.Alloc.Client.Swap.{Swap, here, there}

-- The block in use that a pointer of the client stands for: it has the size asked for.
abbrev pub Serves : Live → Block → Type 0
Serves l b = (b.is_free ≡ false) × (l.ptr ≡ b.addr + contents_offset) × (l.size ≤ b.capacity)

abbrev pub Has : Live → List Block → Type 0
Has l [] = ⊥
Has l (b ∷ bs) = Serves l b ⊎ Has l bs

abbrev pub HasAll : Live → List (List Block) → Type 0
HasAll l [] = ⊥
HasAll l (bs ∷ css) = Has l bs ⊎ HasAll l css

pub Has-taken : (l : Live) (bs : List Block) → Has l bs → Has l (taken bs)
Has-taken l [] h = absurd h
Has-taken l (b ∷ bs) (inl h) =
    subst (λ f. Has l (if f then taken bs else b ∷ taken bs)) (sym h.0) (inl h)
Has-taken l (b ∷ bs) (inr h) = elim (Bool-cases b.is_free) [
  | inl e ↦ rw e (Has-taken l bs h)
  | inr e ↦ rw e (inr (Has-taken l bs h))
]

pub taken-Has : (l : Live) (bs : List Block) → Has l (taken bs) → Has l bs
taken-Has l [] h = h
taken-Has l (b ∷ bs) h = elim (Bool-cases b.is_free) [
  | inl e ↦ inr (taken-Has l bs (subst (λ f. Has l (if f then taken bs else b ∷ taken bs)) e h))
  | inr e ↦
      let k : Has l (b ∷ taken bs) =
        subst (λ f. Has l (if f then taken bs else b ∷ taken bs)) e h in
      elim k [ inl now ↦ inl now | inr later ↦ inr (taken-Has l bs later) ]
]

pub Has-insert :
    (l : Live) (xs : List Block) (z : Block) (ys : List Block)
    → Has l (xs ++ ys)
    → Has l (xs ++ z ∷ ys)
Has-insert l [] z ys h = inr h
Has-insert l (x ∷ xs) z ys (inl h) = inl h
Has-insert l (x ∷ xs) z ys (inr h) = inr (Has-insert l xs z ys h)

pub Has-middle :
    (l : Live) (xs : List Block) (z : Block) (ys : List Block) → Serves l z → Has l (xs ++ z ∷ ys)
Has-middle l [] z ys h = inl h
Has-middle l (x ∷ xs) z ys h = inr (Has-middle l xs z ys h)

-- Without the block of another pointer.
pub Has-remove :
    (l : Live) (xs : List Block) (b : Block) (ys : List Block)
    → l.ptr ≢ b.addr + contents_offset
    → Has l (xs ++ b ∷ ys)
    → Has l (xs ++ ys)
Has-remove l [] b ys n (inl h) = absurd (n h.1)
Has-remove l [] b ys n (inr h) = h
Has-remove l (x ∷ xs) b ys n (inl h) = inl h
Has-remove l (x ∷ xs) b ys n (inr h) = inr (Has-remove l xs b ys n h)

pub ApartAll-taken : (d : Block) (bs : List Block) → ApartAll d bs → ApartAll d (taken bs)
ApartAll-taken d [] h = tt
ApartAll-taken d (b ∷ bs) h = elim (Bool-cases b.is_free) [
  | inl e ↦ rw e (ApartAll-taken d bs h.1)
  | inr e ↦ rw e (h.0, ApartAll-taken d bs h.1)
]

pub Layout-taken : (bs : List Block) → Layout bs → Layout (taken bs)
Layout-taken [] l = tt
Layout-taken (b ∷ bs) l = elim (Bool-cases b.is_free) [
  | inl e ↦ rw e (Layout-taken bs l.3)
  | inr e ↦ rw e (l.0, l.1, ApartAll-taken b bs l.2, Layout-taken bs l.3)
]

-- A block apart from those of a list has none of their pointers.
pub Has-ne :
    (l : Live) (d : Block) (bs : List Block)
    → ApartAll d bs
    → Has l bs
    → l.ptr ≢ d.addr + contents_offset
Has-ne l d [] a h e = h
Has-ne l d (b ∷ bs) a (inl h) e = omega (arith, a.0, h.1, e)
Has-ne l d (b ∷ bs) a (inr h) e = Has-ne l d bs a.1 h e

pub Has-ne_middle :
    (l : Live) (xs : List Block) (z : Block) (ys : List Block)
    → Layout (xs ++ z ∷ ys)
    → Has l (xs ++ ys)
    → l.ptr ≢ z.addr + contents_offset
Has-ne_middle l [] z ys a h e = Has-ne l z ys a.2 h e
Has-ne_middle l (x ∷ xs) z ys a (inl h) e =
    let p = Apart-middle x xs z ys a.2 in omega (arith, p, h.1, e)
Has-ne_middle l (x ∷ xs) z ys a (inr h) e = Has-ne_middle l xs z ys a.3 h e

-- The bytes that the client may use of two pointers do not overlap.
abbrev pub Disjoint : Live → Live → Type 0
Disjoint l m = (l.ptr + l.size ≤ m.ptr) ⊎ (m.ptr + m.size ≤ l.ptr)

Serves-Disjoint : (l m : Live) (b c : Block) → Apart b c → Serves l b → Serves m c → Disjoint l m
Serves-Disjoint l m b c a h k = omega (arith, a, h.1, h.2, k.1, k.2)

Disjoint-sym : (l m : Live) → Disjoint l m → Disjoint m l
Disjoint-sym l m h = omega arith

Has-Disjoint_one :
    (l m : Live) (b : Block) (bs : List Block)
    → ApartAll b bs
    → Serves l b
    → Has m bs
    → Disjoint l m
Has-Disjoint_one l m b [] a h k = absurd k
Has-Disjoint_one l m b (c ∷ bs) a h (inl k) = Serves-Disjoint l m b c a.0 h k
Has-Disjoint_one l m b (c ∷ bs) a h (inr k) = Has-Disjoint_one l m b bs a.1 h k

Has-Disjoint :
    (l m : Live) (bs : List Block) → Layout bs → l.ptr ≢ m.ptr → Has l bs → Has m bs → Disjoint l m
Has-Disjoint l m [] a n h k = absurd h
Has-Disjoint l m (b ∷ bs) a n (inl h) (inl k) = absurd (n (h.1 ∙ sym k.1))
Has-Disjoint l m (b ∷ bs) a n (inl h) (inr k) = Has-Disjoint_one l m b bs a.2 h k
Has-Disjoint l m (b ∷ bs) a n (inr h) (inl k) = Disjoint-sym m l (Has-Disjoint_one m l b bs a.2 k h)
Has-Disjoint l m (b ∷ bs) a n (inr h) (inr k) = Has-Disjoint l m bs a.3 n h k

Cross-Disjoint :
    (l m : Live) (bs cs : List Block) → Cross bs cs → Has l bs → Has m cs → Disjoint l m
Cross-Disjoint l m bs [] x h k = absurd k
Cross-Disjoint l m bs (c ∷ cs) x h (inl k) = Disjoint-sym m l (Has-Disjoint_one m l c bs x.0 k h)
Cross-Disjoint l m bs (c ∷ cs) x h (inr k) = Cross-Disjoint l m bs cs x.1 h k

CrossAll-Disjoint :
    (l m : Live) (bs : List Block) (css : List (List Block))
    → CrossAll bs css
    → Has l bs
    → HasAll m css
    → Disjoint l m
CrossAll-Disjoint l m bs [] x h k = absurd k
CrossAll-Disjoint l m bs (cs ∷ css) x h (inl k) = Cross-Disjoint l m bs cs x.0 h k
CrossAll-Disjoint l m bs (cs ∷ css) x h (inr k) = CrossAll-Disjoint l m bs css x.1 h k

pub HasAll-Disjoint :
    (l m : Live) (css : List (List Block))
    → Separate css
    → l.ptr ≢ m.ptr
    → HasAll l css
    → HasAll m css
    → Disjoint l m
HasAll-Disjoint l m [] s n h k = absurd h
HasAll-Disjoint l m (bs ∷ css) s n (inl h) (inl k) = Has-Disjoint l m bs s.0 n h k
HasAll-Disjoint l m (bs ∷ css) s n (inl h) (inr k) = CrossAll-Disjoint l m bs css s.1 h k
HasAll-Disjoint l m (bs ∷ css) s n (inr h) (inl k) =
    Disjoint-sym m l (CrossAll-Disjoint m l bs css s.1 k h)
HasAll-Disjoint l m (bs ∷ css) s n (inr h) (inr k) = HasAll-Disjoint l m css s.2 n h k

-- The bytes of a pointer lie in the address space.
abbrev pub InSpace : Live → Type 0
InSpace l = (0 < l.ptr) × (l.ptr + l.size < size_mod)

Has-InSpace : (l : Live) (bs : List Block) → Layout bs → Has l bs → InSpace l
Has-InSpace l [] a h = absurd h
Has-InSpace l (b ∷ bs) a (inl h) = (omega (arith, h.1, a.0), omega (arith, h.1, h.2, a.1))
Has-InSpace l (b ∷ bs) a (inr h) = Has-InSpace l bs a.3 h

pub HasAll-InSpace : (l : Live) (css : List (List Block)) → Separate css → HasAll l css → InSpace l
HasAll-InSpace l [] s h = absurd h
HasAll-InSpace l (bs ∷ css) s (inl h) = Has-InSpace l bs s.0 h
HasAll-InSpace l (bs ∷ css) s (inr h) = HasAll-InSpace l css s.2 h

-- What holds of a chain, holds of all where only it is replaced.
pub HasAll-Swap :
    (l : Live) {bs after : List Block} {css css' : List (List Block)}
    → Swap bs after css css'
    → (Has l bs → Has l after)
    → HasAll l css
    → HasAll l css'
HasAll-Swap l (here css) f (inl h) = inl (f h)
HasAll-Swap l (here css) f (inr h) = inr h
HasAll-Swap l (there cs w) f (inl h) = inl h
HasAll-Swap l (there cs w) f (inr h) = inr (HasAll-Swap l w f h)

-- Where the block of a pointer stands in its chain.
pub record Place (l : Live) (bs : List Block) : Type 0 where
  pub before_it : List Block
  pub it : Block
  pub behind_it : List Block
  pub parts : bs ≡ before_it ++ it ∷ behind_it
  pub serves : Serves l it

pub Has-Place : (l : Live) (bs : List Block) → Has l bs → Place l bs
Has-Place l [] h = absurd h
Has-Place l (b ∷ bs) (inl h) = record {
  before_it = [];
  it = b;
  behind_it = bs;
  parts = refl;
  serves = h;
}
Has-Place l (b ∷ bs) (inr h) =
    let r = Has-Place l bs h in
    record {
      before_it = b ∷ r.before_it;
      it = r.it;
      behind_it = r.behind_it;
      parts = cc r.parts;
      serves = r.serves;
    }

-- The chain of a pointer.
pub record Chained (l : Live) (css : List (List Block)) : Type 0 where
  pub chain : List Block
  pub has : Has l chain
  pub put : List Block → List (List Block)
  pub swap : (after : List Block) → Swap chain after css (put after)

pub HasAll-Chained : (l : Live) (css : List (List Block)) → HasAll l css → Chained l css
HasAll-Chained l [] h = absurd h
HasAll-Chained l (bs ∷ css) (inl h) = record {
  chain = bs;
  has = h;
  put = λ after. after ∷ css;
  swap = λ after. here css;
}
HasAll-Chained l (bs ∷ css) (inr h) =
    let r = HasAll-Chained l css h in
    record {
      chain = r.chain;
      has = r.has;
      put = λ after. bs ∷ r.put after;
      swap = λ after. there bs (r.swap after);
    }
