-- ===== src/Alloc/Term/Parts.antt =====
-- A list of blocks as the stretches of memory that its blocks fill without a gap.
use native.Mathlib.Nat.{div-add-mod, mod-eq_of_lt, mul-le-mul_left, lt_of_mul-lt-mul_left}
use low_level_programming.Base.{
  ℕ, ◌+◌, ◌*◌, ◌/◌, ◌%◌, ◌≤◌, ◌<◌, ◌≡◌, ◌≢◌, ◌⊎◌, inl, inr, refl, Bool-cases, List, [], ◌∷◌, arith,
  ◌==◌, ltb, if◌then◌else◌,
}
use low_level_programming.Alloc.{Ptr}
use low_level_programming.Alloc.Chain.{Block, end_of, ApartAll, Layout}
use low_level_programming.Alloc.Sizes.{size_mod, contents_offset, round_pages}
use low_level_programming.Alloc.Sizes.Pages.{round_pages_lem}

pub record Part : Type 0 where
  pub start : Ptr
  pub len : ℕ

abbrev pub part : Ptr → ℕ → Part
part a n = record { start = a; len = n }

abbrev pub stop : Part → Ptr
stop p = p.start + p.len

abbrev pub size : Block → ℕ
size b = contents_offset + b.capacity

-- A block in front of stretches: it lengthens the first of them, or is one.
unfoldable pub extend : Block → List Part → List Part
extend b [] = part b.addr (size b) ∷ []
extend b (p ∷ ps) =
    if p.start == end_of b then part b.addr (size b + p.len) ∷ ps else part b.addr (size b) ∷ p ∷ ps

unfoldable pub parts : List Block → List Part
parts [] = []
parts (b ∷ bs) = extend b (parts bs)

abbrev pub Beside : Part → Part → Type 0
Beside p q = (stop p ≤ q.start) ⊎ (stop q ≤ p.start)

abbrev pub BesideAll : Part → List Part → Type 0
BesideAll p [] = Unit {0}
BesideAll p (q ∷ qs) = Beside p q × BesideAll p qs

-- None is empty, none reaches the end of the address space, and no two overlap.
abbrev pub Spread : List Part → Type 0
Spread [] = Unit {0}
Spread (p ∷ ps) = (0 < p.start) × (0 < p.len) × (stop p < size_mod) × BesideAll p ps × Spread ps

-- Each stretch starts on a page.
abbrev pub AlignedAll : ℕ → List Part → Type 0
AlignedAll page [] = Unit {0}
AlignedAll page (p ∷ ps) = (p.start % page ≡ 0) × AlignedAll page ps

-- The bytes of a block lie in one of the stretches.
abbrev pub InParts : Block → List Part → Type 0
InParts b [] = ⊥
InParts b (p ∷ ps) = ((p.start ≤ b.addr) × (end_of b ≤ stop p)) ⊎ InParts b ps

abbrev pub part_of : Block → Part
part_of b = part b.addr (size b)

BesideAll-extend :
    (q : Part) (b : Block) (ps : List Part)
    → 0 < q.len
    → Beside q (part_of b)
    → BesideAll q ps
    → BesideAll q (extend b ps)
unfolding extend
BesideAll-extend q b [] pos x h = (x, tt)
BesideAll-extend q b (p ∷ ps) pos x h = elim (Bool-cases (p.start == end_of b)) [
  | inl e ↦ rw e (ground (arith, e, x, h.0, pos), h.1)
  | inr e ↦ rw e (x, h)
]

BesideAll-parts : (d : Block) (bs : List Block) → ApartAll d bs → BesideAll (part_of d) (parts bs)
unfolding parts
BesideAll-parts d [] h = tt
BesideAll-parts d (b ∷ bs) h =
    BesideAll-extend (part_of d) b (parts bs) (omega arith) (omega (arith, h.0))
      (BesideAll-parts d bs h.1)

BesideAll-glue :
    (b : Block) (p : Part) (ps : List Part)
    → p.start ≡ end_of b
    → 0 < p.len
    → Spread ps
    → BesideAll (part_of b) ps
    → BesideAll p ps
    → BesideAll (part b.addr (size b + p.len)) ps
BesideAll-glue b p [] e pos w x y = tt
BesideAll-glue b p (q ∷ qs) e pos w x y =
    (omega (arith, e, x.0, y.0, w.1), BesideAll-glue b p qs e pos w.4 x.1 y.1)

Spread-extend :
    (b : Block) (ps : List Part)
    → 0 < b.addr
    → end_of b < size_mod
    → BesideAll (part_of b) ps
    → Spread ps
    → Spread (extend b ps)
unfolding extend
Spread-extend b [] pos fit x w = (pos, omega arith, omega (arith, fit), tt, tt)
Spread-extend b (p ∷ ps) pos fit x w = elim (Bool-cases (p.start == end_of b)) [
  | inl e ↦
      let at_end : p.start ≡ end_of b = ground (arith, e) in
      rw e (
        pos,
        omega arith,
        omega (arith, at_end, w.2),
        BesideAll-glue b p ps at_end w.1 w.4 x.1 w.3,
        w.4,
      )
  | inr e ↦ rw e (pos, omega arith, omega (arith, fit), x, w)
]

pub Layout-Spread : (bs : List Block) → Layout bs → Spread (parts bs)
unfolding parts
Layout-Spread [] l = tt
Layout-Spread (b ∷ bs) l =
    Spread-extend b (parts bs) l.0 l.1 (BesideAll-parts b bs l.2) (Layout-Spread bs l.3)

pub extend-touch :
    (b : Block) (p : Part) (ps : List Part)
    → p.start ≡ end_of b
    → extend b (p ∷ ps) ≡ part b.addr (size b + p.len) ∷ ps
unfolding extend
extend-touch b p ps e = ground (arith, e)

pub extend-gap :
    (b : Block) (p : Part) (ps : List Part)
    → p.start ≢ end_of b
    → extend b (p ∷ ps) ≡ part b.addr (size b) ∷ p ∷ ps
unfolding extend
extend-gap b p ps n = ground (arith, n)

pub parts-one : (b : Block) → parts (b ∷ []) ≡ part_of b ∷ []
unfolding parts extend
parts-one b = refl

-- The first stretch starts at the first block.
pub record Front (b : Block) (ps : List Part) : Type 0 where
  pub p : Part
  pub others : List Part
  pub is : ps ≡ p ∷ others
  pub starts : p.start ≡ b.addr

pub Front-extend : (b : Block) (ps : List Part) → Front b (extend b ps)
unfolding extend
Front-extend b [] = record { p = part b.addr (size b); others = []; is = refl; starts = refl }
Front-extend b (p ∷ ps) = elim (Bool-cases (p.start == end_of b)) [
  | inl e ↦ record { p = part b.addr (size b + p.len); others = ps; is = rw e refl; starts = refl }
  | inr e ↦ record { p = part b.addr (size b); others = p ∷ ps; is = rw e refl; starts = refl }
]

-- A stretch that starts on a page, unmapped to the end of its last page, takes no byte of another.
module _ (page : ℕ) (pos : 0 < page) (p : Part) (p_pos : 0 < p.start) (fit : stop p < size_mod)
    (on_page : p.start % page ≡ 0) where
  page-le_start : page ≤ p.start
  page-le_start = elim (Bool-cases (ltb p.start page)) [
    | inl e ↦
        let below : p.start < page = ground (arith, e) in
        let same : p.start % page ≡ p.start = mod-eq_of_lt below in
        absurd (omega (arith, same, on_page, p_pos))
    | inr e ↦ ground (arith, e)
  ]

  pub rounded :
      (p.len ≤ round_pages page p.len)
      × (round_pages page p.len < p.len + page)
      × (round_pages page p.len % page ≡ 0)
  rounded = round_pages_lem page p.len pos (omega (arith, page-le_start, fit))

  pub Beside-rounded :
      (q : Part)
      → q.start % page ≡ 0
      → Beside p q
      → (p.start + round_pages page p.len ≤ q.start) ⊎ (stop q ≤ p.start)
  Beside-rounded q e (inr h) = inr h
  Beside-rounded q e (inl h) =
      let r : ℕ = round_pages page p.len in
      let whole : p.start / page + r / page < q.start / page + 1 = lt_of_mul-lt-mul_left page (
        omega (
          arith,
          rounded,
          h,
          div-add-mod p.start page,
          div-add-mod r page,
          div-add-mod q.start page,
          on_page,
          e,
        )) in
      let room : page * (p.start / page + r / page) ≤ page * (q.start / page) =
        mul-le-mul_left page (omega (arith, whole)) in
      inl (
        omega (
          arith,
          room,
          div-add-mod p.start page,
          div-add-mod r page,
          div-add-mod q.start page,
          rounded,
          on_page,
          e,
        ))
