-- ===== src/Alloc/Term/Pages.antt =====
-- Where the stretches of a list of blocks start.
use low_level_programming.Base.{
  ℕ, ◌%◌, ◌≡◌, ◌⊎◌, inl, inr, refl, ap, ◌∙◌, Bool-cases, List, [], ◌∷◌, arith, ◌==◌,
}
use low_level_programming.Alloc.{Ptr}
use low_level_programming.Alloc.Chain.{Block, end_of, first}
use low_level_programming.Alloc.Chain.Paged.{OnPages}
use low_level_programming.Alloc.Term.Parts.{Part, extend, parts, AlignedAll}

-- The first stretch starts on a page or at `e`, and the others on pages.
abbrev Behind : ℕ → Ptr → List Part → Type 0
Behind page e [] = Unit {0}
Behind page e (p ∷ ps) = ((p.start % page ≡ 0) ⊎ (p.start ≡ e)) × AlignedAll page ps

Behind-extend :
    (page : ℕ) (e : Ptr) (b : Block) (ps : List Part)
    → (b.addr % page ≡ 0) ⊎ (b.addr ≡ e)
    → Behind page (end_of b) ps
    → Behind page e (extend b ps)
unfolding extend
Behind-extend page e b [] on h = (on, tt)
Behind-extend page e b (p ∷ ps) on (at, aligned) = elim (Bool-cases (p.start == end_of b)) [
  | inl c ↦ rw c (on, aligned)
  | inr c ↦ rw c (on, (elim at [ inl k ↦ k | inr k ↦ absurd (ground (arith, c, k)) ], aligned))
]

parts-Behind : (page : ℕ) (e : Ptr) (bs : List Block) → OnPages page e bs → Behind page e (parts bs)
unfolding parts
parts-Behind page e [] h = tt
parts-Behind page e (b ∷ bs) h =
    Behind-extend page e b (parts bs) h.0 (parts-Behind page (end_of b) bs h.1)

Behind-AlignedAll :
    (page : ℕ) (e : Ptr) (ps : List Part) → e % page ≡ 0 → Behind page e ps → AlignedAll page ps
Behind-AlignedAll page e [] on h = tt
Behind-AlignedAll page e (p ∷ ps) on (inl k, aligned) = (k, aligned)
Behind-AlignedAll page e (p ∷ ps) on (inr k, aligned) = (ap (λ a. a % page) k ∙ on, aligned)

-- Where a list starts on a page, and no block but on a page or behind another, each stretch starts
-- on a page.
pub parts-AlignedAll :
    (page : ℕ) (bs : List Block)
    → OnPages page 0 bs
    → first bs % page ≡ 0
    → AlignedAll page (parts bs)
unfolding parts
parts-AlignedAll page [] h on = tt
parts-AlignedAll page (b ∷ bs) h on =
    Behind-AlignedAll page b.addr (extend b (parts bs)) on
      (Behind-extend page b.addr b (parts bs) (inr refl) (parts-Behind page (end_of b) bs h.1))
