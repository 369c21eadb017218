-- ===== src/Alloc/Term/Clear.antt =====
-- Memory after stretches of it have been unmapped, page by page.
use low_level_programming.Base.{
  ℕ, ◌+◌, ◌%◌, ◌≤◌, ◌<◌, ◌≡◌, refl, ◌⊎◌, inl, inr, ◌∙◌, Bool-cases, none, List, [], ◌∷◌, arith,
  ◌==◌,
}
use low_level_programming.Alloc.{Ptr, Cells, SysCall, unmapped}
use low_level_programming.Alloc.Chain.{Block, end_of, Holds}
use low_level_programming.Alloc.Sizes.{size_mod, round_pages}
use low_level_programming.Alloc.Term.{unmap_cells}
use low_level_programming.Alloc.Term.Parts.{
  Part, stop, extend, parts, BesideAll, AlignedAll, InParts, Spread, rounded, Beside-rounded,
}

-- The calls of `munmap`, the latest first.
abbrev pub unmaps : ℕ → List Part → List SysCall → List SysCall
unmaps page [] calls = calls
unmaps page (p ∷ ps) calls = unmaps page ps (unmapped p.start (round_pages page p.len) ∷ calls)

abbrev pub clear : ℕ → List Part → Cells → Cells
clear page [] c = c
clear page (p ∷ ps) c = clear page ps (unmap_cells c p.start (round_pages page p.len))

-- An address in none of the pages of the stretches.
abbrev pub OffPages : ℕ → List Part → Ptr → Type 0
OffPages page [] a = Unit {0}
OffPages page (p ∷ ps) a =
    ((a < p.start) ⊎ (p.start + round_pages page p.len ≤ a)) × OffPages page ps a

pub clear-OffPages :
    (page : ℕ) (ps : List Part) (c : Cells) (a : Ptr) → OffPages page ps a → clear page ps c a ≡ c a
clear-OffPages page [] c a h = refl
clear-OffPages page (p ∷ ps) c a h = clear-OffPages page ps _ a h.1 ∙ ground (arith, h.0)

clear-none :
    (page : ℕ) (ps : List Part) (c : Cells) (a : Ptr) → c a ≡ none → clear page ps c a ≡ none
clear-none page [] c a e = e
clear-none page (p ∷ ps) c a e = clear-none page ps _ a (ground (arith, e))

-- The header of a block in one of the stretches is gone.
pub clear-InParts :
    (page : ℕ) (pos : 0 < page) (ps : List Part)
    → Spread ps
    → AlignedAll page ps
    → (c : Cells) (b : Block) → InParts b ps
    → clear page ps c b.addr ≡ none
clear-InParts page pos [] w al c b h = absurd h
clear-InParts page pos (p ∷ ps) w al c b (inl h) =
    clear-none page ps _ b.addr (ground (arith, h, rounded page pos p w.0 w.2 al.0))
clear-InParts page pos (p ∷ ps) w al c b (inr h) = clear-InParts page pos ps w.4 al.1 _ b h

-- Each block of the list lies in one of the stretches.
abbrev pub AllIn : List Block → List Part → Type 0
AllIn [] ps = Unit {0}
AllIn (b ∷ bs) ps = InParts b ps × AllIn bs ps

InParts-extend : (d b : Block) (ps : List Part) → InParts d ps → InParts d (extend b ps)
unfolding extend
InParts-extend d b [] h = absurd h
InParts-extend d b (p ∷ ps) h = elim (Bool-cases (p.start == end_of b)) [
  | inr e ↦ rw e (inr h)
  | inl e ↦ rw e (elim h [ inl k ↦ inl (ground (arith, e, k)) | inr k ↦ inr k ])
]

In-extend : (b : Block) (ps : List Part) → InParts b (extend b ps)
unfolding extend
In-extend b [] = inl (omega arith)
In-extend b (p ∷ ps) = elim (Bool-cases (p.start == end_of b)) [
  | inr e ↦ rw e (inl (omega arith))
  | inl e ↦ rw e (inl (omega arith))
]

AllIn-extend : (bs : List Block) (b : Block) (ps : List Part) → AllIn bs ps → AllIn bs (extend b ps)
AllIn-extend [] b ps h = tt
AllIn-extend (d ∷ bs) b ps h = (InParts-extend d b ps h.0, AllIn-extend bs b ps h.1)

pub AllIn-parts : (bs : List Block) → AllIn bs (parts bs)
unfolding parts
AllIn-parts [] = tt
AllIn-parts (b ∷ bs) = (In-extend b (parts bs), AllIn-extend bs b (parts bs) (AllIn-parts bs))

module _ (page : ℕ) (pos : 0 < page) (p : Part) (p_pos : 0 < p.start) (fit : stop p < size_mod)
    (on_page : p.start % page ≡ 0) where
  -- Unmapping a stretch keeps the headers of the blocks in the others.
  InParts-unmap :
      (qs : List Part)
      → BesideAll p qs
      → AlignedAll page qs
      → (c : Cells) (b : Block) → InParts b qs
      → unmap_cells c p.start (round_pages page p.len) b.addr ≡ c b.addr
  InParts-unmap [] x al c b h = absurd h
  InParts-unmap (q ∷ qs) x al c b (inl h) =
      ground (arith, h, Beside-rounded page pos p p_pos fit on_page q al.0 x.0)
  InParts-unmap (q ∷ qs) x al c b (inr h) = InParts-unmap qs x.1 al.1 c b h

  pub Holds-unmap :
      (bs : List Block) (qs : List Part)
      → BesideAll p qs
      → AlignedAll page qs
      → AllIn bs qs
      → (c : Cells) → Holds c bs
      → Holds (unmap_cells c p.start (round_pages page p.len)) bs
  Holds-unmap [] qs x al h c k = tt
  Holds-unmap (b ∷ bs) qs x al h c k =
      (InParts-unmap qs x al c b h.0 ∙ k.0, Holds-unmap bs qs x al h.1 c k.1)
