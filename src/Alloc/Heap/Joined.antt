-- ===== src/Alloc/Heap/Joined.antt =====
-- Facts about a list of blocks that also hold once free neighbours are joined, and where the heap
-- grows.
use low_level_programming.Base.{
  ℕ, ◌+◌, ◌<◌, ◌≡◌, refl, sym, ◌∙◌, inl, inr, List, [], ◌∷◌, ◌++◌, arith, length,
}
use low_level_programming.Alloc.{Ptr, SysCall, State}
use low_level_programming.Alloc.Sizes.{size_mod}
use low_level_programming.Alloc.Chain.{Block, first, Holds, Layout}
use low_level_programming.Alloc.Chain.Coarser.{Coarser, ApartAll-Coarser, taken-Coarser}
use low_level_programming.Alloc.Blocks.{SearchResult, try_memalloc_existing}
use low_level_programming.Alloc.Blocks.Take.{Served, Attempted, try_memalloc_existing-Attempted}
use low_level_programming.Alloc.Blocks.Find.{last_free}
use low_level_programming.Alloc.Region.{Os}
use low_level_programming.Alloc.Region.Map.{Answers, IsNew, fresh_block}
use low_level_programming.Alloc.Heap.Serve.{GrowsBehind, last_free-cases}

-- The last free block of a list that is not empty, or the first if there is none.
pub record GrowsAt (b : Block) (bs : List Block) : Type 0 where
  pub xs : List Block
  pub e : Block
  pub ys : List Block
  pub parts : b ∷ bs ≡ xs ++ e ∷ ys
  pub last : GrowsBehind xs e ys
  pub at : last_free b.addr (b ∷ bs) ≡ e.addr

pub grows_at : (b : Block) (bs : List Block) → GrowsAt b bs
grows_at b bs = elim (last_free-cases (b ∷ bs)) [
  | inl (all, same) ↦ record {
    xs = [];
    e = b;
    ys = bs;
    parts = refl;
    last = (all.1, inr (all.0, refl));
    at = same b.addr;
  }
  | inr r ↦ record {
    xs = r.before_it;
    e = r.it;
    ys = r.behind_it;
    parts = r.parts;
    last = (r.in_use, inl r.is_free);
    at = r.found b.addr;
  }
]

pub IsNew-Coarser : (p n : ℕ) {bs cs : List Block} → Coarser bs cs → IsNew p n bs → IsNew p n cs
IsNew-Coarser p n r new = record {
  not_null = new.not_null;
  ends = new.ends;
  apart = ApartAll-Coarser (fresh_block p n) r new.apart;
}

pub Answers-Coarser :
    (os : Os) (calls : List SysCall) {bs cs : List Block}
    → Coarser bs cs
    → Answers os calls bs
    → Answers os calls cs
Answers-Coarser os calls r ans = record {
  page_pos = ans.page_pos;
  fixed = λ a n p big e. let h = ans.fixed a n p big e in (h.0, IsNew-Coarser p n r h.1);
  anywhere = λ a n p big e. IsNew-Coarser p n r (ans.anywhere a n p big e);
}

-- An attempt at a list that starts at `p`.
pub attempt :
    (fuel q : ℕ) (p : Ptr) (bs : List Block) (s : State)
    → first bs ≡ p
    → 0 < p
    → length bs < fuel
    → q + 41 < size_mod
    → Holds s.cell bs
    → Layout bs
    → Attempted q p bs s (try_memalloc_existing fuel q p s)
attempt fuel q p [] s e pos f small k l = absurd (omega arith)
attempt fuel q p (b ∷ bs) s e pos f small k l =
    rw (← e) (try_memalloc_existing-Attempted fuel q b bs s f small k l)

pub Served-Coarser :
    (q : ℕ) {bs cs after : List Block} {r : SearchResult}
    → Coarser bs cs
    → Served q cs after r
    → Served q bs after r
Served-Coarser q j v = record {
  before_it = v.before_it;
  it = v.it;
  behind_it = v.behind_it;
  result = v.result;
  in_use = v.in_use;
  fits = v.fits;
  was = sym (taken-Coarser j) ∙ v.was;
  now = v.now;
}

pub first-replace :
    (xs : List Block) (e : Block) (ys zs : List Block) → first (xs ++ e ∷ ys) ≡ first (xs ++ e ∷ zs)
first-replace [] e ys zs = refl
first-replace (x ∷ xs) e ys zs = refl
