-- ===== src/Alloc/Blocks/Merge.antt =====
-- `try_merge_with_next` and the loop around it, against `absorb` on the list of blocks.
use low_level_programming.Base.{
  ℕ, zero, suc, ◌+◌, ◌<◌, ◌≡◌, ◌≢◌, refl, inl, inr, true, false, some, List, [], ◌∷◌, arith, ◌==◌,
  if◌then◌else◌, length, Bool-cases,
}
use low_level_programming.Alloc.{
  Ptr, null, Header, header, Cells, State, Run, ok, load, store, update,
}
use low_level_programming.Alloc.Chain.{
  Block, end_of, first, header_of, Holds, ApartAll, Layout, join, can_join,
}
use low_level_programming.Alloc.Chain.Coarser.{Layout-join}
use low_level_programming.Alloc.Chain.Scan.{absorb}
use low_level_programming.Alloc.Sizes.{
  size_mod, add_size, contents_offset, size_from_capacity, capacity_from_size,
}
use low_level_programming.Alloc.Blocks.{mergeable, try_merge_with_next, merge_loop}

abbrev pub with_cell : State → Cells → State
with_cell s c = record s { cell = c }

pub load-ok : (p : Ptr) (h : Header) (s : State) → 0 < p → s.cell p ≡ some h → load p s ≡ ok h s
unfolding load
load-ok p h s pos e = ground arith

pub store-ok :
    (p : Ptr) (h : Header) (s : State)
    → 0 < p
    → store p h s ≡ ok tt (with_cell s (update s.cell p h))
unfolding store
store-ok p h s pos = ground arith

-- Writing at an address apart from the blocks keeps them.
pub Holds-update :
    (c : Cells) (b : Block) (h : Header) (bs : List Block)
    → ApartAll b bs
    → Holds c bs
    → Holds (update c b.addr h) bs
Holds-update c b h [] a k = tt
Holds-update c b h (d ∷ ds) a k = (ground arith, Holds-update c b h ds a.1 k.1)

pub not_null : (p : Ptr) → 0 < p → (p == null) ≡ false
not_null p pos = ground arith

pub try_merge-nil :
    (b : Block) (s : State)
    → Holds s.cell (b ∷ [])
    → 0 < b.addr
    → try_merge_with_next b.addr s ≡ ok false s
unfolding try_merge_with_next
try_merge-nil b s k pos = rw (not_null b.addr pos, load-ok b.addr (header_of b []) s pos k.0) refl

-- The test of the code is that of the list: a block ends below the end of the address space.
mergeable-eq-can_join :
    (b c : Block) (n m : Ptr)
    → end_of b < size_mod
    → mergeable b.addr (header n b.capacity b.is_free) c.addr (header m c.capacity c.is_free)
      ≡ can_join b c
mergeable-eq-can_join b c n m fit =
    let e : add_size (b.addr + contents_offset) b.capacity ≡ end_of b = omega arith in rw e refl

-- The size that the code computes is that of the joined block, with no wrap.
joined_size :
    (x y : ℕ)
    → x + contents_offset + y + contents_offset < size_mod
    → capacity_from_size (add_size (size_from_capacity x) (size_from_capacity y))
      ≡ x + contents_offset + y
joined_size x y fit = omega arith

pub try_merge-cons :
    (b c : Block) (bs : List Block) (s : State)
    → Holds s.cell (b ∷ c ∷ bs)
    → Layout (b ∷ c ∷ bs)
    → try_merge_with_next b.addr s ≡ (
        if can_join b c
        then ok true (with_cell s (update s.cell b.addr (header_of (join b c) bs)))
        else ok false s)
unfolding try_merge_with_next
try_merge-cons b c bs s k l =
    rw
      (
        not_null b.addr l.0,
        load-ok b.addr (header_of b (c ∷ bs)) s l.0 k.0,
        not_null c.addr l.3.0,
        load-ok c.addr (header_of c bs) s l.3.0 k.1.0,
        mergeable-eq-can_join b c c.addr (first bs) l.1,
      )
      (elim (Bool-cases (can_join b c)) [
        | inl j ↦
            rw (j, store-ok b.addr _ s l.0)
              (ground (arith, joined_size b.capacity c.capacity (ground arith)))
        | inr j ↦ rw j refl
      ])

-- What the loop leaves: one more write, at the block itself.
pub record Merged (b : Block) (bs : List Block) (s : State) (r : Run (Unit {0})) : Type 0 where
  pub cell : Cells
  pub returns : r ≡ ok tt (with_cell s cell)
  pub holds : Holds cell ((absorb b bs).0 ∷ (absorb b bs).1)
  pub same : (a : Ptr) → a ≢ b.addr → cell a ≡ s.cell a

-- `while (try_merge_with_next(block)) {}` ends, without a fault, and joins the block with all the
-- free blocks that follow it without a gap.
pub merge_loop-Merged :
    (fuel : ℕ) (b : Block) (bs : List Block) (s : State)
    → length bs < fuel
    → Holds s.cell (b ∷ bs)
    → Layout (b ∷ bs)
    → Merged b bs s (merge_loop fuel b.addr s)
unfolding merge_loop absorb
merge_loop-Merged zero b bs s f k l = absurd (omega arith)
merge_loop-Merged (suc fuel) b [] s f k l = record {
  cell = s.cell;
  returns = rw (try_merge-nil b s k l.0) refl;
  holds = k;
  same = λ a n. refl;
}
merge_loop-Merged (suc fuel) b (c ∷ cs) s f k l = elim (Bool-cases (can_join b c)) [
  | inl j ↦
      let s' : State = with_cell s (update s.cell b.addr (header_of (join b c) cs)) in
      let l' : Layout (join b c ∷ cs) = Layout-join b c cs j l in
      let k' : Holds s'.cell (join b c ∷ cs) =
        (ground arith, Holds-update s.cell b _ cs l.2.1 k.1.1) in
      let rest = merge_loop-Merged fuel (join b c) cs s' (omega arith) k' l' in
      record {
        cell = rest.cell;
        returns = rw (try_merge-cons b c cs s k l, j) rest.returns;
        holds = rw j rest.holds;
        same = λ a n. ground (arith, rest.same a n);
      }
  | inr j ↦ record {
    cell = s.cell;
    returns = rw (try_merge-cons b c cs s k l, j) refl;
    holds = rw j k;
    same = λ a n. refl;
  }
]
