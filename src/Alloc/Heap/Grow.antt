-- ===== src/Alloc/Heap/Grow.antt =====
-- `grow_heap`: the list of blocks that it leaves.
use low_level_programming.Base.{
  ℕ, ◌≤◌, ◌<◌, ◌≡◌, ◌≢◌, refl, inl, inr, Bool, true, ◌&&◌, some, List, [], ◌∷◌, ◌++◌, arith,
  if◌then◌else◌, Bool-cases,
}
use low_level_programming.Alloc.{Ptr, null, Header, SysCall, Cells, State, Run, ok, update}
use low_level_programming.Alloc.Sizes.{size_mod, contents_offset}
use low_level_programming.Alloc.Chain.{
  Block, end_of, header_of, Holds, Apart, ApartAll, Layout, Away, join, can_join,
}
use low_level_programming.Alloc.Chain.Kept.{Kept, Kept-Coarser}
use low_level_programming.Alloc.Chain.Coarser.{
  Coarser, glue, Coarser-refl, Coarser-append, Layout-Coarser,
}
use low_level_programming.Alloc.Chain.Splice.{Apart-middle, Holds-drop, Layout-drop, Holds-splice}
use low_level_programming.Alloc.Blocks.{block_after}
use low_level_programming.Alloc.Blocks.Merge.{
  with_cell, load-ok, store-ok, not_null, Holds-update, try_merge-cons,
}
use low_level_programming.Alloc.Region.{Os, alloc_region}
use low_level_programming.Alloc.Region.Map.{IsNew, fresh_block}
use low_level_programming.Alloc.Heap.{set_next, grow_heap}

Apart-sym : (b c : Block) → Apart b c → Apart c b
Apart-sym b c h = omega arith

pub ApartAll-tail :
    (x : Block) (xs : List Block) (d n : Block) (ys : List Block)
    → ApartAll x (xs ++ d ∷ ys)
    → Apart x n
    → ApartAll x (xs ++ d ∷ n ∷ [])
ApartAll-tail x [] d n ys a h = (a.0, (h, tt))
ApartAll-tail x (z ∷ xs) d n ys a h = (a.0, ApartAll-tail x xs d n ys a.1 h)

-- A block that overlaps none, put behind `d` in place of what stood there.
Layout-tail :
    (xs : List Block) (d n : Block) (ys : List Block)
    → Layout (xs ++ d ∷ ys)
    → ApartAll n (xs ++ d ∷ ys)
    → 0 < n.addr
    → end_of n < size_mod
    → Layout (xs ++ d ∷ n ∷ [])
Layout-tail [] d n ys l a pos fit = (l.0, l.1, (Apart-sym n d a.0, tt), (pos, fit, tt, tt))
Layout-tail (x ∷ xs) d n ys l a pos fit = (
  l.0,
  l.1,
  ApartAll-tail x xs d n ys l.2 (Apart-sym n x a.0),
  Layout-tail xs d n ys l.3 a.1 pos fit,
)

Away-drop : (xs ys : List Block) (a : Ptr) → Away a (xs ++ ys) → Away a ys
Away-drop [] ys a h = h
Away-drop (x ∷ xs) ys a h = Away-drop xs ys a h.1

set_next-ok :
    (p q : Ptr) (h : Header) (s : State)
    → 0 < p
    → s.cell p ≡ some h
    → set_next p q s ≡ ok tt (with_cell s (update s.cell p (record h { next = q })))
set_next-ok p q h s pos k = rw (load-ok p h s pos k, store-ok p _ s pos) refl

-- The heap after `grow_heap` at the block `d` of the list `xs ++ d ∷ ys`.
pub record Grown (xs : List Block) (d : Block) (p : Ptr) (size : ℕ) (calls : List SysCall)
    (c : Cells) (r : Run Ptr) : Type 0 where
  pub after : List Block
  pub last : Ptr
  pub state : State
  pub returns : r ≡ ok last state
  pub not_null : 0 < last
  pub holds : Holds state.cell after
  pub layout : Layout after
  pub joined : Coarser (xs ++ d ∷ fresh_block p size ∷ []) after
  pub called : state.calls ≡ calls
  pub kept : Kept (xs ++ d ∷ fresh_block p size ∷ []) after c state.cell

pub record NotGrown (s : State) (r : Run Ptr) : Type 0 where
  pub calls : List SysCall
  pub returns : r ≡ ok null (record s { calls = calls })

module _ (xs : List Block) (d : Block) (ys : List Block) (s : State) (l : Layout (xs ++ d ∷ ys))
    (k : Holds s.cell (xs ++ d ∷ ys)) (p : Ptr) (size : ℕ) (new : IsNew p size (xs ++ d ∷ ys))
    (big : contents_offset ≤ size) where
  abbrev n : Block
  n = fresh_block p size

  abbrev linked : Cells
  linked = update (update s.cell p (header_of n [])) d.addr (header_of d (n ∷ []))

  d-Apart : Apart n d
  d-Apart = Apart-middle n xs d ys new.apart

  Holds-linked : Holds linked (xs ++ d ∷ n ∷ [])
  Holds-linked =
      let k' = Holds-update s.cell n (header_of n []) (xs ++ d ∷ ys) new.apart k in
      Holds-splice xs d ys (d ∷ n ∷ []) (update s.cell p (header_of n [])) linked
        (λ a out. ground arith) refl l k' (ground arith, (ground (arith, d-Apart), tt))

  Layout-linked : Layout (xs ++ d ∷ n ∷ [])
  Layout-linked = Layout-tail xs d n ys l new.apart new.not_null (omega (arith, new.ends))

  module _ (os : Os) (q : ℕ) (extends : Bool) (calls : List SysCall)
      (mapped : alloc_region os (end_of d) q s
        ≡ ok
            (record { addr = p; size = size; extends = extends })
            (record { cell = update s.cell p (header_of n []); calls = calls })) where
    abbrev s_linked : State
    s_linked = record { cell = linked; calls = calls }

    abbrev s_merged : State
    s_merged = with_cell s_linked (update linked d.addr (header_of (join d n) []))

    grow_heap-ok :
        grow_heap os d.addr q s
        ≡ (if extends && can_join d n then ok d.addr s_merged else ok p s_linked)
    unfolding grow_heap
    grow_heap-ok =
        let ld = Layout-drop xs (d ∷ ys) l in
        let kd = Holds-drop s.cell xs (d ∷ ys) k in
        let s' : State = record { cell = update s.cell p (header_of n []); calls = calls } in
        let kd' : s'.cell d.addr ≡ some (header_of d ys) = ground (arith, d-Apart, kd.0) in
        let kl = Holds-drop linked xs (d ∷ n ∷ []) Holds-linked in
        let ll = Layout-drop xs (d ∷ n ∷ []) Layout-linked in
        let behind : block_after d.addr (header_of d ys) ≡ end_of d = omega arith in
        rw
          (
            not_null d.addr ld.0,
            load-ok d.addr (header_of d ys) s ld.0 kd.0,
            behind,
            mapped,
            not_null p new.not_null,
            set_next-ok d.addr p (header_of d ys) s' ld.0 kd',
          )
          (elim (Bool-cases extends) [
            | inl x ↦
                rw (x, try_merge-cons d n [] s_linked kl ll)
                  (elim (Bool-cases (can_join d n)) [
                    | inl j ↦ rw j refl
                    | inr j ↦ rw (j, load-ok d.addr (header_of d (n ∷ [])) s_linked ld.0 kl.0) refl
                  ])
            | inr x ↦ rw (x, load-ok d.addr (header_of d (n ∷ [])) s_linked ld.0 kl.0) refl
          ])

    Holds-merged : can_join d n ≡ true → Holds s_merged.cell (xs ++ join d n ∷ [])
    Holds-merged j =
        Holds-splice xs d (n ∷ []) (join d n ∷ []) linked s_merged.cell (λ a out. ground arith) refl
          Layout-linked Holds-linked (ground arith, tt)

    -- The code writes at the headers of `d` and `n` only.
    Kept-written :
        {after : List Block} {c : Cells}
        → Coarser (xs ++ d ∷ n ∷ []) after
        → ((a : Ptr) → (a ≢ d.addr) × (a ≢ n.addr) → c a ≡ s.cell a)
        → Kept (xs ++ d ∷ n ∷ []) after s.cell c
    Kept-written r same =
        Kept-Coarser r (λ a h. let t = Away-drop xs (d ∷ n ∷ []) a h in same a (t.0, t.1.0))

    pub grow_heap-Grown : Grown xs d p size calls s.cell (grow_heap os d.addr q s)
    grow_heap-Grown = rw grow_heap-ok (elim (Bool-cases (extends && can_join d n)) [
      | inl e ↦
          let j : can_join d n ≡ true = ground arith in
          let r : Coarser (xs ++ d ∷ n ∷ []) (xs ++ join d n ∷ []) =
            Coarser-append xs (glue d n j (Coarser-refl (join d n ∷ []))) in
          record {
            after = xs ++ join d n ∷ [];
            last = d.addr;
            state = s_merged;
            returns = rw e refl;
            not_null = (Layout-drop xs (d ∷ ys) l).0;
            holds = Holds-merged j;
            layout = Layout-Coarser r Layout-linked;
            joined = r;
            called = refl;
            kept = Kept-written r (λ a h. ground arith);
          }
      | inr e ↦ record {
        after = xs ++ d ∷ n ∷ [];
        last = p;
        state = s_linked;
        returns = rw e refl;
        not_null = new.not_null;
        holds = Holds-linked;
        layout = Layout-linked;
        joined = Coarser-refl (xs ++ d ∷ n ∷ []);
        called = refl;
        kept = Kept-written (Coarser-refl (xs ++ d ∷ n ∷ [])) (λ a h. ground arith);
      }
    ])
