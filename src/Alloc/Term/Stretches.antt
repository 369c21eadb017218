-- ===== src/Alloc/Term/Stretches.antt =====
-- The loop of `unmap_from_pointer`.
use low_level_programming.Base.{
  ℕ, zero, suc, ◌+◌, ◌≤◌, ◌<◌, ◌≡◌, refl, ap, ◌∙◌, inl, inr, Bool-cases, List, [], ◌∷◌, arith, ◌==◌,
  if◌then◌else◌, length,
}
use low_level_programming.Alloc.{Ptr, null, header, State, Run, ok}
use low_level_programming.Alloc.Sizes.{size_mod, add_size, contents_offset, size_from_capacity}
use low_level_programming.Alloc.Blocks.{blocks_continuous}
use low_level_programming.Alloc.Blocks.Merge.{load-ok, not_null}
use low_level_programming.Alloc.Chain.{Block, end_of, first, header_of, Holds, Layout}
use low_level_programming.Alloc.Term.{Stretch, stretch_loop}
use low_level_programming.Alloc.Term.Parts.{
  part, size, parts, extend-touch, extend-gap, Front-extend, parts-one,
}

abbrev pub stretch : ℕ → Ptr → Stretch
stretch n p = record { len = n; next = p }

-- The loop's test is that of the list.
continuous-eq :
    (b c : Block) (n : Ptr)
    → end_of b < size_mod
    → blocks_continuous b.addr (header n b.capacity b.is_free) c.addr ≡ (c.addr == end_of b)
continuous-eq b c n fit =
    let e : add_size (b.addr + contents_offset) b.capacity ≡ end_of b = omega arith in rw e refl

stretch_loop-nil :
    (fuel len : ℕ) (b : Block) (s : State)
    → 0 < b.addr
    → Holds s.cell (b ∷ [])
    → stretch_loop (suc fuel) b.addr len s
      ≡ ok (stretch (add_size len (size_from_capacity b.capacity)) null) s
unfolding stretch_loop
stretch_loop-nil fuel len b s pos k = rw (load-ok b.addr (header_of b []) s pos k.0) refl

stretch_loop-cons :
    (fuel len : ℕ) (b c : Block) (bs : List Block) (s : State)
    → Layout (b ∷ c ∷ bs)
    → Holds s.cell (b ∷ c ∷ bs)
    → let len' = add_size len (size_from_capacity b.capacity) in
      stretch_loop (suc fuel) b.addr len s
      ≡ (if c.addr == end_of b then stretch_loop fuel c.addr len' s else ok (stretch len' c.addr) s)
unfolding stretch_loop
stretch_loop-cons fuel len b c bs s l k =
    rw
      (
        load-ok b.addr (header_of b (c ∷ bs)) s l.0 k.0,
        not_null c.addr l.3.0,
        continuous-eq b c c.addr l.1,
      )
      (elim (Bool-cases (c.addr == end_of b)) [ inl e ↦ rw e refl | inr e ↦ rw e refl ])

-- What the loop leaves of the list: the blocks behind the first stretch.
pub record Stretched (b : Block) (bs : List Block) (len : ℕ) (s : State) (r : Run Stretch)
    : Type 0 where
  pub n : ℕ
  pub rest : List Block
  pub is_parts : parts (b ∷ bs) ≡ part b.addr n ∷ parts rest
  pub returns : r ≡ ok (stretch (len + n) (first rest)) s
  pub holds : Holds s.cell rest
  pub layout : Layout rest
  pub fewer : length rest ≤ length bs

-- One more size does not wrap.
added :
    (len : ℕ) (b : Block)
    → len ≤ b.addr
    → end_of b < size_mod
    → add_size len (size_from_capacity b.capacity) ≡ len + size b
added len b low fit = omega arith

pub stretch_loop-Stretched :
    (fuel len : ℕ) (b : Block) (bs : List Block) (s : State)
    → length bs < fuel
    → len ≤ b.addr
    → Layout (b ∷ bs)
    → Holds s.cell (b ∷ bs)
    → Stretched b bs len s (stretch_loop fuel b.addr len s)
unfolding parts
stretch_loop-Stretched zero len b bs s f low l k = absurd (omega arith)
stretch_loop-Stretched (suc fuel) len b [] s f low l k = record {
  n = size b;
  rest = [];
  is_parts = parts-one b;
  returns = stretch_loop-nil fuel len b s l.0 k ∙ rw (added len b low l.1) refl;
  holds = tt;
  layout = tt;
  fewer = omega arith;
}
stretch_loop-Stretched (suc fuel) len b (c ∷ cs) s f low l k =
    elim (Bool-cases (c.addr == end_of b)) [
      | inl e ↦
          let at_end : c.addr ≡ end_of b = ground (arith, e) in
          let more =
            stretch_loop-Stretched fuel (len + size b) c cs s (omega arith) (omega (arith, at_end))
              l.3 k.1 in
          record {
            n = size b + more.n;
            rest = more.rest;
            is_parts =
                rw more.is_parts (extend-touch b (part c.addr more.n) (parts more.rest) at_end);
            returns =
                rw (stretch_loop-cons fuel len b c cs s l k, e, added len b low l.1, more.returns)
                  (ap (λ n. ok (stretch n (first more.rest)) s) (omega arith));
            holds = more.holds;
            layout = more.layout;
            fewer = omega (arith, more.fewer);
          }
      | inr e ↦
          let f = Front-extend c (parts cs) in
          record {
            n = size b;
            rest = c ∷ cs;
            is_parts = rw f.is (extend-gap b f.p f.others (ground (arith, f.starts, e)));
            returns = rw (stretch_loop-cons fuel len b c cs s l k, e, added len b low l.1) refl;
            holds = k.1;
            layout = l.3;
            fewer = omega arith;
          }
    ]
