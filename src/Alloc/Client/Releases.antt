-- ===== src/Alloc/Client/Releases.antt =====
-- A call of `_free` on a pointer of the client, at any heap that a client can meet.
use mathlib.Core.Path.{subst}
use low_level_programming.Base.{
  ℕ, zero, suc, ◌+◌, ◌<◌, ◌≡◌, ◌≢◌, inl, inr, refl, sym, ◌∙◌, false, none, some, List, [], ◌∷◌,
  ◌++◌, arith, length-append, All, get_elem?, Option-cases,
}
use low_level_programming.Alloc.{State, ok}
use low_level_programming.Alloc.Sizes.{contents_offset}
use low_level_programming.Alloc.Chain.{Block, taken}
use low_level_programming.Alloc.Chain.Splice.{taken-append}
use low_level_programming.Alloc.Blocks.{free}
use low_level_programming.Alloc.Blocks.Merge.{with_cell}
use low_level_programming.Alloc.Blocks.Free.{Freed, after_free, free-Freed}
use low_level_programming.Alloc.Region.{Os}
use low_level_programming.Alloc.Region.Map.{fresh_block}
use low_level_programming.Alloc.Client.{Live, release_call, remove_at}
use low_level_programming.Alloc.Client.Swap.{
  Swap, Swap-Layout, Swap-Holds, Swap-count, Swap-le, Swap-Separate, Swap-HoldsAll, Swap-AllApart,
  Swap-head, Swap-OnPages,
}
use low_level_programming.Alloc.Client.InUse.{
  Serves, Has, HasAll, Has-taken, taken-Has, Has-remove, HasAll-Swap, Has-Place, HasAll-Chained,
}
use low_level_programming.Alloc.Client.Invariant.{Distinct, ValidAt, Valid, Stepped}

-- What the client still holds.
All-remove_at : (P : Live → Type 0) (ls : List Live) (i : ℕ) → All P ls → All P (remove_at ls i)
All-remove_at P [] i h = tt
All-remove_at P (l ∷ ls) zero h = h.1
All-remove_at P (l ∷ ls) (suc i) h = (h.0, All-remove_at P ls i h.1)

Distinct-remove_at : (ls : List Live) (i : ℕ) → Distinct ls → Distinct (remove_at ls i)
Distinct-remove_at [] i h = tt
Distinct-remove_at (l ∷ ls) zero h = h.1
Distinct-remove_at (l ∷ ls) (suc i) h =
    (All-remove_at (λ m. m.ptr ≢ l.ptr) ls i h.0, Distinct-remove_at ls i h.1)

All-get_elem? :
    (P : Live → Type 0) (ls : List Live) (i : ℕ) (l : Live)
    → get_elem? ls i ≡ some l
    → All P ls
    → P l
All-get_elem? P [] i l e h = absurd (ground arith)
All-get_elem? P (m ∷ ls) zero l e h = subst P (cc e) h.0
All-get_elem? P (m ∷ ls) (suc i) l e h = All-get_elem? P ls i l e h.1

-- No other pointer of the client is the one at the index.
remove_at-ne :
    (ls : List Live) (i : ℕ) (l : Live)
    → get_elem? ls i ≡ some l
    → Distinct ls
    → All (λ m. m.ptr ≢ l.ptr) (remove_at ls i)
remove_at-ne [] i l e h = tt
remove_at-ne (m ∷ ls) zero l e h =
    let same : m ≡ l = cc e in subst (λ (k : Live). All (λ j. j.ptr ≢ k.ptr) ls) same h.0
remove_at-ne (m ∷ ls) (suc i) l e h =
    let other : l.ptr ≢ m.ptr = All-get_elem? (λ k. k.ptr ≢ m.ptr) ls i l e h.0 in
    (λ q. other (sym q), remove_at-ne ls i l e h.1)

-- A pointer whose block is another one than that which is freed.
Has-after_free :
    (m : Live) (xs : List Block) (b : Block) (ys after : List Block)
    → b.is_free ≡ false
    → taken after ≡ taken xs ++ taken ys
    → m.ptr ≢ b.addr + contents_offset
    → Has m (xs ++ b ∷ ys)
    → Has m after
Has-after_free m xs b ys after used e n h =
    let parts : taken (xs ++ b ∷ ys) ≡ taken xs ++ b ∷ taken ys =
      taken-append xs (b ∷ ys) ∙ ground arith in
    let there : Has m (taken xs ++ b ∷ taken ys) =
      subst (Has m) parts (Has-taken m (xs ++ b ∷ ys) h) in
    taken-Has m after (subst (Has m) (sym e) (Has-remove m (taken xs) b (taken ys) n there))

All-both :
    {P Q R : Live → Type 0} (ls : List Live)
    → All P ls
    → All Q ls
    → ((l : Live) → P l → Q l → R l)
    → All R ls
All-both [] h k f = tt
All-both (l ∷ ls) h k f = (f l h.0 k.0, All-both ls h.1 k.1 f)

module _ (os : Os) (fuel n i : ℕ) (live : List Live) (s : State) (enough : n < fuel) where
  release_call-none : get_elem? live i ≡ none → release_call os fuel i live s ≡ ok live s
  unfolding release_call
  release_call-none e = rw (release_call, e) refl

  release_call-some :
      (l : Live) (s' : State)
      → get_elem? live i ≡ some l
      → free fuel l.ptr s ≡ ok tt s'
      → release_call os fuel i live s ≡ ok (remove_at live i) s'
  unfolding release_call
  release_call-some l s' e f = rw (release_call, e, f) refl

  -- The block of the pointer is freed in its chain.
  Stepped-freed :
      (chains chains' : List (List Block)) (h : ValidAt os.page_size chains n live s) (l : Live)
      (xs : List Block) (b : Block) (ys : List Block)
      → get_elem? live i ≡ some l
      → Serves l b
      → Swap (xs ++ b ∷ ys) (after_free xs b ys) chains chains'
      → Stepped os.page_size n (release_call os fuel i live s)
  Stepped-freed chains chains' h l xs b ys e serves w =
      let lay = Swap-Layout w h.separate in
      let counted = Swap-count w in
      let f : Freed xs b ys s (free fuel (b.addr + contents_offset) s) =
        free-Freed xs b ys lay fuel s (omega (arith, h.few, Swap-le w, length-append xs (b ∷ ys)))
          (Swap-Holds s.cell w h.holds) in
      record {
        now = remove_at live i;
        s = with_cell s f.cell;
        returns = release_call-some l (with_cell s f.cell) e (rw serves.1 f.returns);
        valid = record {
          chains = chains';
          valid = record {
            starts = Swap-head f.rest w ∙ h.starts;
            paged = Swap-OnPages f.rest os.page_size w h.paged;
            few = omega (arith, h.few, counted, f.shrinks);
            holds = Swap-HoldsAll f.rest w f.holds h.separate h.holds;
            separate = Swap-Separate f.rest w f.layout h.separate;
            covered =
                λ p m big new. Swap-AllApart f.rest (fresh_block p m) w (h.covered p m big new);
            has =
                All-both (remove_at live i) (All-remove_at (λ m. HasAll m chains) live i h.has)
                  (remove_at-ne live i l e h.distinct)
                  (λ m had ne.
                    HasAll-Swap m w
                      (Has-after_free m xs b ys (after_free xs b ys) serves.0 f.in_use
                        (λ q. ne (q ∙ sym serves.1)))
                      had);
            distinct = Distinct-remove_at live i h.distinct;
          };
        };
      }

  Valid-longer : (v : Valid os.page_size n live s) → Valid os.page_size (n + 2) live s
  Valid-longer v =
      let h = v.valid in
      record {
        chains = v.chains;
        valid = record {
          starts = h.starts;
          paged = h.paged;
          few = omega (arith, h.few);
          holds = h.holds;
          separate = h.separate;
          covered = h.covered;
          has = h.has;
          distinct = h.distinct;
        };
      }

  -- A call of `_free` ends without a fault at every heap that a client can meet, and leaves one.
  pub release_call-Stepped :
      Valid os.page_size n live s → Stepped os.page_size n (release_call os fuel i live s)
  release_call-Stepped v = elim (Option-cases (get_elem? live i)) [
    | inl e ↦ record { now = live; s = s; returns = release_call-none e; valid = Valid-longer v }
    | inr (l, e) ↦
        let h = v.valid in
        let c =
          HasAll-Chained l v.chains (All-get_elem? (λ m. HasAll m v.chains) live i l e h.has) in
        let p = Has-Place l c.chain c.has in
        let after = after_free p.before_it p.it p.behind_it in
        Stepped-freed v.chains (c.put after) h l p.before_it p.it p.behind_it e p.serves
          (subst (λ bs. Swap bs after v.chains (c.put after)) p.parts (c.swap after))
  ]
