-- ===== src/Alloc/Client/Session.antt =====
-- Every session of a client.
use low_level_programming.Base.{
  ℕ, ◌+◌, ◌-◌, ◌*◌, ◌≤◌, ◌<◌, ◌≡◌, ◌≢◌, inl, inr, refl, sym, Bool, true, false, none, some, List,
  [], ◌∷◌, arith, length, All, ◌==◌,
}
use low_level_programming.Alloc.{Ptr, null, header, update, SysCall, State, Run, ok}
use low_level_programming.Alloc.Sizes.{
  contents_offset, size_mod, add_size, heap_start, region_actual_size,
}
use low_level_programming.Alloc.Sizes.Pages.{region_actual_size-bounds}
use low_level_programming.Alloc.Region.{Os, heap_init, alloc_region}
use low_level_programming.Alloc.Region.Map.{
  Mapped, asked, elsewhere, MappedRegion, fresh_block, alloc_region-MappedRegion,
}
use low_level_programming.Alloc.Chain.{Block}
use low_level_programming.Alloc.Heap.Serve.{request}
use low_level_programming.Alloc.Client.{Live, Call, requests, releases, session, client}
use low_level_programming.Alloc.Client.InUse.{
  HasAll, Disjoint, InSpace, HasAll-Disjoint, HasAll-InSpace,
}
use low_level_programming.Alloc.Client.Forest.{Separate}
use low_level_programming.Alloc.Client.Invariant.{IsSystem, Distinct, Valid}
use low_level_programming.Alloc.Client.Served.{Mapped-aligned, Fresh-Mapped, AllApart-Answers}
use low_level_programming.Alloc.Client.Grows.{request_call-Stepped}
use low_level_programming.Alloc.Client.Releases.{release_call-Stepped}

-- The requests are far enough below 2 ^ 64.
abbrev pub IsSmall : Os → Call → Type 0
IsSmall os (requests query) = request query + 41 + os.page_size ≤ size_mod
IsSmall os (releases i) = Unit {0}

-- The memory that the client holds: every pointer's bytes lie in the address space, and those of no
-- two overlap.
abbrev pub AllDisjoint : List Live → Type 0
AllDisjoint [] = Unit {0}
AllDisjoint (l ∷ ls) = InSpace l × All (Disjoint l) ls × AllDisjoint ls

-- The session ends with the memory `held`, at a heap that a client can meet.
pub record EndsApart (page fuel : ℕ) (r : Run (List Live)) : Type 0 where
  pub held : List Live
  pub s : State
  pub returns : r ≡ ok held s
  pub disjoint : AllDisjoint held
  pub blocks : ℕ
  pub few : blocks < fuel
  pub valid : Valid page blocks held s

Valid-AllDisjoint_at :
    (css : List (List Block)) (live : List Live)
    → Separate css
    → All (λ l. HasAll l css) live
    → Distinct live
    → AllDisjoint live
Valid-AllDisjoint_at css [] s h d = tt
Valid-AllDisjoint_at css (l ∷ ls) s (hl, hls) (dl, dls) =
    (HasAll-InSpace l css s hl, pairs ls hls dl, Valid-AllDisjoint_at css ls s hls dls)
  where
    pairs :
        (ms : List Live)
        → All (λ m. HasAll m css) ms
        → All (λ m. m.ptr ≢ l.ptr) ms
        → All (Disjoint l) ms
    pairs [] h n = tt
    pairs (m ∷ ms) (h, hs) (n, ns) =
        (HasAll-Disjoint l m css s (λ e. n (sym e)) hl h, pairs ms hs ns)

module _ (os : Os) (sys : IsSystem os) (fuel : ℕ) where
  session-EndsApart :
      (calls : List Call) (n : ℕ) (live : List Live) (s : State)
      → n + 2 * length calls < fuel
      → All (IsSmall os) calls
      → Valid os.page_size n live s
      → EndsApart os.page_size fuel (session os fuel calls live s)
  unfolding session
  session-EndsApart [] n live s f small v =
      let h = v.valid in
      record {
        held = live;
        s = s;
        returns = refl;
        disjoint = Valid-AllDisjoint_at v.chains live h.separate h.has h.distinct;
        blocks = n;
        few = omega arith;
        valid = v;
      }
  session-EndsApart (requests query ∷ calls) n live s f (now, later) v =
      let r = request_call-Stepped os sys fuel query n live s (omega arith) now v in
      rw r.returns (session-EndsApart calls (n + 2) r.now r.s (omega arith) later r.valid)
  session-EndsApart (releases i ∷ calls) n live s f (now, later) v =
      let r = release_call-Stepped os fuel n i live s (omega arith) v in
      rw r.returns (session-EndsApart calls (n + 2) r.now r.s (omega arith) later r.valid)

abbrev pub empty : State
empty = record { cell = λ p. none; calls = [] }

abbrev pub heap_size : Os → ℕ → ℕ
heap_size os initial = region_actual_size os.page_size (add_size initial contents_offset)

-- What `heap_init` leaves where the system maps the heap where it is asked to.
module _ (os : Os) (sys : IsSystem os) (initial : ℕ)
    (room : initial + 41 + os.page_size ≤ size_mod) where
  abbrev size : ℕ
  size = heap_size os initial

  heap_size-le : contents_offset ≤ size
  heap_size-le =
      let same : add_size initial contents_offset ≡ initial + 17 = omega arith in
      rw same (
        omega
          (arith, region_actual_size-bounds os.page_size (initial + 17) sys.page_pos (omega arith)))

  pub record Started (r : Run Ptr) : Type 0 where
    pub p : Ptr
    pub s : State
    pub returns : r ≡ ok p s
    pub valid : Valid os.page_size 1 [] s

  Mapped-heap_start :
      (p : Ptr) (f : Bool) (calls : List SysCall)
      → os.mmap [] heap_start size true ≡ some heap_start
      → Mapped os [] heap_start size p f calls
      → p ≡ heap_start
  Mapped-heap_start p f calls granted (asked e) = sys.at [] heap_start size p e
  Mapped-heap_start p f calls granted (elsewhere d e) = absurd (ground (arith, d, granted))

  -- The heap is one free block, in a region of its own.
  Started-region :
      (m : MappedRegion os size heap_start [] empty (alloc_region os heap_start initial empty))
      → m.p ≡ heap_start
      → Started (heap_init os initial empty)
  unfolding heap_init
  Started-region m e =
      let main : List Block = fresh_block m.p size ∷ [] in
      let new = m.is_new in
      let there : (m.p == null) ≡ false = ground arith in
      record {
        p = m.p;
        s = record {
          cell = update empty.cell m.p (header null (size - contents_offset) true);
          calls = m.calls;
        };
        returns = rw (m.returns, there) refl;
        valid = record {
          chains = main ∷ [];
          valid = record {
            starts = e;
            paged = (
              inl (Mapped-aligned os sys [] heap_start size m.p m.extends m.calls m.answered),
              tt,
            );
            few = omega arith;
            holds = ((ground arith, tt), tt);
            separate = ((new.not_null, omega (arith, new.ends, heap_size-le), tt, tt), tt, tt);
            covered = λ q k big fresh.
                let (off, older) =
                  Fresh-Mapped os [] heap_start size m.p m.extends m.calls q k m.answered fresh in
                ((omega (arith, off, heap_size-le, big), tt), tt);
            has = tt;
            distinct = tt;
          };
        };
      }

  heap_init-Started :
      os.mmap [] heap_start size true ≡ some heap_start → Started (heap_init os initial empty)
  heap_init-Started granted =
      elim (alloc_region-MappedRegion os heap_start initial [] empty
        (AllApart-Answers os sys [] [] (λ p m big new. tt)) heap_size-le) [
          | inr r ↦ absurd (ground (arith, r.refused, granted))
          | inl m ↦ Started-region m (Mapped-heap_start m.p m.extends m.calls granted m.answered)
        ]

-- Where the system maps the heap where it is asked to, and no request comes near 2 ^ 64, every
-- sequence of calls of `_malloc` and `_free` behind `heap_init` ends without a fault. Each pointer
-- that the client holds then stands for a block in use of its own, of at least the size asked for;
-- its bytes lie in the address space, and no two pointers' bytes overlap. The fuel exceeds twice the
-- number of calls.
pub client-EndsApart :
    (os : Os)
    → IsSystem os
    → (fuel initial : ℕ) (calls : List Call) → initial + 41 + os.page_size ≤ size_mod
    → os.mmap [] heap_start (heap_size os initial) true ≡ some heap_start
    → 1 + 2 * length calls < fuel
    → All (IsSmall os) calls
    → EndsApart os.page_size fuel (client os fuel initial calls empty)
unfolding client
client-EndsApart os sys fuel initial calls room granted f small =
    let r = heap_init-Started os sys initial room granted in
    rw r.returns (session-EndsApart os sys fuel calls 1 [] r.s f small r.valid)
