-- ===== src/Alloc/Client/Ends.antt =====
-- A session, and `heap_term` behind it.
use low_level_programming.Base.{
  ℕ, ◌+◌, ◌%◌, ◌*◌, ◌≤◌, ◌<◌, ◌≡◌, ◌∙◌, ap, some, true, List, [], ◌∷◌, arith, length, All,
}
use low_level_programming.Alloc.{State, Run, ok}
use low_level_programming.Alloc.Sizes.{size_mod, heap_start}
use low_level_programming.Alloc.Chain.{Block, first, Holds}
use low_level_programming.Alloc.Region.{Os}
use low_level_programming.Alloc.Term.{heap_term}
use low_level_programming.Alloc.Term.Ends.{Terminated, heap_term-Terminated}
use low_level_programming.Alloc.Term.Pages.{parts-AlignedAll}
use low_level_programming.Alloc.Client.{Live, Call, client}
use low_level_programming.Alloc.Client.Invariant.{IsSystem, ValidAt}
use low_level_programming.Alloc.Client.Session.{IsSmall, empty, heap_size, client-EndsApart}

-- The session ends, with the list of blocks that starts at the heap's address, and `heap_term`
-- unmaps that list.
pub record EndsUnmapped (os : Os) (fuel : ℕ) (r : Run (List Live)) : Type 0 where
  pub held : List Live
  pub s : State
  pub returns : r ≡ ok held s
  pub blocks : List Block
  pub starts : first blocks ≡ heap_start
  pub holds : Holds s.cell blocks
  pub unmapped : Terminated os.page_size blocks s (heap_term os fuel s)

heap_term-ValidAt :
    (os : Os) (fuel n : ℕ) (held : List Live) (s : State) (r : Run (List Live))
    (chains : List (List Block))
    → 0 < os.page_size
    → heap_start % os.page_size ≡ 0
    → n < fuel
    → r ≡ ok held s
    → ValidAt os.page_size chains n held s
    → EndsUnmapped os fuel r
heap_term-ValidAt os fuel n held s r [] pos on f e h = absurd (omega (arith, h.starts))
heap_term-ValidAt os fuel n held s r (bs ∷ lost) pos on f e h = record {
  held = held;
  s = s;
  returns = e;
  blocks = bs;
  starts = h.starts;
  holds = h.holds.0;
  unmapped =
      heap_term-Terminated os pos fuel bs s (omega (arith, h.few)) h.starts h.separate.0
        (parts-AlignedAll os.page_size bs h.paged (ap (λ a. a % os.page_size) h.starts ∙ on))
        h.holds.0;
}

-- Where the system maps the heap where it is asked to, and no request comes near 2 ^ 64,
-- `heap_term` behind any session ends without a fault: of the list of blocks that starts at the
-- heap's address it unmaps each stretch once, rounded up to pages, whether the client has freed the
-- blocks or not, and no header of that list is left. The fuel exceeds twice the number of calls.
pub client-EndsUnmapped :
    (os : Os)
    → IsSystem os
    → (fuel initial : ℕ) (calls : List Call) → initial + 41 + os.page_size ≤ size_mod
    → os.mmap [] heap_start (heap_size os initial) true ≡ some heap_start
    → 1 + 2 * length calls < fuel
    → All (IsSmall os) calls
    → EndsUnmapped os fuel (client os fuel initial calls empty)
client-EndsUnmapped os sys fuel initial calls room granted f small =
    let r = client-EndsApart os sys fuel initial calls room granted f small in
    heap_term-ValidAt os fuel r.blocks r.held r.s _ r.valid.chains sys.page_pos
      (sys.aligned [] heap_start (heap_size os initial) heap_start true granted) r.few r.returns
      r.valid.valid
