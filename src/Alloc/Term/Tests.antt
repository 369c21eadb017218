-- ===== src/Alloc/Term/Tests.antt =====
-- `heap_term` on a heap of two regions, the first of which holds two blocks.
use low_level_programming.Base.{◌+◌, ◌≡◌, refl, true, false, none, [], ◌∷◌, arith}
use low_level_programming.Alloc.{Cells, State, Run, ok, update, unmapped, load}
use low_level_programming.Alloc.Sizes.{heap_start, round_pages, pages_count}
use low_level_programming.Alloc.Chain.{Block, block_at, header_of}
use low_level_programming.Alloc.Region.{Os}
use low_level_programming.Alloc.Term.{heap_term, term_loop, unmap_from_pointer, stretch_loop}
use low_level_programming.Alloc.Term.Parts.{parts, extend}
use low_level_programming.Alloc.Term.Ends.{Terminated, heap_term-Terminated}

abbrev os : Os
os = record { page_size = 4096; mmap = λ calls a n f. none }

abbrev one : Block
one = block_at heap_start 100 false

abbrev two : Block
two = block_at (heap_start + 117) 8058 true

abbrev three : Block
three = block_at (heap_start + 20480) 8175 false

abbrev cells : Cells
cells =
    update
      (update (update (λ _. none) heap_start (header_of one (two ∷ three ∷ []))) (heap_start + 117)
        (header_of two (three ∷ [])))
      (heap_start + 20480) (header_of three [])

abbrev heap : State
heap = record { cell = cells; calls = [] }

heap_term-Terminated_example : Terminated 4096 (one ∷ two ∷ three ∷ []) heap (heap_term os 5 heap)
unfolding parts extend
heap_term-Terminated_example =
    heap_term-Terminated os (omega arith) 5 (one ∷ two ∷ three ∷ []) heap (omega arith) refl
      (omega arith) (refl, (refl, tt)) (refl, (refl, (refl, tt)))

abbrev calls_of : Run (Unit {0}) → State
calls_of (ok a s) = s
calls_of r = heap

-- Each region is unmapped as a whole.
heap_term-calls :
    (calls_of (heap_term os 5 heap)).calls
    ≡ unmapped (heap_start + 20480) 8192 ∷ unmapped heap_start 8192 ∷ []
unfolding heap_term term_loop unmap_from_pointer stretch_loop load round_pages pages_count
heap_term-calls = refl
