-- ===== src/Alloc/Debug/Tests.antt =====
-- The listing of a small heap.
use low_level_programming.Base.{◌≡◌, refl, true, false, none, [], ◌∷◌, arith}
use low_level_programming.Alloc.{Cells, State, ok, update, load}
use low_level_programming.Alloc.Chain.{Block, block_at, header_of}
use low_level_programming.Alloc.Debug.{
  title, heading, info, first_bytes, debug_struct_info, debug_loop, debug_heap,
}
use low_level_programming.Alloc.Debug.Listing.{debug_heap-lines}
use low_level_programming.Base.{map}
use low_level_programming.Alloc.Debug.Listing.{line_of}

abbrev one : Block
one = block_at 4096 3 false

abbrev two : Block
two = block_at 8192 24 true

abbrev cells : Cells
cells = update (update (λ _. none) 4096 (header_of one (two ∷ []))) 8192 (header_of two [])

abbrev heap : State
heap = record { cell = cells; calls = [] }

debug_heap-lines_example :
    debug_heap (λ p. p) 3 4096 heap
    ≡ ok (title ∷ heading ∷ map (line_of (λ p. p)) (one ∷ two ∷ [])) heap
debug_heap-lines_example =
    debug_heap-lines (λ p. p) 3 (one ∷ two ∷ []) heap (omega arith) (omega arith) (refl, (refl, tt))

debug_heap-run :
    debug_heap (λ p. p) 3 4096 heap
    ≡ ok
        (title
          ∷ heading
          ∷ info 4096 3 false (4113 ∷ 4114 ∷ 4115 ∷ [])
          ∷ info 8192 24 true (8209 ∷ 8210 ∷ 8211 ∷ 8212 ∷ [])
          ∷ [])
        heap
unfolding debug_heap debug_loop debug_struct_info first_bytes load
debug_heap-run = refl
