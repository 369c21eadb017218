-- ===== src/Seminar6/Tests.antt =====
-- The theorems on the heaps of `seminar6` at small heaps, and runs of their programs.
use low_level_programming.Base.{◌≡◌, refl, true, some, [], ◌∷◌, arith}
use low_level_programming.Seminar6.Heap1
use low_level_programming.Seminar6.Heap1.{
  blk_free, blk_one, blk_first, blk_last, block_allocate, block_free, search_loop,
}
use low_level_programming.Seminar6.Heap1.Allocate.{
  Allocated, block_allocate-Allocated, block_free-block_allocate,
}

abbrev mixed : Heap1.Heap
mixed = blk_free ∷ blk_one ∷ blk_free ∷ blk_free ∷ blk_free ∷ []

block_allocate-Allocated_example : Allocated 2 mixed (block_allocate mixed 2)
block_allocate-Allocated_example = block_allocate-Allocated mixed 2 (omega arith)

mixed-valid : (block_allocate mixed 2).1.valid ≡ true
unfolding block_allocate search_loop
mixed-valid = refl

block_free-block_allocate_example :
    block_free (block_allocate mixed 2).0 (block_allocate mixed 2).1 ≡ some mixed
block_free-block_allocate_example = block_free-block_allocate mixed 2 (omega arith) mixed-valid
