-- ===== src/Alloc/Program/Tests.antt =====
-- A run of the allocator's test program.
use low_level_programming.Base.{Bool, true, false, some, none, [], ◌≡◌, refl}
use low_level_programming.Alloc.{State, Run, ok, load, store}
use low_level_programming.Alloc.Sizes.{region_actual_size, round_pages, pages_count}
use low_level_programming.Alloc.Blocks.{
  try_memalloc_existing, find_good_or_last, find_loop, merge_loop, try_merge_with_next,
  split_if_too_big, free,
}
use low_level_programming.Alloc.Region.{Os, map_pages, alloc_region, heap_init}
use low_level_programming.Alloc.Heap.{grow_heap, memalloc, malloc}
use low_level_programming.Alloc.Term.{stretch_loop, unmap_from_pointer, term_loop, heap_term}
use low_level_programming.Alloc.Program.{
  main, test_success_malloc, test_free_block, test_free_two_blocks, test_expand_region,
  test_expand_filled_region, map_fixed,
}

-- It maps pages wherever it is asked to.
abbrev willing : Os
willing = record { page_size = 4096; mmap = λ calls addr length fixed. some addr }

abbrev ends : {A : Type 0} → Run A → Bool
ends (ok a s) = true
ends r = false

abbrev start : State
start = record { cell = λ p. none; calls = [] }

-- Every assertion of the program holds, and the program ends.
main_ends : ends (main willing (λ calls addr length. true) 9 start) ≡ true
unfolding main test_success_malloc test_free_block test_free_two_blocks test_expand_region
    test_expand_filled_region map_fixed heap_init alloc_region map_pages malloc memalloc grow_heap
    try_memalloc_existing find_good_or_last find_loop merge_loop try_merge_with_next
    split_if_too_big free heap_term term_loop unmap_from_pointer stretch_loop load store
    region_actual_size round_pages pages_count
main_ends = refl
