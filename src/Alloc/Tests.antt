-- ===== src/Alloc/Tests.antt =====
-- The theorems on the allocator at a small heap, and runs of the code on it.
use low_level_programming.Base.{
  ℕ, ◌+◌, ◌≤◌, ◌≡◌, ◌⊎◌, if◌then◌else◌, leb, refl, true, false, Option, some, none, [], ◌∷◌, arith,
}
use low_level_programming.Alloc.{Cells, State, Run, ok, header, update, load, store, ◌>>=◌}
use low_level_programming.Alloc.Chain.{Block, block_at, header_of, Holds, Layout}
use low_level_programming.Alloc.Chain.Scan.{good, scan}
use low_level_programming.Alloc.Blocks.{
  try_merge_with_next, merge_loop, find_loop, find_good_or_last, split_if_too_big,
  try_memalloc_existing, free,
}
use low_level_programming.Alloc.Sizes.{region_actual_size}
use low_level_programming.Alloc.Region.{Os, alloc_region}
use low_level_programming.Alloc.Region.Map.{
  IsNew, Answers, MappedRegion, NoRegion, alloc_region-MappedRegion,
}
use low_level_programming.Alloc.Heap.{memalloc}
use low_level_programming.Alloc.Heap.Serve.{request}
use low_level_programming.Alloc.Heap.Outcome.{Outcome, memalloc-Outcome}
use low_level_programming.Alloc.Blocks.Merge.{Merged, merge_loop-Merged}
use low_level_programming.Alloc.Blocks.Take.{
  Searched, find_good_or_last-Searched, Attempted, try_memalloc_existing-Attempted,
}
use low_level_programming.Alloc.Blocks.Free.{Freed, free-Freed}
use low_level_programming.Alloc.Blocks.RoundTrip.{Restored, free-try_memalloc_existing}

abbrev value_of : {A : Type 0} → Run A → Option A
value_of (ok a s) = some a
value_of r = none

-- Two free blocks that touch, and one in use behind them.
abbrev one : Block
one = block_at 4096 100 true

abbrev two : Block
two = block_at 4213 60 true

abbrev three : Block
three = block_at 4290 40 false

abbrev both : Block
both = block_at 4096 177 true

abbrev cells : Cells
cells =
    update
      (update (update (λ _. none) 4096 (header_of one (two ∷ three ∷ []))) 4213
        (header_of two (three ∷ [])))
      4290 (header_of three [])

abbrev heap : State
heap = record { cell = cells; calls = [] }

heap-Holds : Holds cells (one ∷ two ∷ three ∷ [])
heap-Holds = (refl, (refl, (refl, tt)))

heap-Layout : Layout (one ∷ two ∷ three ∷ [])
heap-Layout = omega arith

-- The search joins the two free blocks, and the rest of them becomes a free block.
take_runs :
    value_of ((try_memalloc_existing 4 120 4096 >>= λ r. load 4233) heap)
    ≡ some (header 4290 40 true)
unfolding try_memalloc_existing find_good_or_last find_loop merge_loop try_merge_with_next
    split_if_too_big load store
take_runs = refl

merge_loop-Merged_example : Merged one (two ∷ three ∷ []) heap (merge_loop 3 4096 heap)
merge_loop-Merged_example =
    merge_loop-Merged 3 one (two ∷ three ∷ []) heap (omega arith) heap-Holds heap-Layout

find_good_or_last-Searched_example :
    Searched 120 4096 (one ∷ two ∷ three ∷ []) heap (find_good_or_last 4 4096 120 heap)
find_good_or_last-Searched_example =
    find_good_or_last-Searched 4 120 one (two ∷ three ∷ []) heap (omega arith) heap-Holds
      heap-Layout

try_memalloc_existing-Attempted_example :
    Attempted 120 4096 (one ∷ two ∷ three ∷ []) heap (try_memalloc_existing 4 120 4096 heap)
try_memalloc_existing-Attempted_example =
    try_memalloc_existing-Attempted 4 120 one (two ∷ three ∷ []) heap (omega arith) (omega arith)
      heap-Holds heap-Layout

free-Freed_example : Freed (one ∷ two ∷ []) three [] heap (free 1 4307 heap)
free-Freed_example =
    free-Freed (one ∷ two ∷ []) three [] heap-Layout 1 heap (omega arith) heap-Holds

scan-both : scan 120 (one ∷ two ∷ three ∷ []) ≡ good [] both (three ∷ [])
unfolding scan
scan-both = refl

free-try_memalloc_existing_example :
    Restored
      (both ∷ three ∷ [])
      heap
      ((try_memalloc_existing 4 120 4096 >>= λ r. free 4 (r.block + 17)) heap)
free-try_memalloc_existing_example =
    free-try_memalloc_existing 4 120 one (two ∷ three ∷ []) heap (omega arith) (omega arith)
      heap-Holds heap-Layout [] both (three ∷ []) scan-both

-- A system with pages of 4096 bytes, whose mappings stand at 8192, are at most as long, and are
-- refused where an address is demanded.
abbrev small_os : Os
small_os = record {
  page_size = 4096;
  mmap = λ calls a n f. if f then none else (if leb n 8192 then some 8192 else none);
}

small-IsNew : (n : ℕ) → n ≤ 8192 → IsNew 8192 n (one ∷ two ∷ three ∷ [])
small-IsNew n h = record { not_null = omega arith; ends = omega arith; apart = grind arith }

small-anywhere :
    (n p : ℕ)
    → (if leb n 8192 then some 8192 else none) ≡ some p
    → IsNew p n (one ∷ two ∷ three ∷ [])
small-anywhere n p e = let b : (p ≡ 8192) × (n ≤ 8192) = ground arith in rw b.0 (small-IsNew n b.1)

small_os-Answers : Answers small_os [] (one ∷ two ∷ three ∷ [])
small_os-Answers = record {
  page_pos = omega arith;
  fixed = λ a n p big e. absurd (cc e);
  anywhere = λ a n p big e. small-anywhere n p e;
}

memalloc-Outcome_example :
    Outcome small_os (request 500) (one ∷ two ∷ three ∷ []) heap (memalloc small_os 5 500 4096 heap)
memalloc-Outcome_example =
    memalloc-Outcome small_os 5 500 one (two ∷ three ∷ []) heap (omega arith) (omega arith)
      small_os-Answers heap-Holds heap-Layout

alloc_region-MappedRegion_example :
    MappedRegion small_os 8192 0 (one ∷ two ∷ three ∷ []) heap (alloc_region small_os 0 500 heap)
    ⊎ NoRegion small_os 8192 0 heap (alloc_region small_os 0 500 heap)
unfolding region_actual_size
alloc_region-MappedRegion_example =
    alloc_region-MappedRegion small_os 0 500 (one ∷ two ∷ three ∷ []) heap small_os-Answers
      (omega arith)
