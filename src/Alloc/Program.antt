-- ===== src/Alloc/Program.antt =====
-- `Memory Allocator C/src/main.c`: the test program of the allocator. An assertion that does not
-- hold is a fault; `debug` prints nothing.
mod Tests
use low_level_programming.Base.{
  ℕ, ◌*◌, ◌-◌, ◌^◌, Bool, true, false, not, List, ltb, ◌==◌, if◌then◌else◌,
}
use low_level_programming.Alloc.{
  Ptr, null, SysCall, mapped, map_failed, header, update, ok, fault, Cmd, pure, ◌>>=◌, ◌>>◌, load,
}
use low_level_programming.Alloc.Sizes.{heap_start}
use low_level_programming.Alloc.Blocks.{block_get_header, free}
use low_level_programming.Alloc.Region.{Os, record_call, heap_init}
use low_level_programming.Alloc.Heap.{malloc}
use low_level_programming.Alloc.Term.{heap_term}

abbrev pub default_heap_size : ℕ
default_heap_size = 4096

abbrev pub assert : Bool → Cmd (Unit {0})
assert b = if b then pure tt else λ _. fault

abbrev pub is_allocated : Ptr → Bool
is_allocated p = not (p == null)

-- `get_header(mem)->is_free`
abbrev pub block_is_free : Ptr → Cmd Bool
block_is_free mem = do h ← load (block_get_header mem); pure h.is_free

-- `MAP_FAILED`
abbrev pub failed : Ptr
failed = 2 ^ 64 - 1

module _ (os : Os) (fuel : ℕ) where
  unfoldable pub test_success_malloc : Cmd (Unit {0})
  test_success_malloc = do
    heap ← heap_init os default_heap_size
    assert (is_allocated heap)
    allocated ← malloc os fuel 2048
    assert (is_allocated allocated)
    allocated ← malloc os fuel 8192
    assert (is_allocated allocated)
    heap_term os fuel

  unfoldable pub test_free_block : Cmd (Unit {0})
  test_free_block = do
    heap ← heap_init os 0
    assert (is_allocated heap)
    first_block ← malloc os fuel 10
    second_block ← malloc os fuel 20
    third_block ← malloc os fuel 30
    assert (is_allocated first_block)
    assert (is_allocated second_block)
    assert (is_allocated third_block)
    free fuel second_block
    first ← block_is_free first_block
    assert (not first)
    second ← block_is_free second_block
    assert second
    third ← block_is_free third_block
    assert (not third)
    heap_term os fuel

  unfoldable pub test_free_two_blocks : Cmd (Unit {0})
  test_free_two_blocks = do
    heap ← heap_init os 0
    assert (is_allocated heap)
    first_block ← malloc os fuel 10
    second_block ← malloc os fuel 20
    third_block ← malloc os fuel 30
    assert (is_allocated first_block)
    assert (is_allocated second_block)
    assert (is_allocated third_block)
    free fuel first_block
    free fuel second_block
    first ← block_is_free first_block
    assert first
    second ← block_is_free second_block
    assert second
    third ← block_is_free third_block
    assert (not third)
    heap_term os fuel

  -- `heap` points to a block header, which is read as a `struct region`: the field `size` stands
  -- where the header has its capacity.
  unfoldable pub test_expand_region : Cmd (Unit {0})
  test_expand_region = do
    heap ← heap_init os 0
    assert (is_allocated heap)
    initial ← load heap
    malloc os fuel (3 * 4096)
    expanded ← load heap
    assert (ltb initial.capacity expanded.capacity)
    heap_term os fuel

-- A call of `mmap` with `MAP_FIXED`, which replaces what is mapped there by zero bytes: they read
-- as a header without a next block, capacity or the mark of a free block.
unfoldable pub map_fixed : (fixed_mmap : List SysCall → Ptr → ℕ → Bool) → Ptr → ℕ → Cmd Ptr
map_fixed fixed_mmap addr length s =
    if fixed_mmap s.calls addr length
    then ok addr (
        record_call (mapped addr length)
          (record s { cell = update s.cell addr (header null 0 false) }))
    else ok failed (record_call (map_failed addr length) s)

module _ (os : Os) (fixed_mmap : List SysCall → Ptr → ℕ → Bool) (fuel : ℕ) where
  unfoldable pub test_expand_filled_region : Cmd (Unit {0})
  test_expand_filled_region = do
    pre_allocated ← map_fixed fixed_mmap heap_start 10
    assert (is_allocated pre_allocated)
    allocated_filled_ptr ← malloc os fuel 10
    assert (is_allocated allocated_filled_ptr)
    assert (not (pre_allocated == allocated_filled_ptr))
    heap_term os fuel

  unfoldable pub main : Cmd (Unit {0})
  main = do
    test_success_malloc os fuel
    test_free_block os fuel
    test_free_two_blocks os fuel
    test_expand_region os fuel
    test_expand_filled_region
