-- ===== src/Alloc/Heap.antt =====
-- The entry points of `mem.c`: `grow_heap`, `memalloc` and `_malloc`.
pub mod Grow
pub mod Serve
pub mod Joined
pub mod Outcome
use low_level_programming.Base.{ℕ, false, ◌==◌, if◌then◌else◌, ltb}
use low_level_programming.Alloc.{Ptr, null, Cmd, pure, ◌>>=◌, ◌>>◌, load, store}
use low_level_programming.Alloc.Sizes.{
  add_size, contents_offset, block_min_capacity, size_from_capacity, heap_start,
}
use low_level_programming.Alloc.Blocks.{
  block_after, try_merge_with_next, found_good_block, reached_end_not_found, corrupted,
  try_memalloc_existing,
}
use low_level_programming.Alloc.Region.{Os, alloc_region}

-- `block->next = p`
abbrev pub set_next : Ptr → Ptr → Cmd (Unit {0})
set_next block p = do h ← load block; store block (record h { next = p })

module _ (os : Os) where
  unfoldable pub grow_heap : Ptr → ℕ → Cmd Ptr
  grow_heap last query = if last == null then pure null else do
    h ← load last
    r ← alloc_region os (block_after last h) query
    if r.addr == null then pure null else do
      set_next last r.addr
      merged ← (if r.extends then try_merge_with_next last else pure false)
      if merged then pure last else do h' ← load last; pure h'.next

  unfoldable pub memalloc : ℕ → ℕ → Ptr → Cmd Ptr
  memalloc fuel query start = if start == null then pure null else do
    let query = if ltb query block_min_capacity then block_min_capacity else query
    result ← try_memalloc_existing fuel query start
    elim result.type [
      | corrupted ↦ pure null
      | found_good_block ↦ pure result.block
      | reached_end_not_found ↦ do
        grown ← grow_heap result.block (size_from_capacity query)
        if grown == null
            then pure null
            else do again ← try_memalloc_existing fuel query start; pure again.block
    ]

  unfoldable pub malloc : ℕ → ℕ → Cmd Ptr
  malloc fuel query = do
    addr ← memalloc fuel query heap_start
    pure (if addr == null then null else add_size addr contents_offset)
