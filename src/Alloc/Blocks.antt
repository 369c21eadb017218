-- ===== src/Alloc/Blocks.antt =====
-- The functions of `mem.c` on the list of blocks: split, merge, search, take, and `_free`.
-- Each loop runs on fuel, which its theorems bound by the number of blocks.
pub mod Merge
pub mod Find
pub mod Split
pub mod Take
pub mod Free
pub mod RoundTrip
use low_level_programming.Base.{
  ℕ, zero, suc, ◌+◌, ◌-◌, ◌%◌, Bool, true, false, not, ◌&&◌, ◌||◌, ◌==◌, if◌then◌else◌, ltb, leb,
}
use low_level_programming.Alloc.{
  Ptr, null, Header, header, Cmd, out_of_fuel, pure, ◌>>=◌, ◌>>◌, load, store,
}
use low_level_programming.Alloc.Sizes.{
  size_mod, add_size, sub_size, contents_offset, block_min_capacity, size_from_capacity,
  capacity_from_size,
}

-- Functions that only read take the header that the caller has loaded.
abbrev pub block_is_big_enough : ℕ → Header → Bool
block_is_big_enough query block = leb query block.capacity

abbrev pub block_init : Ptr → ℕ → Ptr → Cmd (Unit {0})
block_init addr block_sz next = store addr (header next (capacity_from_size block_sz) true)

-- `block->contents + block->capacity.bytes`
abbrev pub block_after : Ptr → Header → Ptr
block_after block h = add_size (block + contents_offset) h.capacity

abbrev pub blocks_continuous : Ptr → Header → Ptr → Bool
blocks_continuous fst h snd = snd == block_after fst h

abbrev pub block_splittable : Header → ℕ → Bool
block_splittable h query =
    h.is_free && leb ((query + contents_offset + block_min_capacity) % size_mod) h.capacity

unfoldable pub split_if_too_big : Ptr → ℕ → Cmd Bool
split_if_too_big block query = do
  h ← load block
  if not (block_splittable h query) then pure false else do
    let query = if ltb query block_min_capacity then block_min_capacity else query
    let original_size = size_from_capacity h.capacity
    let new_size = size_from_capacity query
    let next_splitted = add_size block new_size
    block_init block new_size next_splitted
    block_init next_splitted (sub_size original_size new_size) h.next
    pure true

abbrev pub mergeable : Ptr → Header → Ptr → Header → Bool
mergeable fst h snd k = h.is_free && k.is_free && blocks_continuous fst h snd

unfoldable pub try_merge_with_next : Ptr → Cmd Bool
try_merge_with_next block = if block == null then pure false else do
  h ← load block
  if h.next == null then pure false else do
    k ← load h.next
    if not (mergeable block h h.next k) then pure false else do
      block_init block (add_size (size_from_capacity h.capacity) (size_from_capacity k.capacity))
          k.next
      pure true

-- `while (try_merge_with_next(block)) {}`
unfoldable pub merge_loop : ℕ → Ptr → Cmd (Unit {0})
merge_loop zero block = λ _. out_of_fuel
merge_loop (suc fuel) block = do
  merged ← try_merge_with_next block
  if merged then merge_loop fuel block else pure tt

pub data SearchType : Type 0 where
  found_good_block reached_end_not_found corrupted : SearchType

-- `struct block_search_result`
pub record SearchResult : Type 0 where
  pub type : SearchType
  pub block : Ptr

abbrev pub search_result : SearchType → Ptr → SearchResult
search_result t b = record { type = t; block = b }

-- The outer loop of `find_good_or_last`.
unfoldable pub find_loop : ℕ → (block last : Ptr) (sz : ℕ) → Cmd SearchResult
find_loop zero block last sz = λ _. out_of_fuel
find_loop (suc fuel) block last sz =
    if block == null then pure (search_result reached_end_not_found last) else do
      h ← load block
      if not h.is_free then find_loop fuel h.next last sz else do
        merge_loop fuel block
        k ← load block
        if block_is_big_enough sz k
            then pure (search_result found_good_block block)
            else find_loop fuel k.next block sz

unfoldable pub find_good_or_last : ℕ → Ptr → ℕ → Cmd SearchResult
find_good_or_last fuel block sz =
    if block == null then pure (search_result corrupted null) else find_loop fuel block block sz

-- `block->is_free = f`
abbrev pub set_is_free : Ptr → Bool → Cmd (Unit {0})
set_is_free block f = do h ← load block; store block (record h { is_free = f })

unfoldable pub try_memalloc_existing : ℕ → ℕ → Ptr → Cmd SearchResult
try_memalloc_existing fuel query block = do
  r ← find_good_or_last fuel block query
  elim r.type [
    | found_good_block ↦ do split_if_too_big r.block query; set_is_free r.block false; pure r
    | _ ↦ pure r
  ]

-- `block_get_header`
abbrev pub block_get_header : Ptr → Ptr
block_get_header contents = sub_size contents contents_offset

-- `_free`; the letter that it prints at each merge is left out.
unfoldable pub free : ℕ → Ptr → Cmd (Unit {0})
free fuel mem =
    if mem == null
    then pure tt
    else do set_is_free (block_get_header mem) true; merge_loop fuel (block_get_header mem)
