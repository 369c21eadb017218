-- ===== src/Seminar6/Heap1.antt =====
-- `seminar6/heap-1.c`: runs of blocks in an array of statuses.
pub mod FirstFit
pub mod Marks
pub mod Allocate
use Prim.Native.String.{String}
use low_level_programming.Base.{
  ℕ, zero, suc, ◌+◌, ◌-◌, ◌≡◌, Bool, true, false, not, ◌&&◌, Option, none, some, List, [], ◌∷◌,
  ◌++◌, max, ltb, leb, ◌==◌, if◌then◌else◌, length, get_elem?, set, replicate,
}

abbrev pub heap_blocks : ℕ
heap_blocks = 16

-- `enum block_status`
pub data Status : Type 0 where
  blk_free blk_one blk_first blk_cont blk_last : Status

-- `struct block_id`; the heap that it points to is passed on by itself.
pub record BlockId : Type 0 where
  pub value : ℕ
  pub valid : Bool

abbrev pub block_id_new : ℕ → BlockId
block_id_new v = record { value = v; valid = true }

abbrev pub block_id_invalid : BlockId
block_id_invalid = record { value = 0; valid = false }

abbrev pub block_id_is_valid : BlockId → Bool
block_id_is_valid b = b.valid && ltb b.value heap_blocks

-- The statuses of a heap.
abbrev pub Heap : Type 0
Heap = List Status

abbrev pub is_blk_free : Status → Bool
is_blk_free blk_free = true
is_blk_free _ = false

-- `none` is an access outside of the array.
unfoldable pub block_is_free : Heap → BlockId → Option Bool
block_is_free heap b =
    if block_id_is_valid b
    then elim (get_elem? heap b.value) [ none ↦ none | some s ↦ some (is_blk_free s) ]
    else some false

-- The variables of the first loop of `block_allocate`.
pub record Search : Type 0 where
  pub max_free : ℕ
  pub start_id : ℕ
  pub counter : ℕ
  pub started : Bool

abbrev pub search_at : ℕ → ℕ → ℕ → Bool → Search
search_at m s c b = record { max_free = m; start_id = s; counter = c; started = b }

abbrev pub see_free : ℕ → Search → Search
see_free i v =
    search_at (max (v.counter + 1) v.max_free) (if v.started then v.start_id else i) (v.counter + 1)
      true

abbrev pub see_used : Search → Search
see_used v = if v.started then search_at v.max_free v.start_id 0 false else v

-- The loop, over the statuses from the index `i` on.
unfoldable pub search_loop : Heap → (i size : ℕ) → Search → Search
search_loop [] i size v = v
search_loop (blk_free ∷ rest) i size v =
    let next = search_loop rest (i + 1) size (see_free i v) in
    if leb size (see_free i v).max_free then see_free i v else next
search_loop (s ∷ rest) i size v = search_loop rest (i + 1) size (see_used v)

-- The status that the second loop writes at `i`.
abbrev pub tag : (i start_id size : ℕ) → Status
tag i start_id size =
    if i == start_id then blk_first else (if i == start_id + size - 1 then blk_last else blk_cont)

-- The second loop, by the rounds left.
unfoldable pub mark_loop : (left i start_id size : ℕ) → Heap → Heap
mark_loop zero i start_id size heap = heap
mark_loop (suc left) i start_id size heap =
    mark_loop left (i + 1) start_id size (set heap i (tag i start_id size))

unfoldable pub block_allocate : Heap → ℕ → Heap × BlockId
block_allocate heap size =
    let v = search_loop heap 0 size (search_at 0 0 0 false) in
    if ltb v.max_free size then (heap, block_id_invalid) else (
      if size == 1
          then set heap v.start_id blk_one
          else mark_loop size v.start_id v.start_id size heap,
      block_id_new v.start_id,
    )

-- The loop of `block_free`, on fuel; `none` is an access outside of the array.
unfoldable pub free_loop : (fuel curr_id : ℕ) → Heap → Option Heap
free_loop zero curr_id heap = none
free_loop (suc fuel) curr_id heap = elim (get_elem? heap curr_id) [
  | none ↦ none
  | some blk_last ↦ some (set heap curr_id blk_free)
  | some _ ↦ free_loop fuel (curr_id + 1) (set heap curr_id blk_free)
]

-- A round passes one block of the array, so as many rounds as it has blocks are enough.
unfoldable pub block_free : Heap → BlockId → Option Heap
block_free heap b = elim (get_elem? heap b.value) [
  | none ↦ none
  | some blk_one ↦ some (set heap b.value blk_free)
  | some _ ↦ free_loop (length heap) b.value heap
]

abbrev pub repr : Status → String
repr blk_free = " ."
repr blk_one = " *"
repr blk_first = "[="
repr blk_last = "=]"
repr blk_cont = " ="

abbrev pub block_repr : Heap → BlockId → Option String
block_repr heap b =
    if b.valid
    then elim (get_elem? heap b.value) [ none ↦ none | some s ↦ some (repr s) ]
    else some "INVALID"

-- What is printed, in pieces.
abbrev pub both : Option (List String) → Option (List String) → Option (List String)
both none q = none
both (some xs) none = none
both (some xs) (some ys) = some (xs ++ ys)

abbrev pub block_debug_info : Heap → BlockId → Option (List String)
block_debug_info heap b = elim (block_repr heap b) [ none ↦ none | some s ↦ some (s ∷ []) ]

-- The loop of `block_foreach_printer` from `c` on, by the rounds left.
abbrev pub foreach_loop : (left c : ℕ) → (BlockId → Option (List String)) → Option (List String)
foreach_loop zero c printer = some []
foreach_loop (suc left) c printer =
    both (printer (block_id_new c)) (foreach_loop left (c + 1) printer)

abbrev pub block_foreach_printer : ℕ → (BlockId → Option (List String)) → Option (List String)
block_foreach_printer count printer = foreach_loop count 0 printer

unfoldable pub heap_debug_info : Heap → Option (List String)
heap_debug_info heap =
    both (block_foreach_printer heap_blocks (block_debug_info heap)) (some ("\n" ∷ []))

-- `global_heap`, which starts with zeros.
abbrev pub global_heap : Heap
global_heap = replicate heap_blocks blk_free

unfoldable pub main : Option (List String)
main =
    let allocated = block_allocate global_heap 1 in
    both (heap_debug_info global_heap) (
      both (heap_debug_info allocated.0)
        (elim (block_free allocated.0 allocated.1) [ none ↦ none | some h ↦ heap_debug_info h ]))
