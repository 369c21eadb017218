-- ===== src/Seminar6/Heap0.antt =====
-- `seminar6/heap-0.c`: single blocks in an array of flags.
pub mod Allocate
use Prim.Native.String.{String}
use low_level_programming.Base.{
  ℕ, zero, suc, ◌+◌, Bool, true, false, ◌&&◌, Option, none, some, List, [], ◌∷◌, ◌++◌, ltb,
  if◌then◌else◌, get_elem?, set, replicate,
}

abbrev pub heap_blocks : ℕ
heap_blocks = 16

-- `struct block_id`; the heap that it points to is passed on by itself.
pub record BlockId : Type 0 where
  pub value : ℕ
  pub valid : Bool

abbrev pub block_id_new : ℕ → BlockId
block_id_new v = record { value = v; valid = true }

abbrev pub block_id_invalid : BlockId
block_id_invalid = record { value = 0; valid = false }

abbrev pub block_id_is_valid : BlockId → Bool
block_id_is_valid b = b.valid && ltb b.value heap_blocks

-- `is_occupied`
abbrev pub Heap : Type 0
Heap = List Bool

-- `none` is an access outside of the array.
abbrev pub block_is_free : Heap → BlockId → Option Bool
block_is_free heap b = get_elem? heap b.value

-- The loop of `block_allocate` from the index `i` on. `none` is the end of the function without a
-- `return`: the heap is as before, and the caller's block id is undefined.
unfoldable pub allocate_loop : (rest : Heap) (i : ℕ) (heap : Heap) → Option (Heap × BlockId)
allocate_loop [] i heap = none
allocate_loop (false ∷ rest) i heap = some (set heap i true, block_id_new i)
allocate_loop (true ∷ rest) i heap = allocate_loop rest (i + 1) heap

unfoldable pub block_allocate : Heap → Option (Heap × BlockId)
block_allocate heap = allocate_loop heap 0 heap

-- `b.valid = true` is written to a copy of the caller's id. `none` is a write outside of the array.
unfoldable pub block_free : Heap → BlockId → Option Heap
block_free heap b = elim (get_elem? heap b.value) [
  | none ↦ none
  | some _ ↦ some (set heap b.value false)
]

abbrev pub repr : Bool → String
repr false = " ."
repr true = " ="

abbrev pub block_repr : Heap → BlockId → Option String
block_repr heap b =
    if b.valid
    then elim (get_elem? heap b.value) [ none ↦ none | some o ↦ some (repr o) ]
    else some "x"

-- What is printed, in pieces.
abbrev pub both : Option (List String) → Option (List String) → Option (List String)
both none q = none
both (some xs) none = none
both (some xs) (some ys) = some (xs ++ ys)

abbrev pub block_debug_info : Heap → BlockId → Option (List String)
block_debug_info heap b = elim (block_repr heap b) [ none ↦ none | some s ↦ some (s ∷ []) ]

-- The loop of `block_foreach_printer` from `c` on, by the rounds left.
abbrev pub foreach_loop : (left c : ℕ) → (BlockId → Option (List String)) → Option (List String)
foreach_loop zero c printer = some []
foreach_loop (suc left) c printer =
    both (printer (block_id_new c)) (foreach_loop left (c + 1) printer)

abbrev pub block_foreach_printer : ℕ → (BlockId → Option (List String)) → Option (List String)
block_foreach_printer count printer = foreach_loop count 0 printer

unfoldable pub heap_debug_info : Heap → Option (List String)
heap_debug_info heap =
    both (block_foreach_printer heap_blocks (block_debug_info heap)) (some ("\n" ∷ []))

-- `global_heap`, which starts with zeros.
abbrev pub global_heap : Heap
global_heap = replicate heap_blocks false

abbrev pub then_do {ℓ κ} : {A : Type ℓ} {B : Type κ} → Option A → (A → Option B) → Option B
then_do none f = none
then_do (some a) f = f a

unfoldable pub main : Option (List String)
main = then_do (block_allocate global_heap) λ first. then_do (block_allocate first.0) λ second.
    then_do (block_allocate second.0) λ third.
      then_do (block_free third.0 second.1)
        λ heap. both (heap_debug_info global_heap) (heap_debug_info heap)
