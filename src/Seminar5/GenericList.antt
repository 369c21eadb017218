-- ===== src/Seminar5/GenericList.antt =====
-- `seminar5/task3.c`: linked lists of any type, which a macro declares.
pub mod Push
use low_level_programming.Base.{
  ◌>>=◌, ℕ, zero, suc, ◌+◌, ◌-◌, Bool, Option, none, some, List, [], ◌∷◌, ◌++◌, ◌==◌, if◌then◌else◌,
  length,
}
use low_level_programming.Base.Nodes.{Node, load_node, store_node}

module _ {A : Type 0} where
  -- The loop to the last node. A loop takes one unit of fuel a round, and is `none` without.
  unfoldable pub find_last : ℕ → List (Node A) → ℕ → Option ℕ
  find_last zero heap ptr = none
  find_last (suc fuel) heap ptr = do
    n ← load_node heap ptr
    let rest = find_last fuel heap n.next
    if n.next == 0 then some ptr else rest

  -- The values that are printed.
  unfoldable pub list_print : ℕ → List (Node A) → ℕ → Option (List A)
  list_print zero heap ptr = none
  list_print (suc fuel) heap zero = some []
  list_print (suc fuel) heap ptr = do
    n ← load_node heap ptr
    values ← list_print fuel heap n.next
    some (n.value ∷ values)

-- `malloc` answers with the uninitialised content of a node, or with `NULL`, by the number of nodes
-- that there are.
module _ {A : Type 0} (malloc : ℕ → Option (Node A)) where
  unfoldable pub create_node : List (Node A) → ℕ × List (Node A)
  create_node heap = elim (malloc (length heap)) [
    | none ↦ (0, heap)
    | some n ↦ (suc (length heap), heap ++ n ∷ [])
  ]

  unfoldable pub list_push : ℕ → List (Node A) → ℕ → A → Option (List (Node A))
  list_push fuel heap list val = do
    ptr ← find_last fuel heap list
    let (created, heap) = create_node heap
    n ← load_node heap ptr
    let heap = store_node heap ptr (record n { next = created })
    m ← load_node heap created
    some (store_node heap created (record m { value = val; next = 0 }))

  -- The calls of `main` that push one value after another.
  unfoldable pub push_all : ℕ → List (Node A) → ℕ → List A → Option (List (Node A))
  push_all fuel heap list [] = some heap
  push_all fuel heap list (x ∷ xs) = do
    heap ← list_push fuel heap list x
    push_all fuel heap list xs

-- Every list starts with the node that was created first.
unfoldable pub main :
    {D : Type 0} (of_int : ℕ → D) (int64_malloc : ℕ → Option (Node ℕ))
    (double_malloc : ℕ → Option (Node D))
    → (fuel : ℕ) → Option (List ℕ × List D)
main of_int int64_malloc double_malloc fuel = do
  let (int64_t_list, ints) = create_node int64_malloc []
  let (double_list, doubles) = create_node double_malloc []
  ints ← push_all int64_malloc fuel ints int64_t_list (1 ∷ 2 ∷ 3 ∷ [])
  doubles ← push_all double_malloc fuel doubles double_list (of_int 3 ∷ of_int 2 ∷ of_int 1 ∷ [])
  a ← list_print fuel ints int64_t_list
  b ← list_print fuel doubles double_list
  some (a, b)
