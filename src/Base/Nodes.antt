-- ===== src/Base/Nodes.antt =====
-- The heap of the programs that build linked lists: nodes with a value and the address of the next
-- one. Address 0 is `NULL`; the node that was allocated first has address 1.
use Prim.Native.Nat.{ℕ, zero, suc, ◌≤◌}
use mathlib.Core.Path.{◌≡◌, refl, sym, ap}
use mathlib.Core.List.{List, [], ◌∷◌, ◌++◌}
use mathlib.Core.Logic.{◌≢◌}
use mathlib.Core.Option.{Option, none, some}
use native.Mathlib.Omega.{arith}
use low_level_programming.Base.Lists.{length, get_elem?, get_elem?-set_ne, set}

pub record Node (A : Type 0) : Type 0 where
  pub value : A
  pub next : ℕ

module _ {A : Type 0} where
  -- A read through `NULL` or where no node is faults.
  abbrev pub load_node : List (Node A) → ℕ → Option (Node A)
  load_node heap zero = none
  load_node heap (suc i) = get_elem? heap i

  abbrev pub store_node : List (Node A) → ℕ → Node A → List (Node A)
  store_node heap zero n = heap
  store_node heap (suc i) n = set heap i n

  -- The list at address `p` holds the values `vs`.
  abbrev pub Chain : List (Node A) → ℕ → List A → Type 0
  Chain heap p [] = p ≡ 0
  Chain heap p (v ∷ vs) =
      (next : ℕ) × (load_node heap p ≡ some (record { value = v; next = next }))
      × Chain heap next vs

  pub load_node-append :
      (heap : List (Node A)) (a : ℕ) (n : Node A) (ys : List (Node A))
      → load_node heap a ≡ some n
      → load_node (heap ++ ys) a ≡ some n
  load_node-append heap zero n ys h = grind arith
  load_node-append [] (suc i) n ys h = grind arith
  load_node-append (m ∷ heap) (suc zero) n ys h = h
  load_node-append (m ∷ heap) (suc (suc i)) n ys h = load_node-append heap (suc i) n ys h

  pub load_node-store_ne :
      (heap : List (Node A)) (a b : ℕ) (n : Node A)
      → a ≢ b
      → load_node (store_node heap b n) a ≡ load_node heap a
  load_node-store_ne heap zero b n h = refl
  load_node-store_ne heap (suc i) zero n h = refl
  load_node-store_ne heap (suc i) (suc j) n h =
      get_elem?-set_ne heap j i n (λ e. h (ap suc (sym e)))

  pub load_node-store :
      (heap : List (Node A)) (a : ℕ) (m n : Node A)
      → load_node heap a ≡ some m
      → load_node (store_node heap a n) a ≡ some n
  load_node-store heap zero m n h = grind arith
  load_node-store [] (suc i) m n h = grind arith
  load_node-store (k ∷ heap) (suc zero) m n h = refl
  load_node-store (k ∷ heap) (suc (suc i)) m n h = load_node-store heap (suc i) m n h

  pub load_node-le :
      (heap : List (Node A)) (a : ℕ) (n : Node A) → load_node heap a ≡ some n → a ≤ length heap
  load_node-le heap zero n h = omega arith
  load_node-le [] (suc i) n h = grind arith
  load_node-le (k ∷ heap) (suc zero) n h = omega arith
  load_node-le (k ∷ heap) (suc (suc i)) n h =
      let le : suc i ≤ length heap = load_node-le heap (suc i) n h in omega arith

  -- Nodes that are added do not change a list.
  pub Chain-append :
      (vs : List A) (heap : List (Node A)) (p : ℕ) (ys : List (Node A))
      → Chain heap p vs
      → Chain (heap ++ ys) p vs
  Chain-append [] heap p ys h = h
  Chain-append (v ∷ vs) heap p ys (next, h, rest) =
      (next, load_node-append heap p _ ys h, Chain-append vs heap next ys rest)
