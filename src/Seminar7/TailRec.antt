-- ===== src/Seminar7/TailRec.antt =====
-- `seminar7/tail-rec.c`: a linked list whose length is found by a recursion that needs a frame of
-- the stack for every node.
use low_level_programming.Base.{
  ◌>>=◌, ℕ, zero, suc, ◌+◌, ◌*◌, ◌<◌, ◌≡◌, refl, ap, ◌∙◌, Bool, true, Option, none, some, List, [],
  ◌∷◌, ◌++◌, arith, ltb, if◌then◌else◌, length, get_elem?-append,
}
use low_level_programming.Base.Nodes.{Node, load_node, Chain, Chain-append}
use low_level_programming.Base.Words.{size_mod, add_size}

-- `malloc` answers or not, by the number of nodes that there are; without an answer `c` writes
-- through a null pointer.
module _ (malloc : ℕ → Bool) where
  unfoldable pub c : ℕ → ℕ → List (Node ℕ) → Option (ℕ × List (Node ℕ))
  c head tail heap =
      if malloc (length heap)
      then some (suc (length heap), heap ++ record { value = head; next = tail } ∷ [])
      else none

  -- The rounds of the loop of `main` from round `i` on.
  unfoldable pub build : (rounds i lst : ℕ) → List (Node ℕ) → Option (ℕ × List (Node ℕ))
  build zero i lst heap = some (lst, heap)
  build (suc rounds) i lst heap = do (lst, heap) ← c i lst heap; build rounds (i + 1) lst heap

-- A call takes a frame of the stack; without one it faults.
unfoldable pub list_length : (frames : ℕ) → List (Node ℕ) → ℕ → Option ℕ
list_length zero heap l = none
list_length (suc frames) heap zero = some 0
list_length (suc frames) heap l = do
  n ← load_node heap l
  rest ← list_length frames heap n.next
  some (add_size 1 rest)

abbrev pub len : ℕ
len = 1024 * 1024

-- The number that is printed.
unfoldable pub main : (malloc : ℕ → Bool) (frames : ℕ) → Option ℕ
main malloc frames = do (lst, heap) ← build malloc len 0 0 []; list_length frames heap lst

-- `list_length` returns the number of nodes where the stack has a frame more than there are nodes,
-- and overflows the stack otherwise. The number is a word.
pub list_length-frames :
    (frames : ℕ) (heap : List (Node ℕ)) (p : ℕ) (vs : List ℕ)
    → Chain heap p vs
    → length vs < size_mod
    → list_length frames heap p ≡ (if ltb (length vs) frames then some (length vs) else none)
unfolding list_length
list_length-frames zero heap p vs h b = ground arith
list_length-frames (suc frames) heap zero [] h b = ground arith
list_length-frames (suc frames) heap (suc p) [] h b = absurd (omega arith)
list_length-frames (suc frames) heap zero (v ∷ vs) (next, l, h) b = grind arith
list_length-frames (suc frames) heap (suc p) (v ∷ vs) (next, l, h) b =
    rw l (ground (arith, list_length-frames frames heap next vs h))

record Built (values : ℕ) (built : Option (ℕ × List (Node ℕ))) : Type 0 where
  lst : ℕ
  heap : List (Node ℕ)
  vs : List ℕ
  returns : built ≡ some (lst, heap)
  holds : Chain heap lst vs
  many : length vs ≡ values

module _ (malloc : ℕ → Bool) (serves : (calls : ℕ) → malloc calls ≡ true) where
  build-Built :
      (rounds i lst : ℕ) (heap : List (Node ℕ)) (vs : List ℕ)
      → Chain heap lst vs
      → Built (length vs + rounds) (build malloc rounds i lst heap)
  unfolding build c
  build-Built zero i lst heap vs h = record {
    lst = lst;
    heap = heap;
    vs = vs;
    returns = refl;
    holds = h;
    many = omega arith;
  }
  build-Built (suc rounds) i lst heap vs h =
      let grown : List (Node ℕ) = heap ++ record { value = i; next = lst } ∷ [] in
      let b : Built (suc (length vs) + rounds)
          (build malloc rounds (i + 1) (suc (length heap)) grown) =
        build-Built rounds (i + 1) (suc (length heap)) grown (i ∷ vs)
          (lst, get_elem?-append heap _ [], Chain-append vs heap lst _ h) in
      record {
        lst = b.lst;
        heap = b.heap;
        vs = b.vs;
        returns = rw serves b.returns;
        holds = b.holds;
        many = b.many ∙ omega arith;
      }

  -- Where `malloc` serves every node, the program prints the number of rounds of its loop where the
  -- stack has more frames than that, and otherwise faults.
  pub main-frames : (frames : ℕ) → main malloc frames ≡ (if ltb len frames then some len else none)
  unfolding main
  main-frames frames =
      let b : Built len (build malloc len 0 0 []) = build-Built len 0 0 [] [] refl in
      rw b.returns (
        list_length-frames frames b.heap b.lst b.vs b.holds (omega (arith, b.many))
        ∙ ap (λ n. if ltb n frames then some n else none) b.many)
