-- ===== src/Seminar5/GenericList/Push.antt =====
-- What `list_push` and `list_print` do to a list of nodes.
use low_level_programming.Base.{
  ◌>>=◌, ℕ, zero, suc, ◌+◌, ◌≤◌, ◌<◌, ◌≡◌, ◌≢◌, refl, ◌∙◌, Option, none, some, List, [], ◌∷◌, ◌++◌,
  arith, length, get_elem?-append, length-append, append_assoc, append_nil, Option-cases, inl, inr,
}
use low_level_programming.Base.Nodes.{
  Node, load_node, store_node, Chain, load_node-append, load_node-store_ne, load_node-store,
  load_node-le,
}
use low_level_programming.Seminar5.GenericList.{
  create_node, find_last, list_push, push_all, list_print,
}

abbrev node : {A : Type 0} → A → ℕ → Node A
node v next = record { value = v; next = next }

-- The node that `find_last` returns, and how a list grows behind it: every other node points to a
-- next one, so that the last one is none of them.
record Found {A : Type 0} (heap : List (Node A)) (p : ℕ) (vs : List A) (found : Option ℕ)
    : Type 0 where
  last : ℕ
  w : A
  finds : found ≡ some last
  ends : load_node heap last ≡ some (node w 0)
  extend :
      (heap' : List (Node A)) (r : ℕ) (x : A)
      → ((a : ℕ) (n : Node A) → load_node heap a ≡ some n → n.next ≢ 0 → load_node heap' a ≡ some n)
      → load_node heap' last ≡ some (node w r)
      → load_node heap' r ≡ some (node x 0)
      → Chain heap' p (vs ++ x ∷ [])

module _ {A : Type 0} where
  load_node-some : (heap : List (Node A)) (a : ℕ) (n : Node A) → load_node heap a ≡ some n → a ≢ 0
  load_node-some heap zero n h = grind arith
  load_node-some heap (suc a) n h = omega arith

  load_node-ne :
      (heap : List (Node A)) (a : ℕ) (n : Node A)
      → load_node heap a ≡ some n
      → a ≢ suc (length heap)
  load_node-ne heap a n l = let le : a ≤ length heap = load_node-le heap a n l in omega arith

  find_last-Found :
      (fuel : ℕ) (heap : List (Node A)) (v : A) (vs : List A) (p : ℕ)
      → Chain heap p (v ∷ vs)
      → length vs < fuel
      → Found heap p (v ∷ vs) (find_last fuel heap p)
  unfolding find_last
  find_last-Found zero heap v vs p c h = absurd (omega arith)
  find_last-Found (suc fuel) heap v [] p (next, l, e) h = record {
    last = p;
    w = v;
    finds = rw (l, e) refl;
    ends = rw (l, e) refl;
    extend = λ heap' r x keep at_last at_new. (r, at_last, (0, at_new, refl));
  }
  find_last-Found (suc fuel) heap v (v' ∷ vs) p (next, l, (next', l', c)) h =
      let f : Found heap next (v' ∷ vs) (find_last fuel heap next) =
        find_last-Found fuel heap v' vs next (next', l', c) (omega arith) in
      let some_next : next ≢ 0 = load_node-some heap next _ l' in
      record {
        last = f.last;
        w = f.w;
        finds = rw l (ground (arith, f.finds));
        ends = f.ends;
        extend = λ heap' r x keep at_last at_new.
            (next, keep p _ l some_next, f.extend heap' r x keep at_last at_new);
      }

  list_print-Chain :
      (fuel : ℕ) (heap : List (Node A)) (p : ℕ) (vs : List A)
      → Chain heap p vs
      → length vs < fuel
      → list_print fuel heap p ≡ some vs
  unfolding list_print
  list_print-Chain zero heap p vs c h = absurd (omega arith)
  list_print-Chain (suc fuel) heap zero [] c h = refl
  list_print-Chain (suc fuel) heap (suc p) [] c h = absurd (omega arith)
  list_print-Chain (suc fuel) heap zero (v ∷ vs) (next, l, c) h = grind arith
  list_print-Chain (suc fuel) heap (suc p) (v ∷ vs) (next, l, c) h =
      rw (l, list_print-Chain fuel heap next vs c (omega arith)) refl

module _ {A : Type 0} (malloc : ℕ → Option (Node A)) where
  record Pushed (p : ℕ) (vs : List A) (pushed : Option (List (Node A))) : Type 0 where
    heap : List (Node A)
    returns : pushed ≡ some heap
    holds : Chain heap p vs

  create_node-some :
      (heap : List (Node A)) (fresh : Node A)
      → malloc (length heap) ≡ some fresh
      → create_node malloc heap ≡ (suc (length heap), heap ++ fresh ∷ [])
  unfolding create_node
  create_node-some heap fresh serves = rw (create_node, serves) refl

  list_push-Pushed :
      (fuel : ℕ) (heap : List (Node A)) (v : A) (vs : List A) (p : ℕ) (x : A) (fresh : Node A)
      → malloc (length heap) ≡ some fresh
      → Chain heap p (v ∷ vs)
      → length vs < fuel
      → Pushed p ((v ∷ vs) ++ x ∷ []) (list_push malloc fuel heap p x)
  unfolding list_push
  list_push-Pushed fuel heap v vs p x fresh serves c h =
      let f : Found heap p (v ∷ vs) (find_last fuel heap p) =
        find_last-Found fuel heap v vs p c h in
      let new : ℕ = suc (length heap) in
      let grown : List (Node A) = heap ++ fresh ∷ [] in
      let linked : List (Node A) = store_node grown f.last (node f.w new) in
      let le : f.last ≤ length heap = load_node-le heap f.last _ f.ends in
      let at_new : load_node linked new ≡ some fresh =
        load_node-store_ne grown new f.last _ (omega arith) ∙ get_elem?-append heap fresh [] in
      let at_last : load_node grown f.last ≡ some (node f.w 0) =
        load_node-append heap f.last _ _ f.ends in
      record {
        heap = store_node linked new (node x 0);
        returns = rw (f.finds, create_node-some heap fresh serves, at_last, at_new) refl;
        holds =
            f.extend (store_node linked new (node x 0)) new x
              (λ a n l ne.
                load_node-store_ne linked a new _ (load_node-ne heap a n l)
                ∙ load_node-store_ne grown a f.last _ (λ e. ne (ground (arith, l, f.ends, e)))
                ∙ load_node-append heap a n _ l)
              (load_node-store_ne linked f.last new _ (omega arith)
                ∙ load_node-store grown f.last _ _ at_last)
              (load_node-store linked new _ _ at_new);
      }

  push_all-Pushed :
      (fuel : ℕ) (heap : List (Node A)) (v : A) (vs : List A) (p : ℕ) (xs : List A)
      → ((calls : ℕ) → malloc calls ≢ none)
      → Chain heap p (v ∷ vs)
      → length vs + length xs < fuel
      → Pushed p ((v ∷ vs) ++ xs) (push_all malloc fuel heap p xs)
  unfolding push_all
  push_all-Pushed fuel heap v vs p [] serves c h = record {
    heap = heap;
    returns = refl;
    holds = rw append_nil c;
  }
  push_all-Pushed fuel heap v vs p (x ∷ xs) serves c h =
      let (fresh, e) : (n : Node A) × (malloc (length heap) ≡ some n) =
        elim (Option-cases (malloc (length heap))) [
          | inl none_left ↦ absurd (serves (length heap) none_left)
          | inr r ↦ r
        ] in
      let a : Pushed p ((v ∷ vs) ++ x ∷ []) (list_push malloc fuel heap p x) =
        list_push-Pushed fuel heap v vs p x fresh e c (omega arith) in
      let b : Pushed p ((v ∷ (vs ++ x ∷ [])) ++ xs) (push_all malloc fuel a.heap p xs) =
        push_all-Pushed fuel a.heap v (vs ++ x ∷ []) p xs serves a.holds
          (omega (arith, length-append vs (x ∷ []))) in
      record {
        heap = b.heap;
        returns = rw a.returns b.returns;
        holds = rw (← append_assoc vs (x ∷ []) xs) b.holds;
      }

  -- Where `malloc` serves every node, pushing values behind a list with a node ends, and what is
  -- printed then is the list's values and the new ones in their order. The fuel exceeds the number
  -- of values.
  pub list_print-push_all :
      (fuel : ℕ) (heap : List (Node A)) (v : A) (vs : List A) (p : ℕ) (xs : List A)
      → ((calls : ℕ) → malloc calls ≢ none)
      → Chain heap p (v ∷ vs)
      → suc (length vs + length xs) < fuel
      → (push_all malloc fuel heap p xs >>= λ grown. list_print fuel grown p)
        ≡ some ((v ∷ vs) ++ xs)
  list_print-push_all fuel heap v vs p xs serves c h =
      let a : Pushed p ((v ∷ vs) ++ xs) (push_all malloc fuel heap p xs) =
        push_all-Pushed fuel heap v vs p xs serves c (omega arith) in
      rw a.returns (
        list_print-Chain fuel a.heap p ((v ∷ vs) ++ xs) a.holds
          (omega (arith, length-append vs xs)))
