-- ===== src/Seminar5/Tests.antt =====
-- Runs of the programs of `seminar5` at concrete inputs.
use low_level_programming.Base.{
  ◌>>=◌, none, some, Option, ◌≢◌, List, ℕ, ◌^◌, ◌-◌, ◌≡◌, refl, arith, [], ◌∷◌,
}
use low_level_programming.Seminar5.Ast.{
  Ast, null, as_binop, as_unop, as_literal, bin_minus, un_neg, decimal, print, print_lit,
  print_unop,
}
use low_level_programming.Seminar5.Ast.Injective.{print-inj}
use low_level_programming.Base.Nodes.{Node}
use low_level_programming.Seminar5.GenericList.{push_all, list_print}
use low_level_programming.Seminar5.GenericList.Push.{list_print-push_all}

decimal_example : decimal 20 728 ≡ 55 ∷ 50 ∷ 56 ∷ []
unfolding decimal
decimal_example = refl

-- -1 as a literal.
print_negative : print (as_unop un_neg (as_literal (2 ^ 64 - 1))) ≡ 40 ∷ 45 ∷ 45 ∷ 49 ∷ 41 ∷ []
unfolding print print_unop print_lit decimal
print_negative = refl

abbrev tree : Ast
tree = as_binop bin_minus (as_literal 7) (as_unop un_neg null)

print-inj_example : tree ≡ tree
print-inj_example = print-inj tree tree (omega arith, tt) (omega arith, tt) refl

-- The node that is there, of value 5; what `malloc` returns holds other values.
abbrev heap : List (Node ℕ)
heap = record { value = 5; next = 0 } ∷ []

abbrev memory : ℕ → Option (Node ℕ)
memory calls = some (record { value = 77; next = 9 })

memory-none : (calls : ℕ) → memory calls ≢ none
memory-none calls h = grind arith

list_print-push_all_example :
    (push_all memory 9 heap 1 (1 ∷ 2 ∷ 3 ∷ []) >>= λ grown. list_print 9 grown 1)
    ≡ some (5 ∷ 1 ∷ 2 ∷ 3 ∷ [])
list_print-push_all_example =
    list_print-push_all memory 9 heap 5 [] 1 (1 ∷ 2 ∷ 3 ∷ []) memory-none (0, refl, refl)
      (omega arith)
