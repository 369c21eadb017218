-- ===== src/Seminar5/Ast.antt =====
-- `seminar5/task4.c`: arithmetic expressions as trees, and their printer. A file is the list of
-- the codes of the characters written.
pub mod Decimal
pub mod Injective
use low_level_programming.Base.{
  ◌>>=◌, ℕ, zero, suc, ◌+◌, ◌-◌, ◌*◌, ◌/◌, ◌%◌, ◌^◌, ◌<◌, Bool, true, false, Option, none, some,
  List, [], ◌∷◌, ◌++◌, ltb, if◌then◌else◌,
}
use low_level_programming.Base.Words.{size_mod}

pub data BinopType : Type 0 where
  bin_plus bin_minus bin_mul bin_div : BinopType

pub data UnopType : Type 0 where
  un_neg : UnopType

-- A pointer to a node; a literal is the word of 64 bits that holds its value.
pub data Ast : Type 0 where
  null : Ast
  as_binop : BinopType → Ast → Ast → Ast
  as_unop : UnopType → Ast → Ast
  as_literal : ℕ → Ast

-- The program's memory is the number of calls made to `malloc`, which `malloc` answers or not;
-- where it does not, `newnode` writes to a null pointer.
module _ (malloc : ℕ → Bool) where
  unfoldable pub newnode : Ast → ℕ → Option (Ast × ℕ)
  newnode ast calls = if malloc calls then some (ast, calls + 1) else none

  abbrev pub lit : ℕ → ℕ → Option (Ast × ℕ)
  lit value = newnode (as_literal value)

  abbrev pub unop : UnopType → Ast → ℕ → Option (Ast × ℕ)
  unop type operand = newnode (as_unop type operand)

  abbrev pub binop : BinopType → Ast → Ast → ℕ → Option (Ast × ℕ)
  binop type left right = newnode (as_binop type left right)

  abbrev pub add : Ast → Ast → ℕ → Option (Ast × ℕ)
  add left right = binop bin_plus left right

  abbrev pub mul : Ast → Ast → ℕ → Option (Ast × ℕ)
  mul left right = binop bin_mul left right

  abbrev pub sub : Ast → Ast → ℕ → Option (Ast × ℕ)
  sub left right = binop bin_minus left right

  abbrev pub divide : Ast → Ast → ℕ → Option (Ast × ℕ)
  divide left right = binop bin_div left right

  abbrev pub neg : Ast → ℕ → Option (Ast × ℕ)
  neg operand = unop un_neg operand

abbrev pub opening : ℕ
opening = 40

abbrev pub closing : ℕ
closing = 41

abbrev pub minus : ℕ
minus = 45

abbrev pub binops : BinopType → ℕ
binops bin_plus = 43
binops bin_minus = minus
binops bin_mul = 42
binops bin_div = 47

abbrev pub unops : UnopType → ℕ
unops un_neg = minus

-- The decimal digits of a number below `10 ^ fuel`.
unfoldable pub decimal : (fuel : ℕ) → ℕ → List ℕ
decimal zero n = []
decimal (suc fuel) n =
    let front = decimal fuel (n / 10) in
    if ltb n 10 then (48 + n) ∷ [] else front ++ ((48 + n % 10) ∷ [])

-- What `fprintf` writes for `PRId64`; the digits of an `int64_t` are at most 19.
unfoldable pub print_lit : ℕ → List ℕ
print_lit value =
    if ltb value (2 ^ 63) then decimal 20 value else minus ∷ decimal 20 (size_mod - value)

unfoldable pub print_binop : BinopType → (left right : List ℕ) → List ℕ
print_binop type left right =
    (opening ∷ left) ++ (closing ∷ binops type ∷ opening ∷ right) ++ (closing ∷ [])

unfoldable pub print_unop : UnopType → (operand : List ℕ) → List ℕ
print_unop type operand = (opening ∷ unops type ∷ operand) ++ (closing ∷ [])

-- What `print` writes; the table `ast_printers` chooses by the type of the node.
unfoldable pub print : Ast → List ℕ
print null = 60 ∷ 78 ∷ 85 ∷ 76 ∷ 76 ∷ 62 ∷ []
print (as_binop type left right) = print_binop type (print left) (print right)
print (as_unop type operand) = print_unop type (print operand)
print (as_literal value) = print_lit value

unfoldable pub main : (malloc : ℕ → Bool) → Option (List ℕ)
main malloc = do
  (l1, s) ← lit malloc 999 0
  (r1, s) ← lit malloc 728 s
  (ast1, s) ← binop malloc bin_plus l1 r1 s
  (l2, s) ← lit malloc 4 s
  (a2, s) ← lit malloc 2 s
  (b2, s) ← lit malloc 9 s
  (r2, s) ← binop malloc bin_mul a2 b2 s
  (ast2, s) ← binop malloc bin_plus l2 r2 s
  (a3, s) ← lit malloc 3 s
  (b3, s) ← lit malloc 5 s
  (l3, s) ← binop malloc bin_plus a3 b3 s
  (c3, s) ← lit malloc 9 s
  (d3, s) ← lit malloc 7 s
  (r3, s) ← divide malloc c3 d3 s
  (ast3, s) ← binop malloc bin_mul l3 r3 s
  some (print ast1 ++ (10 ∷ print ast2) ++ (10 ∷ print ast3) ++ (10 ∷ []))
