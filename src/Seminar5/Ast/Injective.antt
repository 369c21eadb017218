-- ===== src/Seminar5/Ast/Injective.antt =====
-- The printed text of an expression determines it.
use low_level_programming.Base.{
  ℕ, ◌<◌, ◌≡◌, ◌≢◌, ◌⊎◌, inl, inr, refl, sym, ap, ◌∙◌, List, [], ◌∷◌, ◌++◌, arith, All,
  append_assoc, append_nil,
}
use low_level_programming.Base.Words.{size_mod}
use low_level_programming.Seminar5.Ast.{
  BinopType, bin_plus, bin_minus, bin_mul, bin_div, UnopType, un_neg, Ast, null, as_binop, as_unop,
  as_literal, opening, closing, minus, binops, print_binop, print_unop, print_lit, print,
}
use low_level_programming.Seminar5.Ast.Decimal.{IsLit, print_lit-IsLit, print_lit-inj}

-- The literals of a tree are words.
abbrev pub IsTree : Ast → Type 0
IsTree null = Unit
IsTree (as_binop type left right) = IsTree left × IsTree right
IsTree (as_unop type operand) = IsTree operand
IsTree (as_literal v) = v < size_mod

-- What may follow an expression: the end, or a closing parenthesis.
abbrev Follow : List ℕ → Type 0
Follow [] = Unit
Follow (c ∷ cs) = c ≡ closing

print-binop_append :
    (t : BinopType) (a b : Ast) (r : List ℕ)
    → print (as_binop t a b) ++ r
      ≡ opening ∷ (print a ++ (closing ∷ binops t ∷ opening ∷ (print b ++ (closing ∷ r))))
unfolding print print_binop
print-binop_append t a b r = simp (append_assoc)

print-unop_append :
    (t : UnopType) (a : Ast) (r : List ℕ)
    → print (as_unop t a) ++ r ≡ opening ∷ minus ∷ (print a ++ (closing ∷ r))
unfolding print print_unop
print-unop_append un_neg a r = ap (λ l. opening ∷ minus ∷ l) (append_assoc (print a) _ r)

-- Two texts of literals before what may follow one.
split_lit :
    (xs ys r s : List ℕ)
    → All IsLit xs
    → All IsLit ys
    → Follow r
    → Follow s
    → xs ++ r ≡ ys ++ s
    → (xs ≡ ys) × (r ≡ s)
split_lit [] [] r s hx hy hr hs e = (refl, e)
split_lit [] (y ∷ ys) [] s hx hy hr hs e = grind arith
split_lit [] (y ∷ ys) (c ∷ r) s hx hy hr hs e = grind arith
split_lit (x ∷ xs) [] r [] hx hy hr hs e = grind arith
split_lit (x ∷ xs) [] r (c ∷ s) hx hy hr hs e = grind arith
split_lit (x ∷ xs) (y ∷ ys) r s hx hy hr hs e = grind (arith, split_lit xs ys r s)

-- The characters that neither a literal nor what follows one starts with.
abbrev IsMark : ℕ → Type 0
IsMark c = (c ≡ opening) ⊎ (c ≡ 60)

lit-IsMark : (c : ℕ) (xs r ys : List ℕ) → IsMark c → All IsLit xs → Follow r → xs ++ r ≢ c ∷ ys
lit-IsMark c [] [] ys hc h hr e = grind arith
lit-IsMark c [] (d ∷ r) ys hc h hr e = grind arith
lit-IsMark c (x ∷ xs) r ys hc h hr e = grind arith

binops-closing : (t : BinopType) (r rest : List ℕ) → Follow r → r ≢ binops t ∷ rest
binops-closing t [] rest h e = grind arith
binops-closing bin_plus (c ∷ r) rest h e = grind arith
binops-closing bin_minus (c ∷ r) rest h e = grind arith
binops-closing bin_mul (c ∷ r) rest h e = grind arith
binops-closing bin_div (c ∷ r) rest h e = grind arith

binops-inj : (t t' : BinopType) → binops t ≡ binops t' → t ≡ t'
binops-inj t t' e = grind arith

-- An operand behind a sign is no literal before an operator.
operand_ne :
    (x : Ast) (cs r rest : List ℕ) (t : BinopType)
    → All IsLit cs
    → Follow r
    → print x ++ (closing ∷ r) ≢ cs ++ (closing ∷ binops t ∷ rest)
unfolding print
operand_ne null cs r rest t h hr e = lit-IsMark 60 cs _ _ (inr refl) h refl (sym e)
operand_ne (as_binop u a b) cs r rest t h hr e =
    lit-IsMark opening cs _ _ (inl refl) h refl (sym e ∙ print-binop_append u a b _)
operand_ne (as_unop u a) cs r rest t h hr e =
    lit-IsMark opening cs _ _ (inl refl) h refl (sym e ∙ print-unop_append u a _)
operand_ne (as_literal v) cs r rest t h hr e =
    let (k, q) = split_lit (print_lit v) cs _ _ (print_lit-IsLit v) h refl refl e in
    binops-closing t r rest hr (cc q)

left_ne :
    (l x : Ast) (r rest : List ℕ) (t : BinopType)
    → Follow r
    → minus ∷ (print x ++ (closing ∷ r)) ≢ print l ++ (closing ∷ binops t ∷ rest)
unfolding print
left_ne null x r rest t hr e = grind arith
left_ne (as_binop u a b) x r rest t hr e = grind (arith, print-binop_append u a b)
left_ne (as_unop u a) x r rest t hr e = grind (arith, print-unop_append u a)
left_ne (as_literal v) x r rest t hr e = sign (print_lit v) (print_lit-IsLit v) e
  where
    sign :
        (cs : List ℕ)
        → All IsLit cs
        → minus ∷ (print x ++ (closing ∷ r)) ≢ cs ++ (closing ∷ binops t ∷ rest)
    sign [] h e = grind arith
    sign (c ∷ cs) (hc, hcs) e = operand_ne x cs r rest t hcs hr (cc e)

print-Follow :
    (a b : Ast) (r s : List ℕ)
    → IsTree a
    → IsTree b
    → Follow r
    → Follow s
    → print a ++ r ≡ print b ++ s
    → (a ≡ b) × (r ≡ s)
unfolding print
print-Follow null null r s ha hb hr hs e = (refl, cc e)
print-Follow null (as_binop t l x) r s ha hb hr hs e = grind (arith, print-binop_append t l x)
print-Follow null (as_unop t x) r s ha hb hr hs e = grind (arith, print-unop_append t x)
print-Follow null (as_literal v) r s ha hb hr hs e =
    absurd (lit-IsMark 60 (print_lit v) s _ (inr refl) (print_lit-IsLit v) hs (sym e))
print-Follow (as_literal v) null r s ha hb hr hs e =
    absurd (lit-IsMark 60 (print_lit v) r _ (inr refl) (print_lit-IsLit v) hr e)
print-Follow (as_literal v) (as_binop t l x) r s ha hb hr hs e = absurd (
    lit-IsMark opening (print_lit v) r _ (inl refl) (print_lit-IsLit v) hr
      (e ∙ print-binop_append t l x s))
print-Follow (as_literal v) (as_unop t x) r s ha hb hr hs e = absurd (
    lit-IsMark opening (print_lit v) r _ (inl refl) (print_lit-IsLit v) hr
      (e ∙ print-unop_append t x s))
print-Follow (as_literal v) (as_literal w) r s ha hb hr hs e =
    let (k, q) =
      split_lit (print_lit v) (print_lit w) r s (print_lit-IsLit v) (print_lit-IsLit w) hr hs e in
    (ap as_literal (print_lit-inj v w ha hb k), q)
print-Follow (as_unop t x) null r s ha hb hr hs e = grind (arith, print-unop_append t x)
print-Follow (as_unop un_neg x) (as_unop un_neg y) r s ha hb hr hs e =
    let (k, q) =
      print-Follow x y (closing ∷ r) (closing ∷ s) ha hb refl refl
        (cc (e, print-unop_append un_neg x r, print-unop_append un_neg y s)) in
    (ap (as_unop un_neg) k, cc q)
print-Follow (as_unop un_neg x) (as_binop t l y) r s ha hb hr hs e = absurd (
    left_ne l x r (opening ∷ (print y ++ (closing ∷ s))) t hr
      (cc (e, print-unop_append un_neg x r, print-binop_append t l y s)))
print-Follow (as_unop un_neg x) (as_literal v) r s ha hb hr hs e = absurd (
    lit-IsMark opening (print_lit v) s _ (inl refl) (print_lit-IsLit v) hs
      (sym e ∙ print-unop_append un_neg x r))
print-Follow (as_binop t l x) null r s ha hb hr hs e = grind (arith, print-binop_append t l x)
print-Follow (as_binop t l y) (as_unop un_neg x) r s ha hb hr hs e = absurd (
    left_ne l x s (opening ∷ (print y ++ (closing ∷ r))) t hs
      (cc (e, print-unop_append un_neg x s, print-binop_append t l y r)))
print-Follow (as_binop t l x) (as_binop t' l' x') r s (hl, hx) (hl', hx') hr hs e =
    let (k, q) =
      print-Follow l l' (closing ∷ binops t ∷ opening ∷ (print x ++ (closing ∷ r)))
        (closing ∷ binops t' ∷ opening ∷ (print x' ++ (closing ∷ s))) hl hl' refl refl
        (cc (e, print-binop_append t l x r, print-binop_append t' l' x' s)) in
    let (k', q') = print-Follow x x' (closing ∷ r) (closing ∷ s) hx hx' refl refl (cc q) in
    (cc (k, k', binops-inj t t' (cc q)), cc q')
print-Follow (as_binop t l x) (as_literal v) r s ha hb hr hs e = absurd (
    lit-IsMark opening (print_lit v) s _ (inl refl) (print_lit-IsLit v) hs
      (sym e ∙ print-binop_append t l x r))

-- Expressions that are printed alike are equal: from the parentheses that `print` writes, signs of
-- literals, negations and subtractions are told apart. Literals are words of 64 bits.
pub print-inj : (a b : Ast) → IsTree a → IsTree b → print a ≡ print b → a ≡ b
print-inj a b ha hb e =
    let (k, q) =
      print-Follow a b [] [] ha hb tt tt (append_nil (print a) ∙ e ∙ sym (append_nil (print b))) in
    k
