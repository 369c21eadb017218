-- ===== src/Seminar5/Ast/Decimal.antt =====
-- What the printer of literals writes: digits after a sign, from which the value can be read.
use low_level_programming.Base.{
  ℕ, zero, suc, ◌+◌, ◌-◌, ◌*◌, ◌/◌, ◌%◌, ◌^◌, ◌<◌, ◌≤◌, ◌≡◌, ◌⊎◌, inr, refl, sym, ap, ◌∙◌, ◌==◌,
  List, [], ◌∷◌, ◌++◌, arith, if◌then◌else◌, All,
}
use low_level_programming.Base.Words.{size_mod}
use low_level_programming.Seminar5.Ast.{decimal, print_lit, minus}

-- The number that digits stand for, behind those that `n` stands for.
abbrev value : ℕ → List ℕ → ℕ
value n [] = n
value n (c ∷ cs) = value (10 * n + (c - 48)) cs

value-append : (n : ℕ) (xs : List ℕ) (c : ℕ) → value n (xs ++ (c ∷ [])) ≡ 10 * value n xs + (c - 48)
value-append n [] c = refl
value-append n (x ∷ xs) c = value-append (10 * n + (x - 48)) xs c

value-decimal : (fuel n : ℕ) → n < 10 ^ suc fuel → value 0 (decimal (suc fuel) n) ≡ n
unfolding decimal
value-decimal zero n h = ground arith
value-decimal (suc fuel) n h =
    ground (
      arith,
      value-decimal fuel (n / 10),
      value-append 0 (decimal (suc fuel) (n / 10)) (48 + n % 10),
    )

abbrev IsDigit : ℕ → Type 0
IsDigit c = (48 ≤ c) × (c ≤ 57)

All-append_one : (P : ℕ → Type 0) (xs : List ℕ) (c : ℕ) → All P xs → P c → All P (xs ++ (c ∷ []))
All-append_one P [] c h p = (p, tt)
All-append_one P (x ∷ xs) c (hx, hxs) p = (hx, All-append_one P xs c hxs p)

decimal-digits : (fuel n : ℕ) → All IsDigit (decimal fuel n)
unfolding decimal
decimal-digits zero n = tt
decimal-digits (suc fuel) n = ground (
  arith,
  All-append_one IsDigit (decimal fuel (n / 10)) (48 + n % 10) (decimal-digits fuel (n / 10))
      (omega arith, omega arith),
)

-- The characters of a literal are digits and a sign.
abbrev pub IsLit : ℕ → Type 0
IsLit c = (c ≡ minus) ⊎ IsDigit c

All-IsLit : (xs : List ℕ) → All IsDigit xs → All IsLit xs
All-IsLit [] h = tt
All-IsLit (x ∷ xs) (hx, hxs) = (inr hx, All-IsLit xs hxs)

pub print_lit-IsLit : (v : ℕ) → All IsLit (print_lit v)
unfolding print_lit
print_lit-IsLit v = ground (
  arith,
  All-IsLit (decimal 20 v) (decimal-digits 20 v),
  All-IsLit (decimal 20 (size_mod - v)) (decimal-digits 20 (size_mod - v)),
)

-- The value that a literal's text stands for.
abbrev read : List ℕ → ℕ
read [] = 0
read (c ∷ cs) = if c == minus then size_mod - value 0 cs else value 0 (c ∷ cs)

read-digits : (xs : List ℕ) → All IsDigit xs → read xs ≡ value 0 xs
read-digits [] h = refl
read-digits (c ∷ cs) (hc, hcs) = ground arith

read-print_lit : (v : ℕ) → v < size_mod → read (print_lit v) ≡ v
unfolding print_lit
read-print_lit v h = ground (
  arith,
  read-digits (decimal 20 v) (decimal-digits 20 v),
  value-decimal 19 v,
  value-decimal 19 (size_mod - v),
)

-- Literals that are printed alike are equal.
pub print_lit-inj : (v w : ℕ) → v < size_mod → w < size_mod → print_lit v ≡ print_lit w → v ≡ w
print_lit-inj v w hv hw e = sym (read-print_lit v hv) ∙ ap read e ∙ read-print_lit w hw
