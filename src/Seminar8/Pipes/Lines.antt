-- ===== src/Seminar8/Pipes/Lines.antt =====
-- What the two processes of `pipes.c` print.
use low_level_programming.Base.{
  ℕ, zero, suc, ◌+◌, ◌*◌, ◌%◌, ◌^◌, ◌≤◌, ◌<◌, ◌≡◌, ◌≢◌, refl, sym, ap, ap₂, ◌∙◌, true, false, some,
  List, [], ◌∷◌, ◌++◌, arith, ltb, ◌==◌, if◌then◌else◌, get_elem?, set, All,
}
use native.Mathlib.Nat.{pow-suc, mul_assoc}
use low_level_programming.Seminar8.Pipes.{
  ExchangeData, int_mod, break_data, change, child, parent, main,
}

-- The cells of an array that holds `f j` at each index `j` from `k` on.
abbrev pub cells : (ℕ → ℕ) → (k n : ℕ) → List ℕ
cells f k zero = []
cells f k (suc n) = f k ∷ cells f (suc k) n

get_elem?-cells : (f : ℕ → ℕ) (k n i : ℕ) → i < n → get_elem? (cells f k n) i ≡ some (f (k + i))
get_elem?-cells f k zero i h = absurd (omega arith)
get_elem?-cells f k (suc n) zero h = let e : k ≡ k + 0 = omega arith in ap (λ j. some (f j)) e
get_elem?-cells f k (suc n) (suc i) h =
    let e : suc k + i ≡ k + suc i = omega arith in
    get_elem?-cells f (suc k) n i (omega arith) ∙ ap (λ j. some (f j)) e

cells-eq : (f g : ℕ → ℕ) (k n : ℕ) → ((j : ℕ) → k ≤ j → f j ≡ g j) → cells f k n ≡ cells g k n
cells-eq f g k zero h = refl
cells-eq f g k (suc n) h =
    ap₂ ◌∷◌ (h k (omega arith)) (cells-eq f g (suc k) n (λ j le. h j (omega arith)))

set-cells :
    (f g : ℕ → ℕ) (k n i : ℕ)
    → ((j : ℕ) → j ≢ k + i → f j ≡ g j)
    → i < n
    → set (cells f k n) i (g (k + i)) ≡ cells g k n
set-cells f g k zero i h l = absurd (omega arith)
set-cells f g k (suc n) zero h l =
    let e : k + 0 ≡ k = omega arith in
    ap₂ ◌∷◌ (ap g e) (cells-eq f g (suc k) n (λ j le. h j (omega arith)))
set-cells f g k (suc n) (suc i) h l =
    let e : suc k + i ≡ k + suc i = omega arith in
    ap₂ ◌∷◌ (h k (omega arith)) (
      ap (λ j. set (cells f (suc k) n) i (g j)) (sym e)
      ∙ set-cells f g (suc k) n i (λ j ne. h j (λ q. ne (omega arith))) (omega arith))

-- How often `j` stands in a list.
abbrev pub count : ℕ → List ℕ → ℕ
count j [] = 0
count j (x ∷ xs) = if j == x then suc (count j xs) else count j xs

-- The array after the numbers `seen` have been read: its item `j` is `j`, doubled as often as `j`
-- was read.
abbrev pub item : List ℕ → ℕ → ℕ
item seen j = j * 2 ^ count j seen % int_mod

abbrev pub row : List ℕ → List ℕ
row seen = cells (item seen) 0 10

-- A row after each number.
abbrev pub rows : List ℕ → List ℕ → List (List ℕ)
rows seen [] = []
rows seen (x ∷ xs) = row (x ∷ seen) ∷ rows (x ∷ seen) xs

item-double : (seen : List ℕ) (x : ℕ) → item seen x * 2 % int_mod ≡ item (x ∷ seen) x
item-double seen x =
    let a = x * 2 ^ count x seen in
    let e : count x (x ∷ seen) ≡ suc (count x seen) = ground arith in
    let p : x * 2 ^ suc (count x seen) ≡ a * 2 =
      ap (λ y. x * y) (pow-suc 2 (count x seen)) ∙ sym (mul_assoc x (2 ^ count x seen) 2) in
    let d : a % int_mod * 2 % int_mod ≡ (a * 2) % int_mod = omega arith in
    d ∙ ap (λ b. b % int_mod) (sym p) ∙ ap (λ k. x * 2 ^ k % int_mod) (sym e)

item-other : (seen : List ℕ) (x j : ℕ) → j ≢ x → item seen j ≡ item (x ∷ seen) j
item-other seen x j h = ground arith

set-row :
    (seen : List ℕ) (x : ℕ) → x < 10 → set (row seen) x (item seen x * 2 % int_mod) ≡ row (x ∷ seen)
set-row seen x h =
    let e : 0 + x ≡ x = omega arith in
    ap (set (row seen) x) (item-double seen x ∙ ap (item (x ∷ seen)) (sym e))
    ∙ set-cells (item seen) (item (x ∷ seen)) 0 10 x
        (λ j ne. item-other seen x j (λ q. ne (omega arith))) h

-- The messages of rows, before the one that ends the exchange.
abbrev messages : List (List ℕ) → List ExchangeData
messages [] = break_data ∷ []
messages (r ∷ rs) = record { finished = false; arr = r } ∷ messages rs

parent-messages : (rs : List (List ℕ)) → parent (messages rs) ≡ rs
unfolding parent
parent-messages [] = refl
parent-messages (r ∷ rs) = ap (λ l. r ∷ l) (parent-messages rs)

child-messages :
    (seen xs : List ℕ) (last : ℕ) (rest : List ℕ)
    → All (λ x. x < 10) xs
    → 2 ^ 31 ≤ last
    → child (xs ++ last ∷ rest) (row seen) ≡ some (messages (rows seen xs))
unfolding child change
child-messages seen [] last rest h k = ground arith
child-messages seen (x ∷ xs) last rest (hx, hxs) k =
    let small : ltb x (2 ^ 31) ≡ true = ground arith in
    let found : get_elem? (row seen) x ≡ some (item seen (0 + x)) =
      get_elem?-cells (item seen) 0 10 x hx in
    let e : 0 + x ≡ x = omega arith in
    rw (small, found, e, set-row seen x hx, child-messages (x ∷ seen) xs last rest hxs k) refl

-- Where the numbers are indexes until a negative one, the parent prints a line for each: the array
-- with every item doubled as often as its index was read. An `int` wraps at 2 ^ 32.
pub main-rows :
    (xs : List ℕ) (last : ℕ) (rest : List ℕ)
    → All (λ x. x < 10) xs
    → 2 ^ 31 ≤ last
    → main (xs ++ last ∷ rest) ≡ some (rows [] xs)
unfolding main
main-rows xs last rest h k =
    rw (child-messages [] xs last rest h k, parent-messages (rows [] xs)) refl
