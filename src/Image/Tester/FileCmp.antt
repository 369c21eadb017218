-- ===== src/Image/Tester/FileCmp.antt =====
-- `file_cmp` against the comparison of the next bytes as a whole.
use mathlib.Core.Path.{subst}
use low_level_programming.Base.{
  ℕ, zero, suc, ◌+◌, ◌-◌, ◌≤◌, ◌<◌, ◌≡◌, ◌≢◌, ◌⊎◌, refl, sym, ap, ap₂, ◌∙◌, true, false, inl, inr,
  Option, some, List, [], ◌∷◌, ◌++◌, arith, min, ◌==◌, Bool-cases, length, take, drop, drop-drop,
}
use low_level_programming.Image.Tester.{
  cmp_eq, cmp_diff, Interm, int_eq, int_diff, int_undef, cmp_buffer_size, same_bytes, cmp_chunk,
  Compared, compared, cmp_loop, file_cmp,
}

same_bytes-eq : (xs ys : List ℕ) → same_bytes xs ys ≡ true → xs ≡ ys
same_bytes-eq [] [] h = refl
same_bytes-eq [] (y ∷ ys) h = absurd (cc h)
same_bytes-eq (x ∷ xs) [] h = absurd (cc h)
same_bytes-eq (x ∷ xs) (y ∷ ys) h = elim (Bool-cases (x == y)) [
  | inl e ↦ let here : x ≡ y = ground arith in ap₂ ◌∷◌ here (same_bytes-eq xs ys (rw e at h))
  | inr n ↦ absurd (cc (rw n at h))
]

same_bytes_self : (xs : List ℕ) → same_bytes xs xs ≡ true
same_bytes_self [] = refl
same_bytes_self (x ∷ xs) = let e : (x == x) ≡ true = ground arith in rw e (same_bytes_self xs)

-- What one chunk shows: the bytes read differ; or they are the same, and there were as many as the
-- buffer holds, or fewer.
data Chunk (c1 c2 : List ℕ) (size : ℕ) (r : Interm) : Type 0 where
  differs : c1 ≢ c2 → r ≡ int_diff → Chunk c1 c2 size r
  full : c1 ≡ c2 → length c1 ≡ size → r ≡ int_undef → Chunk c1 c2 size r
  partial : c1 ≡ c2 → length c1 ≢ size → r ≡ int_eq → Chunk c1 c2 size r

alike_false : (xs ys : List ℕ) → same_bytes xs ys ≡ false → xs ≢ ys
alike_false xs ys h e = let s : same_bytes xs ys ≡ true = rw (← e) (same_bytes_self xs) in cc (h, s)

cmp_chunk-Chunk : (c1 c2 : List ℕ) (size : ℕ) → Chunk c1 c2 size (cmp_chunk c1 c2 size)
unfolding cmp_chunk
cmp_chunk-Chunk c1 c2 size = elim (Bool-cases (length c1 == length c2)) [
  | inr other ↦
      let apart : length c1 ≢ length c2 = ground arith in
      differs (λ e. apart (ap length e)) (rw other refl)
  | inl same ↦ elim (Bool-cases (same_bytes c1 c2)) [
    | inr unlike ↦ differs (λ e. alike_false c1 c2 unlike e) (rw (same, unlike) refl)
    | inl alike ↦ elim (Bool-cases (length c1 == size)) [
      | inl filled ↦ full (same_bytes-eq c1 c2 alike) (ground arith) (rw (same, alike, filled) refl)
      | inr less ↦ partial (same_bytes-eq c1 c2 alike) (ground arith) (rw (same, alike, less) refl)
    ]
  ]
]

-- The outcome of comparing the next `sz` bytes: they are the same, and both files stand behind
-- them; or they differ.
pub data Outcome (sz : ℕ) (f1 f2 : List ℕ) (r : Option Compared) : Type 0 where
  alike :
      take sz f1 ≡ take sz f2
      → r ≡ some (compared cmp_eq (drop sz f1) (drop sz f2))
      → Outcome sz f1 f2 r
  unlike :
      (g1 g2 : List ℕ)
      → take sz f1 ≢ take sz f2
      → r ≡ some (compared cmp_diff g1 g2)
      → Outcome sz f1 f2 r

take-take : (m n : ℕ) (xs : List ℕ) → m ≤ n → take m (take n xs) ≡ take m xs
take-take zero n xs h = refl
take-take (suc m) zero xs h = absurd (omega arith)
take-take (suc m) (suc n) [] h = refl
take-take (suc m) (suc n) (x ∷ xs) h = ap (λ l. x ∷ l) (take-take m n xs (omega arith))

take-nil : (n : ℕ) → take {A = ℕ} n [] ≡ []
take-nil zero = refl
take-nil (suc n) = refl

take-split : (m n : ℕ) (xs : List ℕ) → m ≤ n → take n xs ≡ take m xs ++ take (n - m) (drop m xs)
take-split zero n xs h = let e : n - 0 ≡ n = omega arith in rw e refl
take-split (suc m) zero xs h = absurd (omega arith)
take-split (suc m) (suc n) [] h = sym (take-nil (suc n - suc m))
take-split (suc m) (suc n) (x ∷ xs) h =
    let e : suc n - suc m ≡ n - m = omega arith in
    rw e (ap (λ l. x ∷ l) (take-split m n xs (omega arith)))

append_cancel : (xs ys zs : List ℕ) → xs ++ ys ≡ xs ++ zs → ys ≡ zs
append_cancel [] ys zs e = e
append_cancel (x ∷ xs) ys zs e = append_cancel xs ys zs (cc e)

-- A file that ends within the next `m` bytes.
short_file :
    (m n : ℕ) (xs : List ℕ)
    → length (take m xs) < m
    → m ≤ n
    → (take n xs ≡ take m xs) × (drop n xs ≡ drop m xs)
short_file zero n xs h k = absurd (omega arith)
short_file (suc m) zero xs h k = absurd (omega arith)
short_file (suc m) (suc n) [] h k = (refl, refl)
short_file (suc m) (suc n) (x ∷ xs) h k =
    let (t, d) = short_file m n xs (omega arith) (omega arith) in (ap (λ l. x ∷ l) t, d)

length-take-le : (n : ℕ) (xs : List ℕ) → length (take n xs) ≤ n
length-take-le zero xs = omega arith
length-take-le (suc n) [] = omega arith
length-take-le (suc n) (x ∷ xs) = omega (arith, length-take-le n xs)

-- The last chunk stands for all that is left to compare.
last_chunk :
    (c sz : ℕ) (f : List ℕ)
    → c ≤ sz
    → (c ≡ sz) ⊎ (length (take c f) < c)
    → (take sz f ≡ take c f) × (drop sz f ≡ drop c f)
last_chunk c sz f le (inl e) = rw e (refl, refl)
last_chunk c sz f le (inr short) = short_file c sz f short le

cmp_loop-Outcome :
    (fuel sz : ℕ) (f1 f2 : List ℕ) → sz < fuel → Outcome sz f1 f2 (cmp_loop fuel f1 f2 sz)
unfolding cmp_loop
cmp_loop-Outcome zero sz f1 f2 h = absurd (omega arith)
cmp_loop-Outcome (suc fuel) zero f1 f2 h = alike refl refl
cmp_loop-Outcome (suc fuel) (suc n) f1 f2 h =
    let sz : ℕ = suc n in
    let c : ℕ = min cmp_buffer_size sz in
    let le : c ≤ sz = ground arith in
    let more : (suc n == 0) ≡ false = ground arith in
    elim (cmp_chunk-Chunk (take c f1) (take c f2) cmp_buffer_size) [
      | differs apart r ↦
          unlike (drop c f1) (drop c f2)
            (λ e. apart (sym (take-take c sz f1 le) ∙ ap (take c) e ∙ take-take c sz f2 le))
            (rw (more, r) refl)
      | partial same less r ↦
          let most = length-take-le c f1 in
          let end : (c ≡ sz) ⊎ (length (take c f1) < c) = ground arith in
          let end2 : (c ≡ sz) ⊎ (length (take c f2) < c) =
            subst (λ l. (c ≡ sz) ⊎ (length l < c)) same end in
          let one = last_chunk c sz f1 le end in
          let two = last_chunk c sz f2 le end2 in
          alike (one.0 ∙ same ∙ sym two.0) (rw (more, r, one.1, two.1) refl)
      | full same filled r ↦
          let most = length-take-le c f1 in
          let whole : c ≡ cmp_buffer_size = ground arith in
          let left : sz - c ≡ sz - cmp_buffer_size = omega (arith, whole) in
          let split =
            λ (f : List ℕ). take-split c sz f le ∙ ap (λ m. take c f ++ take m (drop c f)) left in
          let back : c + (sz - cmp_buffer_size) ≡ sz = omega (arith, whole, le) in
          let behind =
            λ (f : List ℕ). drop-drop (sz - cmp_buffer_size) c f ∙ ap (λ k. drop k f) back in
          elim (cmp_loop-Outcome fuel (sz - cmp_buffer_size) (drop c f1) (drop c f2)
            (omega (arith, whole, le))) [
              | alike t e ↦ alike (split f1 ∙ ap₂ ◌++◌ same t ∙ sym (split f2)) (
                  rw (more, r)
                    (e ∙ ap₂ (λ a b. some (compared cmp_eq a b)) (behind f1) (behind f2)))
              | unlike g1 g2 t e ↦
                  unlike g1 g2
                    (λ all. t (
                      append_cancel (take c f1) _ _ (
                        sym (split f1)
                        ∙ all
                        ∙ split f2
                        ∙ ap (λ l. l ++ take (sz - cmp_buffer_size) (drop c f2)) (sym same))))
                    (rw (more, r) e)
            ]
    ]

-- `file_cmp` ends, and reports that the next `sz` bytes of the two files are the same exactly when
-- they are; then both files stand behind them. A file that ends earlier counts as shorter.
pub file_cmp-Outcome : (sz : ℕ) (f1 f2 : List ℕ) → Outcome sz f1 f2 (file_cmp f1 f2 sz)
unfolding file_cmp
file_cmp-Outcome sz f1 f2 = cmp_loop-Outcome (sz + 1) sz f1 f2 (omega arith)
