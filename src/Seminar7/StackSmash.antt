-- ===== src/Seminar7/StackSmash.antt =====
-- `seminar7/stack-smash.c`: a buffer of 8 bytes that is filled with all of the standard input.
use low_level_programming.Base.{
  ℕ, zero, suc, ◌+◌, ◌-◌, ◌≤◌, ◌≡◌, refl, ap, ◌∙◌, Option, none, some, List, [], ◌∷◌, ◌++◌, arith,
  ltb, leb, if◌then◌else◌, length, length-append, set, set-append, append_assoc, drop, drop-drop,
}
use Prim.Native.String.{String}

pub record User : Type 0 where
  pub name : String
  pub password : String

abbrev pub users : List User
users =
    record { name = "Cat"; password = "Meowmeow" }
    ∷ record { name = "Skeletor"; password = "Nyarr" }
    ∷ []

abbrev pub user_lines : List User → List String
user_lines [] = []
user_lines (u ∷ us) = u.name ∷ ": " ∷ u.password ∷ "\n" ∷ user_lines us

-- The texts that are written.
abbrev pub print_users : List String
print_users = "Users:\n" ∷ user_lines users

-- `memory` is what stands from `where` on; a write behind its end faults.
unfoldable pub fill : (input : List ℕ) (memory : List ℕ) (read_total : ℕ) → Option (List ℕ)
fill [] memory read_total = some memory
fill (b ∷ input) memory read_total =
    let rest = fill input (set memory read_total b) (read_total + 1) in
    if ltb read_total (length memory) then rest else none

-- What stands behind the buffer when `vulnerable` returns: its return address among others.
unfoldable pub vulnerable : (input buffer behind : List ℕ) → Option (List ℕ)
vulnerable input buffer behind = elim (fill input (buffer ++ behind) 0) [
  | none ↦ none
  | some memory ↦ some (drop 8 memory)
]

fill-append :
    (input xs ys : List ℕ)
    → fill input (xs ++ ys) (length xs) ≡ (
        if leb (length input) (length ys)
        then some (xs ++ (input ++ drop (length input) ys))
        else none)
unfolding fill
fill-append [] xs ys = ground arith
fill-append (b ∷ input) xs [] = ground (arith, length-append xs [])
fill-append (b ∷ input) xs (y ∷ ys) =
    let e : length (xs ++ b ∷ []) ≡ length xs + 1 = length-append xs (b ∷ []) in
    rw (set-append xs y ys b, ← e, fill-append input (xs ++ b ∷ []) ys, append_assoc)
      (ground (arith, length-append xs (y ∷ ys)))

drop-append_general :
    (m : ℕ) (xs ys : List ℕ) → drop m (xs ++ ys) ≡ drop m xs ++ drop (m - length xs) ys
drop-append_general zero [] ys = refl
drop-append_general zero (x ∷ xs) ys =
    let e : 0 ≡ 0 - suc (length xs) = omega arith in ap (λ k. (x ∷ xs) ++ drop k ys) e
drop-append_general (suc m) [] ys = let e : suc m ≡ suc m - 0 = omega arith in ap (λ k. drop k ys) e
drop-append_general (suc m) (x ∷ xs) ys =
    let e : m - length xs ≡ suc m - suc (length xs) = omega arith in
    drop-append_general m xs ys ∙ ap (λ k. drop m xs ++ drop k ys) e

drop-all : (m : ℕ) (xs : List ℕ) → length xs ≤ m → drop m xs ≡ []
drop-all zero [] h = refl
drop-all zero (x ∷ xs) h = absurd (omega arith)
drop-all (suc m) [] h = refl
drop-all (suc m) (x ∷ xs) h = drop-all m xs (omega arith)

drop-overwritten :
    (input buffer behind : List ℕ)
    → length buffer ≡ 8
    → drop 8 (input ++ drop (length input) (buffer ++ behind))
      ≡ drop 8 input ++ drop (length input - 8) behind
drop-overwritten input buffer behind h =
    let n = length input in
    let z = drop n (buffer ++ behind) in
    let m = n + (8 - n) in
    let less : m - length buffer ≡ n - 8 = omega arith in
    let tail : drop (8 - n) z ≡ drop (n - 8) behind =
      drop-drop (8 - n) n (buffer ++ behind)
      ∙ drop-append_general m buffer behind
      ∙ ap (λ l. l ++ drop (m - length buffer) behind) (drop-all m buffer (omega arith))
      ∙ ap (λ k. drop k behind) less in
    drop-append_general 8 input z ∙ ap (λ l. drop 8 input ++ l) tail

-- Every byte of the input is stored: those behind the eighth replace what stands behind the buffer
-- of 8 bytes, up to the end of the memory, where the program faults.
pub vulnerable-overflow :
    (input buffer behind : List ℕ)
    → length buffer ≡ 8
    → vulnerable input buffer behind ≡ (
        if leb (length input) (8 + length behind)
        then some (drop 8 input ++ drop (length input - 8) behind)
        else none)
unfolding vulnerable
vulnerable-overflow input buffer behind h =
    let filled = fill-append input [] (buffer ++ behind) in
    ground (arith, filled, length-append buffer behind, drop-overwritten input buffer behind h)
