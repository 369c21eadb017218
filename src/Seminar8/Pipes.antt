-- ===== src/Seminar8/Pipes.antt =====
-- `seminar8/task2/pipes.c`: a child doubles items of an array as it is told, and sends the array to
-- its parent after each change. An `int` is a word of 32 bits; a message fits into one write.
pub mod Lines
use low_level_programming.Base.{
  ◌>>=◌, ℕ, zero, suc, ◌+◌, ◌*◌, ◌%◌, ◌^◌, Bool, true, false, Option, none, some, List, [], ◌∷◌,
  ltb, if◌then◌else◌, get_elem?, set, replicate,
}

pub record ExchangeData : Type 0 where
  pub finished : Bool
  pub arr : List ℕ

abbrev pub int_mod : ℕ
int_mod = 2 ^ 32

abbrev pub break_data : ExchangeData
break_data = record { finished = true; arr = replicate 10 0 }

-- The doubling of an item and the rest of the loop; an index out of range faults.
unfoldable pub change :
    ℕ → List ℕ → (List ℕ → Option (List ExchangeData)) → Option (List ExchangeData)
change input arr loop = do
  value ← get_elem? arr input
  let doubled = set arr input (value * 2 % int_mod)
  messages ← loop doubled
  some (record { finished = false; arr = doubled } ∷ messages)

-- The messages that the child writes to the pipe: `inputs` are the numbers that `scanf` reads.
-- Where there is none, `input` is read uninitialised, which faults.
unfoldable pub child : (inputs : List ℕ) → List ℕ → Option (List ExchangeData)
child [] arr = none
child (input ∷ inputs) arr =
    let rest = change input arr (λ doubled. child inputs doubled) in
    if ltb input (2 ^ 31) then rest else some (break_data ∷ [])

-- The lines that the parent prints of the messages in the pipe.
unfoldable pub parent : List ExchangeData → List (List ℕ)
parent [] = []
parent (message ∷ messages) = if message.finished then [] else message.arr ∷ parent messages

unfoldable pub main : (inputs : List ℕ) → Option (List (List ℕ))
main inputs = do
  messages ← child inputs (0 ∷ 1 ∷ 2 ∷ 3 ∷ 4 ∷ 5 ∷ 6 ∷ 7 ∷ 8 ∷ 9 ∷ [])
  some (parent messages)
