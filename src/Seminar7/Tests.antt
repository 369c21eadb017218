-- ===== src/Seminar7/Tests.antt =====
-- Runs of the programs of `seminar7` at concrete inputs.
use low_level_programming.Base.{false, none, ◌≡◌, refl, [], ◌∷◌, some}
use low_level_programming.Seminar7.TailRec.{c, build, main}
use low_level_programming.Seminar7.StackSmash.{vulnerable, vulnerable-overflow}

-- Ten bytes of input change two behind the buffer.
vulnerable-overflow_example :
    vulnerable
      (1 ∷ 2 ∷ 3 ∷ 4 ∷ 5 ∷ 6 ∷ 7 ∷ 8 ∷ 9 ∷ 10 ∷ [])
      (0 ∷ 0 ∷ 0 ∷ 0 ∷ 0 ∷ 0 ∷ 0 ∷ 0 ∷ [])
      (71 ∷ 72 ∷ 73 ∷ [])
    ≡ some (9 ∷ 10 ∷ 73 ∷ [])
vulnerable-overflow_example =
    vulnerable-overflow (1 ∷ 2 ∷ 3 ∷ 4 ∷ 5 ∷ 6 ∷ 7 ∷ 8 ∷ 9 ∷ 10 ∷ [])
      (0 ∷ 0 ∷ 0 ∷ 0 ∷ 0 ∷ 0 ∷ 0 ∷ 0 ∷ []) (71 ∷ 72 ∷ 73 ∷ []) refl

-- The first node is refused.
main-refused : main (λ calls. false) 10 ≡ none
unfolding main c build
main-refused = refl
