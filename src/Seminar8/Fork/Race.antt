-- ===== src/Seminar8/Fork/Race.antt =====
-- What the parent of `fork.c` prints, whenever the child writes.
use low_level_programming.Base.{ℕ, ◌≤◌, ◌≡◌, refl, List, [], ◌∷◌, arith, length}
use low_level_programming.Seminar8.SharedArray.{Session}
use low_level_programming.Seminar8.Fork.{
  ParentPc, sleeps, prints, ends_line, returned, faulted, State, Process, step, run, main,
}
use low_level_programming.Seminar8.Fork.Invariant.{Either, Shows, Inv}
use low_level_programming.Seminar8.Fork.Steps.{step-Inv}
use low_level_programming.Seminar8.Fork.Progress.{rank, turns, run-rank}

run-Inv :
    (t0 : Session)
    → length t0.arr ≡ 10
    → (schedule : List Process) (s : State) → Inv t0 s
    → Inv t0 (run schedule s)
unfolding run
run-Inv t0 ten [] s v = v
run-Inv t0 ten (w ∷ schedule) s v = run-Inv t0 ten schedule (step w s) (step-Inv t0 ten w s v)

-- The one line that has been printed is one of the two arrays.
pub record Whole (t0 : Session) (lines : List (List ℕ)) : Type 0 where
  pub line : List ℕ
  pub is : lines ≡ line ∷ []
  pub either : Either t0 line

Whole-Shows :
    (t0 : Session) (arr : List ℕ) (q : ParentPc) (line : List ℕ) (lines : List (List ℕ))
    → 13 ≤ rank q
    → Shows t0 arr q line lines
    → Whole t0 lines
Whole-Shows t0 arr sleeps line lines h v = absurd (omega arith)
Whole-Shows t0 arr (prints i) line lines h v = absurd (ground arith)
Whole-Shows t0 arr ends_line line lines h v = absurd (omega arith)
Whole-Shows t0 arr returned line lines h v = record { line = v.0; is = v.2; either = v.1 }
Whole-Shows t0 arr faulted line lines h v = absurd v

-- Once the parent has had 13 steps, it has printed one line, whatever the schedule was: the array
-- as it was, or the array with the child's write, and never a part of each. An index out of range
-- changes nothing.
pub run-Whole :
    (input : List ℕ) (idx val : ℕ) (schedule : List Process)
    → 13 ≤ turns schedule
    → Whole (main input idx val).session (run schedule (main input idx val)).lines
run-Whole input idx val schedule enough =
    let s = main input idx val in
    let v = run-Inv s.session refl schedule s (record { at = refl; shows = (refl, refl) }) in
    Whole-Shows s.session _ (run schedule s).pc_parent _ (run schedule s).lines
      (omega (arith, run-rank schedule s, enough)) v.shows
