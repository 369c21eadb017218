-- ===== src/Seminar8/Tests.antt =====
-- Runs of the concurrent programs at concrete inputs.
use low_level_programming.Base.{
  length, ◌≡◌, arith, some, refl, replicate, ◌++◌, List, [], ◌∷◌, ◌≢◌, arith,
}
use low_level_programming.Seminar8.Reordering.{
  finished, detected, Actor, main_thread, thread0, thread1, buffer0, run, init, step, main_step,
  thread0_impl, thread1_impl, drain0,
}
use low_level_programming.Seminar8.Reordering.Safety.{run-detected}
use low_level_programming.Seminar8.Reordering.Progress.{CanStep, run-CanStep}
use low_level_programming.Seminar8.Mutex
use low_level_programming.Seminar8.Mutex.{Who, t1, t2, my_thread, bad_print}
use low_level_programming.Seminar8.Mutex.Words.{Printed, run-Printed}
use low_level_programming.Seminar8.Mutex.Progress.{Completed, run-Completed}
use low_level_programming.Seminar8.Pipes
use low_level_programming.Seminar8.Pipes.Lines.{main-rows}
use low_level_programming.Seminar8.SharedArray
use low_level_programming.Seminar8.SharedArray.{Process, in_child, in_parent}
use low_level_programming.Seminar8.SharedArray.Turns.{run-arrays}
use low_level_programming.Seminar8.SharedArray.Invariant.{arrays}
use low_level_programming.Seminar8.Fork
use low_level_programming.Seminar8.Fork.Race.{Whole, run-Whole}

-- The main thread starts both threads; both write before either write has reached the memory.
abbrev schedule : List Actor
schedule =
    main_thread ∷ main_thread ∷ main_thread ∷ main_thread ∷ thread0 ∷ thread1 ∷ thread0 ∷ thread1
    ∷ buffer0 ∷ thread0 ∷ thread0 ∷ thread1 ∷ []

run-detected_example : (run schedule init).pc ≢ detected
run-detected_example = run-detected schedule

run-finished : (run schedule init).pc ≢ finished
unfolding run step main_step thread0_impl thread1_impl drain0
run-finished h = ground arith

run-CanStep_example : CanStep (run schedule init)
run-CanStep_example = run-CanStep schedule run-finished

-- The second thread prints first, then the first one.
abbrev in_turn : List Who
in_turn = replicate 100 t2 ++ replicate 90 t1

run-Printed_example : Printed (Mutex.run in_turn Mutex.main).shared.stdout
unfolding Mutex.run Mutex.step my_thread bad_print
run-Printed_example = run-Printed in_turn refl refl

run-Completed_example : Completed (Mutex.run (t1 ∷ t2 ∷ t1 ∷ []) Mutex.main)
run-Completed_example = run-Completed (t1 ∷ t2 ∷ t1 ∷ [])

main-rows_example :
    Pipes.main (3 ∷ 9 ∷ 3 ∷ 4294967295 ∷ [])
    ≡ some (
        (0 ∷ 1 ∷ 2 ∷ 6 ∷ 4 ∷ 5 ∷ 6 ∷ 7 ∷ 8 ∷ 9 ∷ [])
        ∷ (0 ∷ 1 ∷ 2 ∷ 6 ∷ 4 ∷ 5 ∷ 6 ∷ 7 ∷ 8 ∷ 18 ∷ [])
        ∷ (0 ∷ 1 ∷ 2 ∷ 12 ∷ 4 ∷ 5 ∷ 6 ∷ 7 ∷ 8 ∷ 18 ∷ [])
        ∷ [])
main-rows_example =
    main-rows (3 ∷ 9 ∷ 3 ∷ []) 4294967295 [] (omega arith, (omega arith, (omega arith, tt)))
      (omega arith)

-- The child changes item 2, the parent prints, and the child is about to change item 0.
abbrev turns : List Process
turns = replicate 4 in_child ++ replicate 14 in_parent ++ replicate 3 in_child

abbrev shared : SharedArray.State
shared = SharedArray.run turns (SharedArray.main (2 ∷ 50 ∷ 0 ∷ 60 ∷ []) 0 0)

turns-lines : shared.lines ≡ (1 ∷ 2 ∷ 50 ∷ 4 ∷ 5 ∷ 6 ∷ 7 ∷ 8 ∷ 9 ∷ 10 ∷ []) ∷ []
unfolding SharedArray.run SharedArray.step SharedArray.child_step SharedArray.parent_step
    SharedArray.print_item SharedArray.scan_idx SharedArray.scan_val SharedArray.change_arr
turns-lines = refl

run-arrays_example :
    shared.lines
    ≡ arrays (length shared.lines) (SharedArray.main (2 ∷ 50 ∷ 0 ∷ 60 ∷ []) 0 0).session
run-arrays_example = run-arrays (2 ∷ 50 ∷ 0 ∷ 60 ∷ []) 0 0 turns

-- The child writes while the parent is about to read that item.
abbrev racing : List Fork.Process
racing =
    replicate 3 Fork.Process.in_parent
    ++ replicate 3 Fork.Process.in_child
    ++ replicate 10 Fork.Process.in_parent

abbrev raced : Fork.State
raced = Fork.run racing (Fork.main (4 ∷ 50 ∷ []) 0 0)

raced-lines : raced.lines ≡ (1 ∷ 2 ∷ 3 ∷ 4 ∷ 50 ∷ 6 ∷ 7 ∷ 8 ∷ 9 ∷ 10 ∷ []) ∷ []
unfolding Fork.run Fork.step Fork.child_step Fork.parent_step Fork.print_item SharedArray.scan_idx
    SharedArray.scan_val SharedArray.change_arr
raced-lines = refl

run-Whole_example : Whole (Fork.main (4 ∷ 50 ∷ []) 0 0).session raced.lines
run-Whole_example = run-Whole (4 ∷ 50 ∷ []) 0 0 racing (omega arith)
