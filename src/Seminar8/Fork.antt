-- ===== src/Seminar8/Fork.antt =====
-- `seminar8/task1/fork.c`: a child writes an item of an array that it shares with its parent, which
-- prints the array without waiting for it. The session of the child and its `scanf` calls are those
-- of `semaphore.c`.
pub mod Invariant
pub mod Steps
pub mod Progress
pub mod Race
use low_level_programming.Base.{
  ℕ, ◌+◌, Option, none, some, List, [], ◌∷◌, ◌++◌, ltb, if◌then◌else◌, length, get_elem?, true,
  false,
}
use low_level_programming.Seminar8.SharedArray.{
  Session, scan_idx, scan_val, change_arr, mapped_items,
}

-- Where the child stands; a write behind the page ends in `crashed`.
pub data ChildPc : Type 0 where
  scans_idx scans_val writes exited crashed : ChildPc

pub data ParentPc : Type 0 where
  sleeps : ParentPc
  prints : (i : ℕ) → ParentPc
  ends_line returned faulted : ParentPc

pub record State : Type 0 where
  pub session : Session
  pub pc_child : ChildPc
  pub pc_parent : ParentPc
  pub line : List ℕ
  pub lines : List (List ℕ)

unfoldable pub child_step : ChildPc → State → State
child_step scans_idx s = record s {
  session = scan_idx s.session.input s.session;
  pc_child = scans_val;
}
child_step scans_val s = record s {
  session = scan_val s.session.input s.session;
  pc_child = writes;
}
child_step writes s =
    if ltb s.session.idx mapped_items
    then record s { session = change_arr s.session; pc_child = exited }
    else record s { pc_child = crashed }
child_step exited s = s
child_step crashed s = s

-- A round of the loop that prints the array.
unfoldable pub print_item : ℕ → Option ℕ → State → State
print_item i none s = record s { pc_parent = faulted }
print_item i (some v) s = record s { line = s.line ++ v ∷ []; pc_parent = prints (i + 1) }

-- The step out of `sleeps` is the end of `sleep(5)`, which waits for no event.
unfoldable pub parent_step : ParentPc → State → State
parent_step sleeps s = record s { pc_parent = prints 0 }
parent_step (prints i) s =
    if ltb i 10
    then print_item i (get_elem? s.session.arr i) s
    else record s { pc_parent = ends_line }
parent_step ends_line s = record s {
  line = [];
  lines = s.lines ++ s.line ∷ [];
  pc_parent = returned;
}
parent_step returned s = s
parent_step faulted s = s

-- The scheduler's choice.
pub data Process : Type 0 where
  in_child in_parent : Process

unfoldable pub step : Process → State → State
step in_child s = child_step s.pc_child s
step in_parent s = parent_step s.pc_parent s

unfoldable pub run : List Process → State → State
run [] s = s
run (p ∷ schedule) s = run schedule (step p s)

-- The state behind `fork`; `idx` and `val` are uninitialised.
abbrev pub main : (input : List ℕ) (idx val : ℕ) → State
main input idx val = record {
  session = record {
    input = input;
    idx = idx;
    val = val;
    arr = 1 ∷ 2 ∷ 3 ∷ 4 ∷ 5 ∷ 6 ∷ 7 ∷ 8 ∷ 9 ∷ 10 ∷ [];
  };
  pc_child = scans_idx;
  pc_parent = sleeps;
  line = [];
  lines = [];
}
