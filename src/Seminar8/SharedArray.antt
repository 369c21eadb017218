-- ===== src/Seminar8/SharedArray.antt =====
-- `seminar8/task3/semaphore.c`: a child changes an array that it shares with its parent, which
-- prints the array after each change; two semaphores, opened at 0, let them take turns.
pub mod Invariant
pub mod Child
pub mod Turns
use low_level_programming.Base.{
  ℕ, zero, suc, ◌+◌, ◌-◌, Bool, true, false, Option, none, some, List, [], ◌∷◌, ◌++◌, ltb, ◌==◌,
  if◌then◌else◌, get_elem?, set,
}

-- The `int`s in the page of 4096 bytes that holds the array. A write behind the array and in the page
-- changes nothing that is read.
abbrev pub mapped_items : ℕ
mapped_items = 1024

-- Where the child stands; a write behind the page ends in `crashed`.
pub data ChildPc : Type 0 where
  scans_idx scans_val changes posts_child waits_parent crashed : ChildPc

pub data ParentPc : Type 0 where
  waits_child : ParentPc
  prints : (i : ℕ) → ParentPc
  posts_parent ends_line faulted : ParentPc

-- The numbers left on the standard input, the child's variables, and the shared array.
pub record Session : Type 0 where
  pub input : List ℕ
  pub idx : ℕ
  pub val : ℕ
  pub arr : List ℕ

pub record State : Type 0 where
  pub session : Session
  pub child : ℕ
  pub parent : ℕ
  pub pc_child : ChildPc
  pub pc_parent : ParentPc
  pub line : List ℕ
  pub lines : List (List ℕ)

-- Where there is no number left, `scanf` leaves its variable as it is.
unfoldable pub scan_idx : List ℕ → Session → Session
scan_idx [] s = s
scan_idx (n ∷ input) s = record s { input = input; idx = n }

unfoldable pub scan_val : List ℕ → Session → Session
scan_val [] s = s
scan_val (n ∷ input) s = record s { input = input; val = n }

unfoldable pub change_arr : Session → Session
change_arr s = record s { arr = set s.arr s.idx s.val }

-- A step of the child; `sem_wait` on a semaphore at 0 does not step.
unfoldable pub child_step : ChildPc → State → State
child_step scans_idx s = record s {
  session = scan_idx s.session.input s.session;
  pc_child = scans_val;
}
child_step scans_val s = record s {
  session = scan_val s.session.input s.session;
  pc_child = changes;
}
child_step changes s =
    if ltb s.session.idx mapped_items
    then record s { session = change_arr s.session; pc_child = posts_child }
    else record s { pc_child = crashed }
child_step posts_child s = record s { child = s.child + 1; pc_child = waits_parent }
child_step waits_parent s =
    if s.parent == 0 then s else record s { parent = s.parent - 1; pc_child = scans_idx }
child_step crashed s = s

-- A round of the loop that prints the array.
unfoldable pub print_item : ℕ → Option ℕ → State → State
print_item i none s = record s { pc_parent = faulted }
print_item i (some v) s = record s { line = s.line ++ v ∷ []; pc_parent = prints (i + 1) }

unfoldable pub parent_step : ParentPc → State → State
parent_step waits_child s =
    if s.child == 0 then s else record s { child = s.child - 1; pc_parent = prints 0 }
parent_step (prints i) s =
    if ltb i 10
    then print_item i (get_elem? s.session.arr i) s
    else record s { pc_parent = posts_parent }
parent_step posts_parent s = record s { parent = s.parent + 1; pc_parent = ends_line }
parent_step ends_line s = record s {
  line = [];
  lines = s.lines ++ s.line ∷ [];
  pc_parent = waits_child;
}
parent_step faulted s = s

-- The scheduler's choice.
pub data Process : Type 0 where
  in_child in_parent : Process

unfoldable pub step : Process → State → State
step in_child s = child_step s.pc_child s
step in_parent s = parent_step s.pc_parent s

unfoldable pub run : List Process → State → State
run [] s = s
run (p ∷ schedule) s = run schedule (step p s)

-- The state behind `fork`; `idx` and `val` are uninitialised.
abbrev pub main : (input : List ℕ) (idx val : ℕ) → State
main input idx val = record {
  session = record {
    input = input;
    idx = idx;
    val = val;
    arr = 1 ∷ 2 ∷ 3 ∷ 4 ∷ 5 ∷ 6 ∷ 7 ∷ 8 ∷ 9 ∷ 10 ∷ [];
  };
  child = 0;
  parent = 0;
  pc_child = scans_idx;
  pc_parent = waits_child;
  line = [];
  lines = [];
}
