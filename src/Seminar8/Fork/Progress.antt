-- ===== src/Seminar8/Fork/Progress.antt =====
-- How far the parent of `fork.c` comes.
use low_level_programming.Base.{
  ℕ, suc, ◌+◌, ◌≤◌, ◌<◌, ◌≡◌, inl, inr, refl, ap, Bool-cases, Option, none, min, some, List, [],
  ◌∷◌, arith, ltb, if◌then◌else◌, get_elem?,
}
use low_level_programming.Seminar8.Fork.{
  ChildPc, scans_idx, scans_val, writes, exited, crashed, ParentPc, sleeps, prints, ends_line,
  returned, faulted, State, child_step, print_item, parent_step, Process, in_child, in_parent, step,
  run,
}

-- How far the parent has come, of 13 steps.
abbrev pub rank : ParentPc → ℕ
rank sleeps = 0
rank (prints i) = if ltb i 10 then suc i else 11
rank ends_line = 12
rank _ = 13

abbrev pub turns : List Process → ℕ
turns [] = 0
turns (in_child ∷ schedule) = turns schedule
turns (in_parent ∷ schedule) = suc (turns schedule)

child_step-pc_parent : (k : ChildPc) (s : State) → (child_step k s).pc_parent ≡ s.pc_parent
unfolding child_step
child_step-pc_parent scans_idx s = refl
child_step-pc_parent scans_val s = refl
child_step-pc_parent writes s = ground arith
child_step-pc_parent exited s = refl
child_step-pc_parent crashed s = refl

parent_step-rank :
    (q : ParentPc) (s : State)
    → s.pc_parent ≡ q
    → min 13 (suc (rank q)) ≤ rank (parent_step q s).pc_parent
unfolding parent_step print_item
parent_step-rank sleeps s is_pc = ground arith
parent_step-rank (prints i) s is_pc = elim (Bool-cases (ltb i 10)) [
  | inl e ↦ rw e (printed (ground (arith, e)) (get_elem? s.session.arr i))
  | inr e ↦ rw e (omega arith)
]
  where
    printed : i < 10 → (o : Option ℕ) → min 13 (suc (suc i)) ≤ rank (print_item i o s).pc_parent
    printed h none = omega arith
    printed h (some x) = ground arith
parent_step-rank ends_line s is_pc = omega arith
parent_step-rank returned s is_pc = rw is_pc (omega arith)
parent_step-rank faulted s is_pc = rw is_pc (omega arith)

pub run-rank :
    (schedule : List Process) (s : State)
    → min 13 (turns schedule + rank s.pc_parent) ≤ rank (run schedule s).pc_parent
unfolding run step
run-rank [] s = omega arith
run-rank (in_child ∷ schedule) s =
    let same : rank (child_step s.pc_child s).pc_parent ≡ rank s.pc_parent =
      ap rank (child_step-pc_parent s.pc_child s) in
    omega (arith, run-rank schedule (child_step s.pc_child s), same)
run-rank (in_parent ∷ schedule) s =
    omega
      (arith, run-rank schedule (parent_step s.pc_parent s), parent_step-rank s.pc_parent s refl)
