-- ===== src/Seminar8/SharedArray/Turns.antt =====
-- What the parent of `semaphore.c` prints: the array after each change, in order.
use low_level_programming.Base.{
  ℕ, suc, ◌+◌, ◌-◌, ◌≤◌, ◌<◌, ◌≡◌, refl, sym, ap, ap₂, ◌∙◌, Bool, true, false, some, List, [], ◌∷◌,
  ◌++◌, arith, ltb, ◌==◌, if◌then◌else◌, length, length-append, get_elem?, take, get_elem?-lt,
  take-suc, take-all,
}
use low_level_programming.Seminar8.SharedArray.{
  ChildPc, waits_parent, ParentPc, waits_child, prints, posts_parent, ends_line, faulted, Session,
  State, print_item, parent_step, Process, in_child, in_parent, step, run, main,
}
use low_level_programming.Seminar8.SharedArray.Invariant.{after, arrays, Inv, state}
use low_level_programming.Seminar8.SharedArray.Child.{child_step-Inv}

print_item-Inv :
    (s0 : Session) (k : ChildPc) (t : Session) (c p i x : ℕ) (line : List ℕ) (lines : List (List ℕ))
    → get_elem? t.arr i ≡ some x
    → i < 10
    → Inv s0 (state t c p k (prints i) line lines)
    → Inv s0 (print_item i (some x) (state t c p k (prints i) line lines))
unfolding print_item
print_item-Inv s0 k t c p i x line lines found small v =
    let (shown, le) = v.shows in
    let e : suc i ≡ i + 1 = omega arith in
    record {
      n = v.n;
      one = v.one;
      made = v.made;
      printed = v.printed;
      at = v.at;
      ten = v.ten;
      shows = (
        ap (λ l. l ++ x ∷ []) shown ∙ take-suc t.arr i x found ∙ ap (λ j. take j t.arr) e,
        omega arith,
      );
    }

posts_parent-Inv :
    (s0 : Session) (k : ChildPc) (t : Session) (c p : ℕ) (line : List ℕ) (lines : List (List ℕ))
    → Inv s0 (state t c p k posts_parent line lines)
    → Inv s0 (state t c (p + 1) k ends_line line lines)
posts_parent-Inv s0 waits_parent t c p line lines v =
    let none_posted : c ≡ 0 = let o = v.one in omega arith in
    let counted : v.n ≡ suc (length lines) = omega (arith, v.made) in
    record {
      n = v.n;
      one = omega (arith, v.one);
      made = omega (arith, v.made);
      printed = v.printed;
      at = v.at;
      ten = v.ten;
      shows = v.shows ∙ ap (λ u. u.arr) (v.at ∙ ap (λ m. after m s0) counted);
    }
posts_parent-Inv s0 k t c p line lines v = absurd (let o = v.one in omega arith)

parent_step-Inv :
    (s0 : Session) (k : ChildPc) (t : Session) (c p : ℕ) (q : ParentPc) (line : List ℕ)
    (lines : List (List ℕ))
    → Inv s0 (state t c p k q line lines)
    → Inv s0 (parent_step q (state t c p k q line lines))
unfolding parent_step
parent_step-Inv s0 k t c p waits_child line lines v = waiting (c == 0) refl
  where
    waiting :
        (b : Bool)
        → (c == 0) ≡ b
        → Inv s0 (
            if b
            then state t c p k waits_child line lines
            else state t (c - 1) p k (prints 0) line lines)
    waiting true e = v
    waiting false e =
        let pos : 0 < c = ground arith in
        record {
          n = v.n;
          one = omega (arith, v.one);
          made = omega (arith, v.made);
          printed = v.printed;
          at = v.at;
          ten = v.ten;
          shows = (v.shows, omega arith);
        }
parent_step-Inv s0 k t c p (prints i) line lines v = printing (ltb i 10) refl
  where
    printing :
        (b : Bool)
        → ltb i 10 ≡ b
        → Inv s0 (
            if b
            then print_item i (get_elem? t.arr i) (state t c p k (prints i) line lines)
            else state t c p k posts_parent line lines)
    printing true e =
        let small : i < 10 = ground arith in
        let (x, found) = get_elem?-lt t.arr i (omega (arith, v.ten)) in
        rw found (print_item-Inv s0 k t c p i x line lines found small v)
    printing false e =
        let big : 10 ≤ i = ground arith in
        let (shown, le) = v.shows in
        record {
          n = v.n;
          one = v.one;
          made = v.made;
          printed = v.printed;
          at = v.at;
          ten = v.ten;
          shows = shown ∙ take-all t.arr i (omega (arith, v.ten));
        }
parent_step-Inv s0 k t c p posts_parent line lines v = posts_parent-Inv s0 k t c p line lines v
parent_step-Inv s0 k t c p ends_line line lines v =
    let grown : length (lines ++ line ∷ []) ≡ suc (length lines) =
      length-append lines (line ∷ []) ∙ omega arith in
    record {
      n = v.n;
      one = v.one;
      made = omega (arith, v.made, grown);
      printed = ap₂ (λ a b. a ++ b ∷ []) v.printed v.shows ∙ ap (λ m. arrays m s0) (sym grown);
      at = v.at;
      ten = v.ten;
      shows = refl;
    }
parent_step-Inv s0 k t c p faulted line lines v = v

step-Inv : (s0 : Session) (w : Process) (s : State) → Inv s0 s → Inv s0 (step w s)
unfolding step
step-Inv s0 in_child s v =
    child_step-Inv s0 s.pc_child s.session s.child s.parent s.pc_parent s.line s.lines v
step-Inv s0 in_parent s v =
    parent_step-Inv s0 s.pc_child s.session s.child s.parent s.pc_parent s.line s.lines v

run-Inv : (s0 : Session) (schedule : List Process) (s : State) → Inv s0 s → Inv s0 (run schedule s)
unfolding run
run-Inv s0 [] s v = v
run-Inv s0 (w ∷ schedule) s v = run-Inv s0 schedule (step w s) (step-Inv s0 w s v)

main-Inv : (input : List ℕ) (idx val : ℕ) → Inv (main input idx val).session (main input idx val)
main-Inv input idx val = record {
  n = 0;
  one = refl;
  made = refl;
  printed = refl;
  at = refl;
  ten = refl;
  shows = refl;
}

-- Under every schedule, the lines that the parent has printed are the arrays after the first
-- changes of the child, one for each and in order: no line mixes two of them, and none is missing.
pub run-arrays :
    (input : List ℕ) (idx val : ℕ) (schedule : List Process)
    → (run schedule (main input idx val)).lines
      ≡ arrays (length (run schedule (main input idx val)).lines) (main input idx val).session
run-arrays input idx val schedule =
    (run-Inv (main input idx val).session schedule (main input idx val)
      (main-Inv input idx val)).printed
