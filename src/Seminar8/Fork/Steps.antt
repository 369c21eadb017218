-- ===== src/Seminar8/Fork/Steps.antt =====
-- The steps of both processes of `fork.c` keep the invariant.
use mathlib.Core.Path.{subst}
use low_level_programming.Base.{
  ℕ, suc, ◌+◌, ◌≡◌, ◌⊎◌, inl, inr, ap, ◌∙◌, Bool-cases, List, [], ◌∷◌, ◌++◌, arith, ltb, length,
  take, get_elem?-lt, take-all,
}
use low_level_programming.Seminar8.SharedArray.{
  Session, scan_idx, scan_val, change_arr, mapped_items,
}
use low_level_programming.Seminar8.SharedArray.Child.{scan_idx-arr}
use low_level_programming.Seminar8.Fork.{
  ChildPc, scans_idx, scans_val, writes, exited, crashed, ParentPc, sleeps, prints, ends_line,
  returned, faulted, State, child_step, print_item, parent_step, Process, in_child, in_parent, step,
}
use low_level_programming.Seminar8.Fork.Invariant.{
  Inv, scanned-arr, At-arr, Either-length, Either-trans, line-step, state, Shows-write,
}

child_step-Inv :
    (t0 : Session) (k : ChildPc) (t : Session) (q : ParentPc) (line : List ℕ)
    (lines : List (List ℕ))
    → Inv t0 (state t k q line lines)
    → Inv t0 (child_step k (state t k q line lines))
unfolding child_step
child_step-Inv t0 scans_idx t q line lines v = record {
  at = ap (λ u. scan_idx u.input u) v.at;
  shows = Shows-write t0 _ _ q line lines (ap (λ u. u.arr) v.at) v.shows;
}
child_step-Inv t0 scans_val t q line lines v = record {
  at = ap (λ u. scan_val u.input u) v.at;
  shows = Shows-write t0 _ _ q line lines (ap (λ u. u.arr) v.at ∙ scan_idx-arr t0.input t0) v.shows;
}
child_step-Inv t0 writes t q line lines v = elim (Bool-cases (ltb t.idx mapped_items)) [
  | inl e ↦ rw e (record {
    at = ap change_arr v.at;
    shows = Shows-write t0 _ _ q line lines (ap (λ u. u.arr) v.at ∙ scanned-arr t0) v.shows;
  })
  | inr e ↦ rw e (record { at = v.at; shows = v.shows })
]
child_step-Inv t0 exited t q line lines v = v
child_step-Inv t0 crashed t q line lines v = v

parent_step-Inv :
    (t0 : Session) (k : ChildPc) (t : Session) (q : ParentPc) (line : List ℕ)
    (lines : List (List ℕ))
    → length t0.arr ≡ 10
    → Inv t0 (state t k q line lines)
    → Inv t0 (parent_step q (state t k q line lines))
unfolding parent_step print_item
parent_step-Inv t0 k t sleeps line lines ten v = record {
  at = v.at;
  shows = (inl v.shows.0, v.shows.1);
}
parent_step-Inv t0 k t (prints i) line lines ten v =
    let arr_is = At-arr t0 k t v.at in
    let len : length t.arr ≡ 10 = Either-length t0 t.arr arr_is ∙ ten in
    elim (Bool-cases (ltb i 10)) [
      | inl e ↦
          let (x, found) = get_elem?-lt t.arr i (ground (arith, e, len)) in
          let (shown, none_yet) = v.shows in
          let more = line-step t0 t.arr i x line arr_is found shown in
          let next : suc i ≡ i + 1 = omega arith in
          rw (e, found)
            (record {
              at = v.at;
              shows = (
                subst (λ j. (line ++ x ∷ [] ≡ take j t0.arr) ⊎ (line ++ x ∷ [] ≡ take j t.arr)) next
                    more,
                none_yet,
              );
            })
      | inr e ↦ rw e (record {
        at = v.at;
        shows = (
          elim v.shows.0 [
            | inl h ↦ inl (h ∙ take-all t0.arr i (ground (arith, e, ten)))
            | inr h ↦
                Either-trans t0 line t.arr (h ∙ take-all t.arr i (ground (arith, e, len))) arr_is
          ],
          v.shows.1,
        );
      })
    ]
parent_step-Inv t0 k t ends_line line lines ten v = record {
  at = v.at;
  shows = (line, v.shows.0, ap (λ l. l ++ line ∷ []) v.shows.1);
}
parent_step-Inv t0 k t returned line lines ten v = v
parent_step-Inv t0 k t faulted line lines ten v = v

pub step-Inv :
    (t0 : Session) → length t0.arr ≡ 10 → (w : Process) (s : State) → Inv t0 s → Inv t0 (step w s)
unfolding step
step-Inv t0 ten in_child s v = child_step-Inv t0 s.pc_child s.session s.pc_parent s.line s.lines v
step-Inv t0 ten in_parent s v =
    parent_step-Inv t0 s.pc_child s.session s.pc_parent s.line s.lines ten v
