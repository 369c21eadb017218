-- ===== src/Seminar8/SharedArray/Child.antt =====
-- The steps of the child of `semaphore.c` keep the invariant.
use low_level_programming.Base.{
  ℕ, suc, ◌-◌, ◌<◌, ◌≡◌, refl, ap, ◌∙◌, Bool, true, false, List, [], ◌∷◌, arith, ltb, ◌==◌,
  if◌then◌else◌, length, length-set,
}
use low_level_programming.Seminar8.SharedArray.{
  ChildPc, scans_idx, scans_val, changes, posts_child, waits_parent, crashed, ParentPc, waits_child,
  prints, posts_parent, ends_line, faulted, Session, scan_idx, scan_val, change_arr, mapped_items,
  child_step,
}
use low_level_programming.Seminar8.SharedArray.Invariant.{inside, Shows, Inv, state}

pub scan_idx-arr : (l : List ℕ) (t : Session) → (scan_idx l t).arr ≡ t.arr
unfolding scan_idx
scan_idx-arr [] t = refl
scan_idx-arr (n ∷ l) t = refl

pub scan_val-arr : (l : List ℕ) (t : Session) → (scan_val l t).arr ≡ t.arr
unfolding scan_val
scan_val-arr [] t = refl
scan_val-arr (n ∷ l) t = refl

pub change_arr-length : (t : Session) → length (change_arr t).arr ≡ length t.arr
unfolding change_arr
change_arr-length t = length-set t.arr t.idx t.val

-- While the child has the turn, the parent does not print the array.
Shows-arr :
    (s0 : Session) (shown : ℕ) (a b : List ℕ) (q : ParentPc) (line : List ℕ)
    → inside q ≡ 0
    → Shows s0 shown a q line
    → Shows s0 shown b q line
Shows-arr s0 shown a b waits_child line h v = v
Shows-arr s0 shown a b (prints i) line h v = absurd (omega arith)
Shows-arr s0 shown a b posts_parent line h v = absurd (omega arith)
Shows-arr s0 shown a b ends_line line h v = v
Shows-arr s0 shown a b faulted line h v = v

pub child_step-Inv :
    (s0 : Session) (k : ChildPc) (t : Session) (c p : ℕ) (q : ParentPc) (line : List ℕ)
    (lines : List (List ℕ))
    → Inv s0 (state t c p k q line lines)
    → Inv s0 (child_step k (state t c p k q line lines))
unfolding child_step
child_step-Inv s0 scans_idx t c p q line lines v =
    let turn : inside q ≡ 0 = let o = v.one in omega arith in
    record {
      n = v.n;
      one = v.one;
      made = v.made;
      printed = v.printed;
      at = ap (λ u. scan_idx u.input u) v.at;
      ten = ap length (scan_idx-arr t.input t) ∙ v.ten;
      shows = Shows-arr s0 (length lines) _ _ q line turn v.shows;
    }
child_step-Inv s0 scans_val t c p q line lines v =
    let turn : inside q ≡ 0 = let o = v.one in omega arith in
    record {
      n = v.n;
      one = v.one;
      made = v.made;
      printed = v.printed;
      at = ap (λ u. scan_val u.input u) v.at;
      ten = ap length (scan_val-arr t.input t) ∙ v.ten;
      shows = Shows-arr s0 (length lines) _ _ q line turn v.shows;
    }
child_step-Inv s0 changes t c p q line lines v =
    let turn : inside q ≡ 0 = let o = v.one in omega arith in changing (ltb t.idx mapped_items) turn
  where
    changing :
        (b : Bool)
        → inside q ≡ 0
        → Inv s0 (
            if b
            then state (change_arr t) c p posts_child q line lines
            else state t c p crashed q line lines)
    changing true turn = record {
      n = suc v.n;
      one = v.one;
      made = omega (arith, v.made);
      printed = v.printed;
      at = ap change_arr v.at;
      ten = change_arr-length t ∙ v.ten;
      shows = Shows-arr s0 (length lines) _ _ q line turn v.shows;
    }
    changing false turn = record {
      n = v.n;
      one = v.one;
      made = v.made;
      printed = v.printed;
      at = tt;
      ten = v.ten;
      shows = v.shows;
    }
child_step-Inv s0 posts_child t c p q line lines v = record {
  n = v.n;
  one = omega (arith, v.one);
  made = omega (arith, v.made);
  printed = v.printed;
  at = v.at;
  ten = v.ten;
  shows = v.shows;
}
child_step-Inv s0 waits_parent t c p q line lines v = waiting (p == 0) refl
  where
    waiting :
        (b : Bool)
        → (p == 0) ≡ b
        → Inv s0 (
            if b
            then state t c p waits_parent q line lines
            else state t c (p - 1) scans_idx q line lines)
    waiting true e = v
    waiting false e =
        let pos : 0 < p = ground arith in
        record {
          n = v.n;
          one = omega (arith, v.one);
          made = v.made;
          printed = v.printed;
          at = v.at;
          ten = v.ten;
          shows = v.shows;
        }
child_step-Inv s0 crashed t c p q line lines v = v
