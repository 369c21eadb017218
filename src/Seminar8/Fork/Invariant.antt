-- ===== src/Seminar8/Fork/Invariant.antt =====
-- What holds of every state that `fork.c` reaches.
use low_level_programming.Base.{
  ℕ, suc, ◌≡◌, ◌⊎◌, inl, inr, sym, ap, ◌∙◌, Bool-cases, some, List, [], ◌∷◌, ◌++◌, arith, ◌==◌,
  length, length-set, get_elem?, set, take, get_elem?-set_ne, take-suc, take-set,
}
use low_level_programming.Seminar8.SharedArray.{Session, scan_idx, change_arr}
use low_level_programming.Seminar8.SharedArray.Invariant.{scanned}
use low_level_programming.Seminar8.SharedArray.Child.{scan_idx-arr, scan_val-arr}
use low_level_programming.Seminar8.Fork.{
  ChildPc, scans_idx, scans_val, writes, exited, crashed, ParentPc, sleeps, prints, ends_line,
  returned, faulted, State,
}

-- The array behind the child's write.
abbrev pub changed : Session → List ℕ
changed t = (change_arr (scanned t)).arr

abbrev pub At : Session → ChildPc → Session → Type 0
At t0 scans_idx t = t ≡ t0
At t0 scans_val t = t ≡ scan_idx t0.input t0
At t0 writes t = t ≡ scanned t0
At t0 exited t = t ≡ change_arr (scanned t0)
At t0 crashed t = t ≡ scanned t0

-- One of the two arrays.
abbrev pub Either : Session → List ℕ → Type 0
Either t0 l = (l ≡ t0.arr) ⊎ (l ≡ changed t0)

-- The line while it is printed, where the array is `arr`, and the lines.
abbrev pub Shows : Session → List ℕ → ParentPc → List ℕ → List (List ℕ) → Type 0
Shows t0 arr sleeps line lines = (line ≡ []) × (lines ≡ [])
Shows t0 arr (prints i) line lines = ((line ≡ take i t0.arr) ⊎ (line ≡ take i arr)) × (lines ≡ [])
Shows t0 arr ends_line line lines = Either t0 line × (lines ≡ [])
Shows t0 arr returned line lines = (l : List ℕ) × Either t0 l × (lines ≡ l ∷ [])
Shows t0 arr faulted line lines = ⊥

pub record Inv (t0 : Session) (s : State) : Type 0 where
  pub at : At t0 s.pc_child s.session
  pub shows : Shows t0 s.session.arr s.pc_parent s.line s.lines

pub scanned-arr : (t : Session) → (scanned t).arr ≡ t.arr
scanned-arr t = let u = scan_idx t.input t in scan_val-arr u.input u ∙ scan_idx-arr t.input t

changed-set : (t : Session) → changed t ≡ set t.arr (scanned t).idx (scanned t).val
unfolding change_arr
changed-set t = ap (λ l. set l (scanned t).idx (scanned t).val) (scanned-arr t)

-- The array is one of the two.
pub At-arr : (t0 : Session) (k : ChildPc) (t : Session) → At t0 k t → Either t0 t.arr
At-arr t0 scans_idx t h = inl (ap (λ u. u.arr) h)
At-arr t0 scans_val t h = inl (ap (λ u. u.arr) h ∙ scan_idx-arr t0.input t0)
At-arr t0 writes t h = inl (ap (λ u. u.arr) h ∙ scanned-arr t0)
At-arr t0 exited t h = inr (ap (λ u. u.arr) h)
At-arr t0 crashed t h = inl (ap (λ u. u.arr) h ∙ scanned-arr t0)

pub Either-length : (t0 : Session) (l : List ℕ) → Either t0 l → length l ≡ length t0.arr
Either-length t0 l (inl e) = ap length e
Either-length t0 l (inr e) =
    ap length (e ∙ changed-set t0) ∙ length-set t0.arr (scanned t0).idx (scanned t0).val

pub Either-trans : (t0 : Session) (l m : List ℕ) → l ≡ m → Either t0 m → Either t0 l
Either-trans t0 l m e (inl h) = inl (e ∙ h)
Either-trans t0 l m e (inr h) = inr (e ∙ h)

-- What is printed of the first array may go on with the second, since they differ in one item.
pub line-step :
    (t0 : Session) (arr : List ℕ) (i x : ℕ) (line : List ℕ)
    → Either t0 arr
    → get_elem? arr i ≡ some x
    → (line ≡ take i t0.arr) ⊎ (line ≡ take i arr)
    → (line ++ x ∷ [] ≡ take (suc i) t0.arr) ⊎ (line ++ x ∷ [] ≡ take (suc i) arr)
line-step t0 arr i x line e h (inr k) = inr (ap (λ l. l ++ x ∷ []) k ∙ take-suc arr i x h)
line-step t0 arr i x line (inl e) h (inl k) =
    inl (ap (λ l. l ++ x ∷ []) k ∙ take-suc t0.arr i x (ap (λ l. get_elem? l i) (sym e) ∙ h))
line-step t0 arr i x line (inr e) h (inl k) =
    let n = (scanned t0).idx in
    let v = (scanned t0).val in
    let is : arr ≡ set t0.arr n v = e ∙ changed-set t0 in
    elim (Bool-cases (n == i)) [
      | inl q ↦
          let same : n ≡ i = ground (arith, q) in
          let front : take i arr ≡ take i t0.arr =
            ap (take i) is ∙ ap (λ m. take i (set t0.arr m v)) same ∙ take-set t0.arr i v in
          inr (ap (λ l. l ++ x ∷ []) (k ∙ sym front) ∙ take-suc arr i x h)
      | inr q ↦
          let other : get_elem? t0.arr i ≡ some x =
            sym (get_elem?-set_ne t0.arr n i v (ground (arith, q)))
            ∙ ap (λ l. get_elem? l i) (sym is)
            ∙ h in
          inl (ap (λ l. l ++ x ∷ []) k ∙ take-suc t0.arr i x other)
    ]

abbrev pub state : Session → ChildPc → ParentPc → List ℕ → List (List ℕ) → State
state t k q line lines = record {
  session = t;
  pc_child = k;
  pc_parent = q;
  line = line;
  lines = lines;
}

-- While the array is as it was, what the parent has printed is the front of that array.
pub Shows-write :
    (t0 : Session) (arr arr' : List ℕ) (q : ParentPc) (line : List ℕ) (lines : List (List ℕ))
    → arr ≡ t0.arr
    → Shows t0 arr q line lines
    → Shows t0 arr' q line lines
Shows-write t0 arr arr' sleeps line lines e h = h
Shows-write t0 arr arr' (prints i) line lines e (inl k, none_yet) = (inl k, none_yet)
Shows-write t0 arr arr' (prints i) line lines e (inr k, none_yet) =
    (inl (k ∙ ap (take i) e), none_yet)
Shows-write t0 arr arr' ends_line line lines e h = h
Shows-write t0 arr arr' returned line lines e h = h
Shows-write t0 arr arr' faulted line lines e h = h
