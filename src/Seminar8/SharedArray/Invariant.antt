-- ===== src/Seminar8/SharedArray/Invariant.antt =====
-- What holds of every state that `semaphore.c` reaches.
use low_level_programming.Base.{ℕ, zero, suc, ◌+◌, ◌≤◌, ◌≡◌, List, [], ◌∷◌, ◌++◌, length, take}
use low_level_programming.Seminar8.SharedArray.{
  ChildPc, scans_val, changes, posts_child, waits_parent, crashed, ParentPc, waits_child, prints,
  posts_parent, ends_line, faulted, Session, State, scan_idx, scan_val, change_arr,
}

-- The child's loop without its waits: `after n s` has made `n` rounds.
abbrev pub scanned : Session → Session
scanned s = let t = scan_idx s.input s in scan_val t.input t

abbrev pub after : ℕ → Session → Session
after zero s = s
after (suc n) s = change_arr (scanned (after n s))

-- The array after each of the first `n` rounds.
abbrev pub arrays : ℕ → Session → List (List ℕ)
arrays zero s = []
arrays (suc n) s = arrays n s ++ (after (suc n) s).arr ∷ []

-- Who may go on: the child, one of the semaphores, or the parent.
abbrev pub active : ChildPc → ℕ
active waits_parent = 0
active _ = 1

abbrev pub inside : ParentPc → ℕ
inside (prints i) = 1
inside posts_parent = 1
inside _ = 0

abbrev pub ending : ParentPc → ℕ
ending ends_line = 1
ending _ = 0

abbrev pub changed : ChildPc → ℕ
changed posts_child = 1
changed _ = 0

-- The session after `n` changes.
abbrev pub At : Session → ℕ → ChildPc → Session → Type 0
At s0 n scans_val s = s ≡ (let t = after n s0 in scan_idx t.input t)
At s0 n changes s = s ≡ scanned (after n s0)
At s0 n crashed s = Unit
At s0 n _ s = s ≡ after n s0

-- The line that is being printed, where the array is `arr`, after `shown` lines.
abbrev pub Shows : Session → ℕ → List ℕ → ParentPc → List ℕ → Type 0
Shows s0 shown arr waits_child line = line ≡ []
Shows s0 shown arr (prints i) line = (line ≡ take i arr) × (i ≤ 10)
Shows s0 shown arr posts_parent line = line ≡ arr
Shows s0 shown arr ends_line line = line ≡ (after (suc shown) s0).arr
Shows s0 shown arr faulted line = ⊥

pub record Inv (s0 : Session) (s : State) : Type 0 where
  pub n : ℕ
  pub one : active s.pc_child + s.child + inside s.pc_parent + s.parent ≡ 1
  pub made :
      n ≡ length s.lines + ending s.pc_parent + changed s.pc_child + s.child + inside s.pc_parent
  pub printed : s.lines ≡ arrays (length s.lines) s0
  pub at : At s0 n s.pc_child s.session
  pub ten : length s.session.arr ≡ 10
  pub shows : Shows s0 (length s.lines) s.session.arr s.pc_parent s.line

abbrev pub state : Session → (c p : ℕ) → ChildPc → ParentPc → List ℕ → List (List ℕ) → State
state t c p k q line lines = record {
  session = t;
  child = c;
  parent = p;
  pc_child = k;
  pc_parent = q;
  line = line;
  lines = lines;
}
