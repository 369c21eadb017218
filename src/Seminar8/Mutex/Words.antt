-- ===== src/Seminar8/Mutex/Words.antt =====
-- No schedule mixes the words of `task05.c`.
use low_level_programming.Base.{
  ℕ, ◌+◌, ◌≤◌, ◌<◌, ◌≡◌, ◌⊎◌, inl, inr, refl, sym, ap, ◌∙◌, Bool, true, false, List, [], ◌∷◌, ◌++◌,
  arith, ltb, if◌then◌else◌, append_assoc, append_nil,
}
use low_level_programming.Seminar8.Mutex.{
  ThreadPc, locks, prints, unlocks, returned, Who, t1, t2, word, Shared, rounds, bad_print,
  my_thread, State, step, run, main,
}

-- The characters that a thread has still to print under the mutex.
abbrev rest : ThreadPc → List ℕ
rest (prints s) = s
rest _ = []

abbrev pub inside : ThreadPc → ℕ
inside (prints s) = 1
inside unlocks = 1
inside _ = 0

abbrev pub held : Bool → ℕ
held true = 1
held false = 0

-- The rounds that a thread has begun, while it has some left.
abbrev pub InRound : ThreadPc → ℕ → Type 0
InRound returned i = i ≡ rounds
InRound _ i = i < rounds

-- The text of words that are printed in turn, and how many of them are of a thread.
abbrev pub text : List Who → List ℕ
text [] = []
text (w ∷ order) = word w ++ text order

abbrev same : Who → Who → ℕ
same t1 t1 = 1
same t2 t2 = 1
same _ _ = 0

abbrev pub count : Who → List Who → ℕ
count w [] = 0
count w (v ∷ order) = same w v + count w order

text-append : (order : List Who) (w : Who) → text (order ++ w ∷ []) ≡ text order ++ word w
text-append [] w = append_nil (word w)
text-append (v ∷ order) w =
    ap (λ l. word v ++ l) (text-append order w) ∙ sym (append_assoc (word v) _ _)

count-append : (order : List Who) (w v : Who) → count w (order ++ v ∷ []) ≡ count w order + same w v
count-append [] w v = omega arith
count-append (u ∷ order) w v = omega (arith, count-append order w v)

-- What holds of a thread `w` and the other one, `v`.
pub record Inv (w v : Who) (p q : ThreadPc) (i j : ℕ) (m : Shared) : Type 0 where
  pub order : List Who
  pub shows : m.stdout ++ (rest p ++ rest q) ≡ text order
  pub excludes : inside p + inside q ≡ held m.locked
  pub begun : count w order ≡ i + inside p
  pub begun_other : count v order ≡ j + inside q
  pub in_round : InRound p i
  pub in_round_other : InRound q j

rest_nil : (q : ThreadPc) → inside q ≡ 0 → rest q ≡ []
rest_nil locks h = refl
rest_nil (prints s) h = absurd (omega arith)
rest_nil unlocks h = refl
rest_nil returned h = refl

inside_cases : (p q : ThreadPc) → inside p + inside q ≤ 1 → (inside p ≡ 0) ⊎ (inside q ≡ 0)
inside_cases p q h = grind arith

rest_comm : (p q : ThreadPc) → inside p + inside q ≤ 1 → rest p ++ rest q ≡ rest q ++ rest p
rest_comm p q h = elim (inside_cases p q h) [
  | inl e ↦ rw (rest_nil p e, append_nil) refl
  | inr e ↦ rw (rest_nil q e, append_nil) refl
]

held_le : (b : Bool) → held b ≤ 1
held_le true = omega arith
held_le false = omega arith

swap : (w v : Who) (p q : ThreadPc) (i j : ℕ) (m : Shared) → Inv w v p q i j m → Inv v w q p j i m
swap w v p q i j m a =
    let le = held_le m.locked in
    let e = a.excludes in
    record {
      order = a.order;
      shows = ap (λ l. m.stdout ++ l) (sym (rest_comm p q (omega arith))) ∙ a.shows;
      excludes = omega arith;
      begun = a.begun_other;
      begun_other = a.begun;
      in_round = a.in_round_other;
      in_round_other = a.in_round;
    }

after-inside : (i : ℕ) → inside (if ltb (i + 1) rounds then locks else returned) ≡ 0
after-inside i = ground arith

after-InRound :
    (i : ℕ) → i < rounds → InRound (if ltb (i + 1) rounds then locks else returned) (i + 1)
after-InRound i h = ground arith

module _ (w v : Who) (own : same w w ≡ 1) (other : same v w ≡ 0) where
  my_thread-Inv :
      (p q : ThreadPc) (i j : ℕ) (locked : Bool) (out : List ℕ)
      → Inv w v p q i j (record { locked = locked; stdout = out })
      → let r = my_thread (word w) p i (record { locked = locked; stdout = out }) in
        Inv w v r.0.pc q r.0.i j r.1
  unfolding my_thread bad_print
  my_thread-Inv locks q i j true out a = a
  my_thread-Inv locks q i j false out a =
      let x = a.excludes in
      let e : rest q ≡ [] = rest_nil q (omega arith) in
      let printed : out ≡ text a.order =
        sym (append_nil out) ∙ ap (λ l. out ++ l) (sym e) ∙ a.shows in
      record {
        order = a.order ++ w ∷ [];
        shows =
            ap (λ l. out ++ (word w ++ l)) e
            ∙ ap (λ l. out ++ l) (append_nil (word w))
            ∙ ap (λ l. l ++ word w) printed
            ∙ sym (text-append a.order w);
        excludes = omega arith;
        begun = omega (arith, a.begun, own, count-append a.order w w);
        begun_other = omega (arith, a.begun_other, other, count-append a.order v w);
        in_round = a.in_round;
        in_round_other = a.in_round_other;
      }
  my_thread-Inv (prints []) q i j locked out a = record {
    order = a.order;
    shows = a.shows;
    excludes = a.excludes;
    begun = a.begun;
    begun_other = a.begun_other;
    in_round = a.in_round;
    in_round_other = a.in_round_other;
  }
  my_thread-Inv (prints (c ∷ s)) q i j locked out a = record {
    order = a.order;
    shows = append_assoc out (c ∷ []) (s ++ rest q) ∙ a.shows;
    excludes = a.excludes;
    begun = a.begun;
    begun_other = a.begun_other;
    in_round = a.in_round;
    in_round_other = a.in_round_other;
  }
  my_thread-Inv unlocks q i j true out a =
      let after = if ltb (i + 1) rounds then locks else returned in
      let outside : inside after ≡ 0 = after-inside i in
      let x = a.excludes in
      record {
        order = a.order;
        shows = ap (λ l. out ++ (l ++ rest q)) (rest_nil after outside) ∙ a.shows;
        excludes = omega arith;
        begun = omega (arith, a.begun);
        begun_other = a.begun_other;
        in_round = after-InRound i a.in_round;
        in_round_other = a.in_round_other;
      }
  my_thread-Inv unlocks q i j false out a = absurd (let x = a.excludes in omega arith)
  my_thread-Inv returned q i j locked out a = a

abbrev pub StateInv : State → Type 0
StateInv s = Inv t1 t2 s.first.pc s.second.pc s.first.i s.second.i s.shared

pub step-Inv : (w : Who) (s : State) → StateInv s → StateInv (step w s)
unfolding step
step-Inv t1 s a =
    my_thread-Inv t1 t2 refl refl s.first.pc s.second.pc s.first.i s.second.i s.shared.locked
      s.shared.stdout a
step-Inv t2 s a =
    let (r, m) = my_thread (word t2) s.second.pc s.second.i s.shared in
    let b =
      my_thread-Inv t2 t1 refl refl s.second.pc s.first.pc s.second.i s.first.i s.shared.locked
        s.shared.stdout (swap t1 t2 s.first.pc s.second.pc s.first.i s.second.i s.shared a) in
    swap t2 t1 r.pc s.first.pc r.i s.first.i m b

pub run-Inv : (schedule : List Who) (s : State) → StateInv s → StateInv (run schedule s)
unfolding run
run-Inv [] s a = a
run-Inv (w ∷ schedule) s a = run-Inv schedule (step w s) (step-Inv w s a)

pub main-Inv : StateInv main
main-Inv = record {
  order = [];
  shows = refl;
  excludes = refl;
  begun = refl;
  begun_other = refl;
  in_round = omega arith;
  in_round_other = omega arith;
}

-- The output is a row of whole words, as many of each thread as it has rounds.
pub record Printed (stdout : List ℕ) : Type 0 where
  pub order : List Who
  pub shows : stdout ≡ text order
  pub hellos : count t1 order ≡ rounds
  pub worlds : count t2 order ≡ rounds

-- Once both threads have returned, whatever the schedule was, the output is a row of whole words,
-- ten of each thread.
pub run-Printed :
    (schedule : List Who)
    → (run schedule main).first.pc ≡ returned
    → (run schedule main).second.pc ≡ returned
    → Printed (run schedule main).shared.stdout
run-Printed schedule h k =
    let s = run schedule main in
    let a : Inv t1 t2 s.first.pc s.second.pc s.first.i s.second.i s.shared =
      run-Inv schedule main main-Inv in
    let b : Inv t1 t2 returned returned s.first.i s.second.i s.shared = rw h at (rw k at a) in
    record {
      order = b.order;
      shows = sym (append_nil s.shared.stdout) ∙ b.shows;
      hellos = omega (arith, b.begun, b.in_round);
      worlds = omega (arith, b.begun_other, b.in_round_other);
    }
