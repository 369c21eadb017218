-- ===== src/Seminar8/Mutex/Progress.antt =====
-- The threads of `task05.c` can always run to their end.
use low_level_programming.Base.{
  ℕ, zero, suc, ◌+◌, ◌-◌, ◌*◌, ◌≤◌, ◌<◌, ◌≡◌, ◌⊎◌, inl, inr, refl, Bool, true, false, List, [], ◌∷◌,
  arith, length,
}
use low_level_programming.Seminar8.Mutex.{
  ThreadPc, locks, prints, unlocks, returned, Who, t1, t2, word, rounds, bad_print, my_thread,
  State, step, run, main,
}
use low_level_programming.Seminar8.Mutex.Words.{
  inside, held, InRound, StateInv, step-Inv, run-Inv, main-Inv,
}

-- At least the steps that a thread has still to make; a round takes less than 20.
abbrev steps_left : ThreadPc → ℕ → ℕ
steps_left locks i = 20 * (rounds - i)
steps_left (prints s) i = 20 * (9 - i) + length s + 2
steps_left unlocks i = 20 * (9 - i) + 1
steps_left returned i = 0

-- A thread that can step.
abbrev Ready : ThreadPc → Bool → Type 0
Ready locks locked = locked ≡ false
Ready (prints s) locked = Unit
Ready unlocks locked = Unit
Ready returned locked = ⊥

my_thread-steps_left :
    (w : Who) (p : ThreadPc) (i : ℕ) (locked : Bool) (out : List ℕ)
    → Ready p locked
    → InRound p i
    → let r = my_thread (word w) p i (record { locked = locked; stdout = out }) in
      suc (steps_left r.0.pc r.0.i) ≤ steps_left p i
unfolding my_thread bad_print
my_thread-steps_left t1 locks i true out h k = grind arith
my_thread-steps_left t2 locks i true out h k = grind arith
my_thread-steps_left t1 locks i false out h k = omega arith
my_thread-steps_left t2 locks i false out h k = omega arith
my_thread-steps_left w (prints []) i locked out h k = omega arith
my_thread-steps_left w (prints (c ∷ s)) i locked out h k = omega arith
my_thread-steps_left w unlocks i locked out h k = ground arith
my_thread-steps_left w returned i locked out h k = absurd h

abbrev total : State → ℕ
total s = steps_left s.first.pc s.first.i + steps_left s.second.pc s.second.i

step-total :
    (w : Who) (s : State)
    → StateInv s
    → (w ≡ t1 → Ready s.first.pc s.shared.locked)
    → (w ≡ t2 → Ready s.second.pc s.shared.locked)
    → suc (total (step w s)) ≤ total s
unfolding step
step-total t1 s a h k =
    let le =
      my_thread-steps_left t1 s.first.pc s.first.i s.shared.locked s.shared.stdout (h refl)
        a.in_round in
    omega arith
step-total t2 s a h k =
    let le =
      my_thread-steps_left t2 s.second.pc s.second.i s.shared.locked s.shared.stdout (k refl)
        a.in_round_other in
    omega arith

-- Some thread can step, or both have returned.
ready :
    (p q : ThreadPc) (locked : Bool)
    → inside p + inside q ≡ held locked
    → (Ready p locked ⊎ Ready q locked) ⊎ ((p ≡ returned) × (q ≡ returned))
ready locks q true h = ground arith
ready locks q false h = ground arith
ready (prints s) q locked h = inl (inl tt)
ready unlocks q locked h = inl (inl tt)
ready returned locks true h = absurd (omega arith)
ready returned locks false h = inl (inr refl)
ready returned (prints s) locked h = inl (inr tt)
ready returned unlocks locked h = inl (inr tt)
ready returned returned locked h = inr (refl, refl)

-- A schedule that goes on from a state until both threads have returned.
pub record Completed (s : State) : Type 0 where
  pub more : List Who
  pub first_returned : (run more s).first.pc ≡ returned
  pub second_returned : (run more s).second.pc ≡ returned

step-Completed : (w : Who) (s : State) → Completed (step w s) → Completed s
unfolding run
step-Completed w s c = record {
  more = w ∷ c.more;
  first_returned = c.first_returned;
  second_returned = c.second_returned;
}

completes : (fuel : ℕ) (s : State) → StateInv s → total s < fuel → Completed s
unfolding run
completes zero s a h = absurd (omega arith)
completes (suc fuel) s a h = elim (ready s.first.pc s.second.pc s.shared.locked a.excludes) [
  | inl (inl r) ↦
      let le = step-total t1 s a (λ e. r) (λ e. absurd (grind arith)) in
      step-Completed t1 s (completes fuel (step t1 s) (step-Inv t1 s a) (omega arith))
  | inl (inr r) ↦
      let le = step-total t2 s a (λ e. absurd (grind arith)) (λ e. r) in
      step-Completed t2 s (completes fuel (step t2 s) (step-Inv t2 s a) (omega arith))
  | inr (f, g) ↦ record { more = []; first_returned = f; second_returned = g }
]

-- The program never deadlocks: every schedule can be continued until both threads have returned.
pub run-Completed : (schedule : List Who) → Completed (run schedule main)
run-Completed schedule =
    let s = run schedule main in
    completes (suc (total s)) s (run-Inv schedule main main-Inv) (omega arith)
