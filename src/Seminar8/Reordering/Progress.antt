-- ===== src/Seminar8/Reordering/Progress.antt =====
-- The program of `cpu-reordering.c` never deadlocks.
use low_level_programming.Base.{ℕ, Bool, ◌<◌, ◌≢◌, ◌⊎◌, ◌≡◌, true, false, inl, refl, List, arith}
use low_level_programming.Seminar8.Reordering.{
  ThreadPc, waits, fences, posts, MainPc, resets_x, resets_y, posts0, posts1, waits_first,
  waits_second, checks, detected, finished, State, Actor, run, init,
}
use low_level_programming.Seminar8.Reordering.Invariant.{Inv, state}
use low_level_programming.Seminar8.Reordering.Safety.{run-Inv, init-Inv}

-- The main thread is neither at its end nor at a `sem_wait` on a semaphore at 0.
abbrev pub CanMain : MainPc → ℕ → Type 0
CanMain waits_first e = 0 < e
CanMain waits_second e = 0 < e
CanMain finished e = ⊥
CanMain detected e = ⊥
CanMain _ e = Unit

-- A thread is not at a `sem_wait` on a semaphore at 0, and does not wait for its store buffer.
abbrev pub CanThread : (pending : Bool) → ThreadPc → ℕ → Type 0
CanThread w waits sem = (w ≡ false) × (0 < sem)
CanThread w fences sem = w ≡ false
CanThread w posts sem = w ≡ false
CanThread w _ sem = Unit

-- Some thread can step, or a pending write can reach the memory.
abbrev pub CanStep : State → Type 0
CanStep s =
    CanMain s.pc s.sem_end
    ⊎ (CanThread s.pending0 s.pc0 s.sem_begin0
        ⊎ (CanThread s.pending1 s.pc1 s.sem_begin1 ⊎ ((s.pending0 ≡ true) ⊎ (s.pending1 ≡ true))))

waits_first-CanStep :
    (p0 p1 : ThreadPc) (x y : ℕ) (w0 w1 : Bool) (r0 r1 b0 b1 e i : ℕ)
    → Inv (state x y w0 w1 r0 r1 b0 b1 e p0 p1 waits_first i)
    → CanStep (state x y w0 w1 r0 r1 b0 b1 e p0 p1 waits_first i)
waits_first-CanStep p0 p1 x y w0 w1 r0 r1 b0 b1 e i v = ground arith

waits_second-CanStep :
    (p0 p1 : ThreadPc) (x y : ℕ) (w0 w1 : Bool) (r0 r1 b0 b1 e i : ℕ)
    → Inv (state x y w0 w1 r0 r1 b0 b1 e p0 p1 waits_second i)
    → CanStep (state x y w0 w1 r0 r1 b0 b1 e p0 p1 waits_second i)
waits_second-CanStep p0 p1 x y w0 w1 r0 r1 b0 b1 e i v = ground arith

Inv-CanStep :
    (m : MainPc) (p0 p1 : ThreadPc) (x y : ℕ) (w0 w1 : Bool) (r0 r1 b0 b1 e i : ℕ)
    → Inv (state x y w0 w1 r0 r1 b0 b1 e p0 p1 m i)
    → m ≢ finished
    → CanStep (state x y w0 w1 r0 r1 b0 b1 e p0 p1 m i)
Inv-CanStep resets_x p0 p1 x y w0 w1 r0 r1 b0 b1 e i v h = inl tt
Inv-CanStep resets_y p0 p1 x y w0 w1 r0 r1 b0 b1 e i v h = inl tt
Inv-CanStep posts0 p0 p1 x y w0 w1 r0 r1 b0 b1 e i v h = inl tt
Inv-CanStep posts1 p0 p1 x y w0 w1 r0 r1 b0 b1 e i v h = inl tt
Inv-CanStep waits_first p0 p1 x y w0 w1 r0 r1 b0 b1 e i v h =
    waits_first-CanStep p0 p1 x y w0 w1 r0 r1 b0 b1 e i v
Inv-CanStep waits_second p0 p1 x y w0 w1 r0 r1 b0 b1 e i v h =
    waits_second-CanStep p0 p1 x y w0 w1 r0 r1 b0 b1 e i v
Inv-CanStep checks p0 p1 x y w0 w1 r0 r1 b0 b1 e i v h = inl tt
Inv-CanStep detected p0 p1 x y w0 w1 r0 r1 b0 b1 e i v h = absurd (v.not_detected refl)
Inv-CanStep finished p0 p1 x y w0 w1 r0 r1 b0 b1 e i v h = absurd (h refl)

-- After every schedule, unless the main thread has returned, some thread waits neither at `sem_wait`
-- nor for its store buffer, or a pending write can reach the memory.
pub run-CanStep :
    (schedule : List Actor) → (run schedule init).pc ≢ finished → CanStep (run schedule init)
run-CanStep schedule h =
    let s = run schedule init in
    let v = run-Inv schedule init init-Inv in
    Inv-CanStep s.pc s.pc0 s.pc1 s.x s.y s.pending0 s.pending1 s.read0 s.read1 s.sem_begin0
      s.sem_begin1 s.sem_end s.i v h
