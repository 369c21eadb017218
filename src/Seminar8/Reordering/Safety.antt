-- ===== src/Seminar8/Reordering/Safety.antt =====
-- No schedule makes both threads of `cpu-reordering.c` read 0.
use low_level_programming.Base.{ℕ, Bool, ◌≢◌, List, [], ◌∷◌, arith}
use low_level_programming.Seminar8.Reordering.{
  ThreadPc, waits, writes, fences, reads, posts, MainPc, resets_x, resets_y, posts0, posts1,
  waits_first, waits_second, checks, detected, finished, State, thread0_impl, thread1_impl, check,
  main_step, Actor, main_thread, thread0, thread1, buffer0, buffer1, drain0, drain1, step, run,
  init,
}
use low_level_programming.Seminar8.Reordering.Invariant.{Inv, state}

thread0_impl-Inv :
    (p0 : ThreadPc) (m : MainPc) (p1 : ThreadPc) (x y : ℕ) (w0 w1 : Bool) (r0 r1 b0 b1 e i : ℕ)
    → Inv (state x y w0 w1 r0 r1 b0 b1 e p0 p1 m i)
    → Inv (thread0_impl p0 (state x y w0 w1 r0 r1 b0 b1 e p0 p1 m i))
unfolding thread0_impl
thread0_impl-Inv waits m p1 x y w0 w1 r0 r1 b0 b1 e i v = ground arith
thread0_impl-Inv writes m p1 x y w0 w1 r0 r1 b0 b1 e i v = ground arith
thread0_impl-Inv fences m p1 x y w0 w1 r0 r1 b0 b1 e i v = ground arith
thread0_impl-Inv reads m p1 x y w0 w1 r0 r1 b0 b1 e i v = ground arith
thread0_impl-Inv posts m p1 x y w0 w1 r0 r1 b0 b1 e i v = ground arith

thread1_impl-Inv :
    (p1 : ThreadPc) (m : MainPc) (p0 : ThreadPc) (x y : ℕ) (w0 w1 : Bool) (r0 r1 b0 b1 e i : ℕ)
    → Inv (state x y w0 w1 r0 r1 b0 b1 e p0 p1 m i)
    → Inv (thread1_impl p1 (state x y w0 w1 r0 r1 b0 b1 e p0 p1 m i))
unfolding thread1_impl
thread1_impl-Inv waits m p0 x y w0 w1 r0 r1 b0 b1 e i v = ground arith
thread1_impl-Inv writes m p0 x y w0 w1 r0 r1 b0 b1 e i v = ground arith
thread1_impl-Inv fences m p0 x y w0 w1 r0 r1 b0 b1 e i v = ground arith
thread1_impl-Inv reads m p0 x y w0 w1 r0 r1 b0 b1 e i v = ground arith
thread1_impl-Inv posts m p0 x y w0 w1 r0 r1 b0 b1 e i v = ground arith

resets_x-Inv :
    (p0 p1 : ThreadPc) (x y : ℕ) (w0 w1 : Bool) (r0 r1 b0 b1 e i : ℕ)
    → Inv (state x y w0 w1 r0 r1 b0 b1 e p0 p1 resets_x i)
    → Inv (main_step resets_x (state x y w0 w1 r0 r1 b0 b1 e p0 p1 resets_x i))
unfolding main_step check
resets_x-Inv p0 p1 x y w0 w1 r0 r1 b0 b1 e i v = ground arith

resets_y-Inv :
    (p0 p1 : ThreadPc) (x y : ℕ) (w0 w1 : Bool) (r0 r1 b0 b1 e i : ℕ)
    → Inv (state x y w0 w1 r0 r1 b0 b1 e p0 p1 resets_y i)
    → Inv (main_step resets_y (state x y w0 w1 r0 r1 b0 b1 e p0 p1 resets_y i))
unfolding main_step check
resets_y-Inv p0 p1 x y w0 w1 r0 r1 b0 b1 e i v = ground arith

posts0-Inv :
    (p0 p1 : ThreadPc) (x y : ℕ) (w0 w1 : Bool) (r0 r1 b0 b1 e i : ℕ)
    → Inv (state x y w0 w1 r0 r1 b0 b1 e p0 p1 posts0 i)
    → Inv (main_step posts0 (state x y w0 w1 r0 r1 b0 b1 e p0 p1 posts0 i))
unfolding main_step check
posts0-Inv p0 p1 x y w0 w1 r0 r1 b0 b1 e i v = ground arith

posts1-Inv :
    (p0 p1 : ThreadPc) (x y : ℕ) (w0 w1 : Bool) (r0 r1 b0 b1 e i : ℕ)
    → Inv (state x y w0 w1 r0 r1 b0 b1 e p0 p1 posts1 i)
    → Inv (main_step posts1 (state x y w0 w1 r0 r1 b0 b1 e p0 p1 posts1 i))
unfolding main_step check
posts1-Inv p0 p1 x y w0 w1 r0 r1 b0 b1 e i v = ground arith

waits_first-Inv :
    (p0 p1 : ThreadPc) (x y : ℕ) (w0 w1 : Bool) (r0 r1 b0 b1 e i : ℕ)
    → Inv (state x y w0 w1 r0 r1 b0 b1 e p0 p1 waits_first i)
    → Inv (main_step waits_first (state x y w0 w1 r0 r1 b0 b1 e p0 p1 waits_first i))
unfolding main_step check
waits_first-Inv p0 p1 x y w0 w1 r0 r1 b0 b1 e i v = ground arith

waits_second-Inv :
    (p0 p1 : ThreadPc) (x y : ℕ) (w0 w1 : Bool) (r0 r1 b0 b1 e i : ℕ)
    → Inv (state x y w0 w1 r0 r1 b0 b1 e p0 p1 waits_second i)
    → Inv (main_step waits_second (state x y w0 w1 r0 r1 b0 b1 e p0 p1 waits_second i))
unfolding main_step check
waits_second-Inv p0 p1 x y w0 w1 r0 r1 b0 b1 e i v = ground arith

checks-Inv :
    (p0 p1 : ThreadPc) (x y : ℕ) (w0 w1 : Bool) (r0 r1 b0 b1 e i : ℕ)
    → Inv (state x y w0 w1 r0 r1 b0 b1 e p0 p1 checks i)
    → Inv (main_step checks (state x y w0 w1 r0 r1 b0 b1 e p0 p1 checks i))
unfolding main_step check
checks-Inv p0 p1 x y w0 w1 r0 r1 b0 b1 e i v = ground arith

detected-Inv :
    (p0 p1 : ThreadPc) (x y : ℕ) (w0 w1 : Bool) (r0 r1 b0 b1 e i : ℕ)
    → Inv (state x y w0 w1 r0 r1 b0 b1 e p0 p1 detected i)
    → Inv (main_step detected (state x y w0 w1 r0 r1 b0 b1 e p0 p1 detected i))
unfolding main_step check
detected-Inv p0 p1 x y w0 w1 r0 r1 b0 b1 e i v = ground arith

finished-Inv :
    (p0 p1 : ThreadPc) (x y : ℕ) (w0 w1 : Bool) (r0 r1 b0 b1 e i : ℕ)
    → Inv (state x y w0 w1 r0 r1 b0 b1 e p0 p1 finished i)
    → Inv (main_step finished (state x y w0 w1 r0 r1 b0 b1 e p0 p1 finished i))
unfolding main_step check
finished-Inv p0 p1 x y w0 w1 r0 r1 b0 b1 e i v = ground arith

main_step-Inv :
    (m : MainPc) (p0 p1 : ThreadPc) (x y : ℕ) (w0 w1 : Bool) (r0 r1 b0 b1 e i : ℕ)
    → Inv (state x y w0 w1 r0 r1 b0 b1 e p0 p1 m i)
    → Inv (main_step m (state x y w0 w1 r0 r1 b0 b1 e p0 p1 m i))
main_step-Inv resets_x p0 p1 x y w0 w1 r0 r1 b0 b1 e i v =
    resets_x-Inv p0 p1 x y w0 w1 r0 r1 b0 b1 e i v
main_step-Inv resets_y p0 p1 x y w0 w1 r0 r1 b0 b1 e i v =
    resets_y-Inv p0 p1 x y w0 w1 r0 r1 b0 b1 e i v
main_step-Inv posts0 p0 p1 x y w0 w1 r0 r1 b0 b1 e i v =
    posts0-Inv p0 p1 x y w0 w1 r0 r1 b0 b1 e i v
main_step-Inv posts1 p0 p1 x y w0 w1 r0 r1 b0 b1 e i v =
    posts1-Inv p0 p1 x y w0 w1 r0 r1 b0 b1 e i v
main_step-Inv waits_first p0 p1 x y w0 w1 r0 r1 b0 b1 e i v =
    waits_first-Inv p0 p1 x y w0 w1 r0 r1 b0 b1 e i v
main_step-Inv waits_second p0 p1 x y w0 w1 r0 r1 b0 b1 e i v =
    waits_second-Inv p0 p1 x y w0 w1 r0 r1 b0 b1 e i v
main_step-Inv checks p0 p1 x y w0 w1 r0 r1 b0 b1 e i v =
    checks-Inv p0 p1 x y w0 w1 r0 r1 b0 b1 e i v
main_step-Inv detected p0 p1 x y w0 w1 r0 r1 b0 b1 e i v =
    detected-Inv p0 p1 x y w0 w1 r0 r1 b0 b1 e i v
main_step-Inv finished p0 p1 x y w0 w1 r0 r1 b0 b1 e i v =
    finished-Inv p0 p1 x y w0 w1 r0 r1 b0 b1 e i v

drain0-Inv :
    (m : MainPc) (p0 p1 : ThreadPc) (x y : ℕ) (w0 w1 : Bool) (r0 r1 b0 b1 e i : ℕ)
    → Inv (state x y w0 w1 r0 r1 b0 b1 e p0 p1 m i)
    → Inv (drain0 (state x y w0 w1 r0 r1 b0 b1 e p0 p1 m i))
unfolding drain0
drain0-Inv m p0 p1 x y w0 w1 r0 r1 b0 b1 e i v = ground arith

drain1-Inv :
    (m : MainPc) (p0 p1 : ThreadPc) (x y : ℕ) (w0 w1 : Bool) (r0 r1 b0 b1 e i : ℕ)
    → Inv (state x y w0 w1 r0 r1 b0 b1 e p0 p1 m i)
    → Inv (drain1 (state x y w0 w1 r0 r1 b0 b1 e p0 p1 m i))
unfolding drain1
drain1-Inv m p0 p1 x y w0 w1 r0 r1 b0 b1 e i v = ground arith

step-Inv : (a : Actor) (s : State) → Inv s → Inv (step a s)
unfolding step
step-Inv main_thread s v =
    main_step-Inv s.pc s.pc0 s.pc1 s.x s.y s.pending0 s.pending1 s.read0 s.read1 s.sem_begin0
      s.sem_begin1 s.sem_end s.i v
step-Inv thread0 s v =
    thread0_impl-Inv s.pc0 s.pc s.pc1 s.x s.y s.pending0 s.pending1 s.read0 s.read1 s.sem_begin0
      s.sem_begin1 s.sem_end s.i v
step-Inv thread1 s v =
    thread1_impl-Inv s.pc1 s.pc s.pc0 s.x s.y s.pending0 s.pending1 s.read0 s.read1 s.sem_begin0
      s.sem_begin1 s.sem_end s.i v
step-Inv buffer0 s v =
    drain0-Inv s.pc s.pc0 s.pc1 s.x s.y s.pending0 s.pending1 s.read0 s.read1 s.sem_begin0
      s.sem_begin1 s.sem_end s.i v
step-Inv buffer1 s v =
    drain1-Inv s.pc s.pc0 s.pc1 s.x s.y s.pending0 s.pending1 s.read0 s.read1 s.sem_begin0
      s.sem_begin1 s.sem_end s.i v

-- Every state of every schedule meets the invariant: which thread stands where, what the
-- semaphores count, what the variables show, and that of two reads that have been made at least
-- one has read 1.
pub run-Inv : (schedule : List Actor) (s : State) → Inv s → Inv (run schedule s)
unfolding run
run-Inv [] s v = v
run-Inv (a ∷ schedule) s v = run-Inv schedule (step a s) (step-Inv a s v)

pub init-Inv : Inv init
init-Inv = ground arith

-- Whatever the schedule is, and whenever the buffered writes reach the memory, the program does not
-- reach the report that a reordering happened.
pub run-detected : (schedule : List Actor) → (run schedule init).pc ≢ detected
run-detected schedule = (run-Inv schedule init init-Inv).not_detected
