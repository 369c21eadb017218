-- ===== src/Seminar8/Reordering.antt =====
-- `seminar8/task4/cpu-reordering.c`: two threads that write one variable and read the other, and
-- the main thread that starts them in rounds. A thread's write goes into the store buffer of its
-- processor, which the other threads do not see, and reaches the memory by a step of its own at any
-- later time; a read does not wait for it. `mfence` waits until the buffer is empty, and so do
-- `sem_post` and `sem_wait`, which are locked instructions. A thread writes only its variable of
-- `x` and `y`, and only 1, so that a buffer is one flag: the write is pending or not. The main
-- thread's writes of `x` and `y` have reached the memory before its `sem_post` starts a thread, and
-- those of `read0` and `read1` before the `sem_post` behind them; no other thread reads in between,
-- and they are written at once.
pub mod Invariant
pub mod Safety
pub mod Progress
use low_level_programming.Base.{
  ℕ, zero, suc, ◌+◌, ◌-◌, ◌≤◌, ◌≡◌, Bool, true, false, ◌&&◌, ◌||◌, List, [], ◌∷◌, ltb, ◌==◌,
  if◌then◌else◌,
}

-- Where a thread stands: at `sem_wait`, before its write, at `mfence`, before its read, at
-- `sem_post`.
pub data ThreadPc : Type 0 where
  waits writes fences reads posts : ThreadPc

-- Where the main thread stands; `detected` is the end by `exit(0)`, `finished` that by `return`.
pub data MainPc : Type 0 where
  resets_x resets_y posts0 posts1 waits_first waits_second checks detected finished : MainPc

pub record State : Type 0 where
  pub x : ℕ
  pub y : ℕ
  pub pending0 : Bool
  pub pending1 : Bool
  pub read0 : ℕ
  pub read1 : ℕ
  pub sem_begin0 : ℕ
  pub sem_begin1 : ℕ
  pub sem_end : ℕ
  pub pc0 : ThreadPc
  pub pc1 : ThreadPc
  pub pc : MainPc
  pub i : ℕ

-- One step of a thread. `sem_wait` on a semaphore at 0 does not step, and neither does `mfence` or
-- a semaphore while the thread's write is pending.
unfoldable pub thread0_impl : ThreadPc → State → State
thread0_impl waits s =
    if s.pending0 || s.sem_begin0 == 0
    then s
    else record s { sem_begin0 = s.sem_begin0 - 1; pc0 = writes }
thread0_impl writes s = record s { pending0 = true; pc0 = fences }
thread0_impl fences s = if s.pending0 then s else record s { pc0 = reads }
thread0_impl reads s = record s { read0 = s.y; pc0 = posts }
thread0_impl posts s = if s.pending0 then s else record s { sem_end = s.sem_end + 1; pc0 = waits }

unfoldable pub thread1_impl : ThreadPc → State → State
thread1_impl waits s =
    if s.pending1 || s.sem_begin1 == 0
    then s
    else record s { sem_begin1 = s.sem_begin1 - 1; pc1 = writes }
thread1_impl writes s = record s { pending1 = true; pc1 = fences }
thread1_impl fences s = if s.pending1 then s else record s { pc1 = reads }
thread1_impl reads s = record s { read1 = s.x; pc1 = posts }
thread1_impl posts s = if s.pending1 then s else record s { sem_end = s.sem_end + 1; pc1 = waits }

abbrev pub iterations : ℕ
iterations = 1000000

-- The end of the body of the loop of `main`.
unfoldable pub check : State → State
check s =
    if s.read0 == 0 && s.read1 == 0
    then record s { pc = detected }
    else if ltb (s.i + 1) iterations
    then record s { i = s.i + 1; pc = resets_x }
    else record s { i = s.i + 1; pc = finished }

unfoldable pub main_step : MainPc → State → State
main_step resets_x s = record s { x = 0; pc = resets_y }
main_step resets_y s = record s { y = 0; pc = posts0 }
main_step posts0 s = record s { sem_begin0 = s.sem_begin0 + 1; pc = posts1 }
main_step posts1 s = record s { sem_begin1 = s.sem_begin1 + 1; pc = waits_first }
main_step waits_first s =
    if s.sem_end == 0 then s else record s { sem_end = s.sem_end - 1; pc = waits_second }
main_step waits_second s =
    if s.sem_end == 0 then s else record s { sem_end = s.sem_end - 1; pc = checks }
main_step checks s = check s
main_step detected s = s
main_step finished s = s

-- A pending write reaches the memory.
unfoldable pub drain0 : State → State
drain0 s = if s.pending0 then record s { x = 1; pending0 = false } else s

unfoldable pub drain1 : State → State
drain1 s = if s.pending1 then record s { y = 1; pending1 = false } else s

-- The choice of the scheduler and of the store buffers.
pub data Actor : Type 0 where
  main_thread thread0 thread1 buffer0 buffer1 : Actor

unfoldable pub step : Actor → State → State
step main_thread s = main_step s.pc s
step thread0 s = thread0_impl s.pc0 s
step thread1 s = thread1_impl s.pc1 s
step buffer0 s = drain0 s
step buffer1 s = drain1 s

unfoldable pub run : List Actor → State → State
run [] s = s
run (a ∷ schedule) s = run schedule (step a s)

-- The semaphores are initialised to 0, and the threads created.
abbrev pub init : State
init = record {
  x = 0;
  y = 0;
  pending0 = false;
  pending1 = false;
  read0 = 0;
  read1 = 0;
  sem_begin0 = 0;
  sem_begin1 = 0;
  sem_end = 0;
  pc0 = waits;
  pc1 = waits;
  pc = resets_x;
  i = 0;
}
