-- ===== src/Seminar8/Mutex.antt =====
-- `seminar8/task05/task05.c`: two threads that print a word ten times, character by character,
-- under a mutex. The standard output is the list of the codes that were written.
pub mod Words
pub mod Progress
use low_level_programming.Base.{
  ℕ, zero, suc, ◌+◌, Bool, true, false, List, [], ◌∷◌, ◌++◌, ltb, if◌then◌else◌,
}

-- Where a thread stands: at `pthread_mutex_lock`, in `bad_print` with the characters from `*s` on,
-- at `pthread_mutex_unlock`, at its end.
pub data ThreadPc : Type 0 where
  locks : ThreadPc
  prints : (s : List ℕ) → ThreadPc
  unlocks : ThreadPc
  returned : ThreadPc

-- The thread that prints `Hello`, and the one that prints `World!`.
pub data Who : Type 0 where
  t1 t2 : Who

abbrev pub word : Who → List ℕ
word t1 = 72 ∷ 101 ∷ 108 ∷ 108 ∷ 111 ∷ 10 ∷ []
word t2 = 87 ∷ 111 ∷ 114 ∷ 108 ∷ 100 ∷ 33 ∷ 10 ∷ []

pub record Thread : Type 0 where
  pub pc : ThreadPc
  pub i : ℕ

pub record Shared : Type 0 where
  pub locked : Bool
  pub stdout : List ℕ

abbrev pub rounds : ℕ
rounds = 10

-- A round of `bad_print`.
unfoldable pub bad_print : List ℕ → ℕ → Shared → Thread × Shared
bad_print [] i m = (record { pc = unlocks; i = i }, m)
bad_print (c ∷ s) i m = (record { pc = prints s; i = i }, record m { stdout = m.stdout ++ c ∷ [] })

-- A step of a thread; `pthread_mutex_lock` does not step while the mutex is locked.
unfoldable pub my_thread : (text : List ℕ) → ThreadPc → ℕ → Shared → Thread × Shared
my_thread text locks i m =
    if m.locked
    then (record { pc = locks; i = i }, m)
    else (record { pc = prints text; i = i }, record m { locked = true })
my_thread text (prints s) i m = bad_print s i m
my_thread text unlocks i m = (
  record { pc = if ltb (i + 1) rounds then locks else returned; i = i + 1 },
  record m { locked = false },
)
my_thread text returned i m = (record { pc = returned; i = i }, m)

pub record State : Type 0 where
  pub first : Thread
  pub second : Thread
  pub shared : Shared

unfoldable pub step : Who → State → State
step t1 s =
    let (t, m) = my_thread (word t1) s.first.pc s.first.i s.shared in
    record s { first = t; shared = m }
step t2 s =
    let (t, m) = my_thread (word t2) s.second.pc s.second.i s.shared in
    record s { second = t; shared = m }

-- The scheduler's choices.
unfoldable pub run : List Who → State → State
run [] s = s
run (w ∷ schedule) s = run schedule (step w s)

abbrev pub main : State
main = record {
  first = record { pc = locks; i = 0 };
  second = record { pc = locks; i = 0 };
  shared = record { locked = false; stdout = [] };
}
