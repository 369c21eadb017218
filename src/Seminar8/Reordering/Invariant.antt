-- ===== src/Seminar8/Reordering/Invariant.antt =====
-- What holds of every state that `cpu-reordering.c` reaches.
use low_level_programming.Base.{ℕ, ◌+◌, ◌≤◌, ◌≡◌, ◌≢◌, ◌⊎◌, Bool, true, false, ◌==◌, if◌then◌else◌}
use low_level_programming.Seminar8.Reordering.{
  ThreadPc, waits, writes, fences, reads, posts, MainPc, resets_x, resets_y, posts1, waits_first,
  waits_second, checks, detected, finished, State,
}

-- How far a thread is in the round: 0 before it is started, 1 when it may start, 2 before its write,
-- 3 at the fence, 4 before its read, 5 before it posts, 6 at the end.
abbrev pub stage : (started : Bool) → (sem : ℕ) → ThreadPc → ℕ
stage false sem pc = 0
stage true sem waits = if sem == 0 then 6 else 1
stage true sem writes = 2
stage true sem fences = 3
stage true sem reads = 4
stage true sem posts = 5

abbrev pub started0 : MainPc → Bool
started0 posts1 = true
started0 waits_first = true
started0 waits_second = true
started0 checks = true
started0 _ = false

abbrev pub started1 : MainPc → Bool
started1 waits_first = true
started1 waits_second = true
started1 checks = true
started1 _ = false

-- How often the main thread has taken `sem_end` in the round.
abbrev pub taken : MainPc → ℕ
taken waits_second = 1
taken checks = 2
taken _ = 0

abbrev pub ended : ℕ → ℕ
ended st = if st == 6 then 1 else 0

abbrev pub stage0 : State → ℕ
stage0 s = stage (started0 s.pc) s.sem_begin0 s.pc0

abbrev pub stage1 : State → ℕ
stage1 s = stage (started1 s.pc) s.sem_begin1 s.pc1

-- A thread that has not been started waits; one that has been has at most one start before it.
abbrev pub IsIdle : ℕ → ThreadPc → Type 0
IsIdle sem pc = (sem ≡ 0) × (pc ≡ waits)

abbrev pub IsBusy : ℕ → ThreadPc → Type 0
IsBusy sem waits = sem ≤ 1
IsBusy sem _ = sem ≡ 0

abbrev pub IsSane : Bool → ℕ → ThreadPc → Type 0
IsSane false sem pc = IsIdle sem pc
IsSane true sem pc = IsBusy sem pc

-- A variable is 1 once its thread's write has reached the memory; the write is pending at the fence
-- only. Before the round starts the variable is being reset.
abbrev pub Shows : MainPc → ℕ → (pending : Bool) → ℕ → Type 0
Shows resets_x st w v = w ≡ false
Shows resets_y st w v = w ≡ false
Shows detected st w v = w ≡ false
Shows finished st w v = w ≡ false
Shows _ st w v =
    (st ≤ 2 → (v ≡ 0) × (w ≡ false))
    × (st ≡ 3 → w ≡ false → v ≡ 1)
    × (4 ≤ st → (v ≡ 1) × (w ≡ false))

abbrev pub IsReset : MainPc → ℕ → Type 0
IsReset resets_y x = x ≡ 0
IsReset _ x = Unit

pub record Inv (s : State) : Type 0 where
  pub sane0 : IsSane (started0 s.pc) s.sem_begin0 s.pc0
  pub sane1 : IsSane (started1 s.pc) s.sem_begin1 s.pc1
  pub ends : s.sem_end + taken s.pc ≡ ended (stage0 s) + ended (stage1 s)
  pub reset : IsReset s.pc s.x
  pub shows_x : Shows s.pc (stage0 s) s.pending0 s.x
  pub shows_y : Shows s.pc (stage1 s) s.pending1 s.y
  pub one_reads : 5 ≤ stage0 s → 5 ≤ stage1 s → (s.read0 ≡ 1) ⊎ (s.read1 ≡ 1)
  pub not_detected : s.pc ≢ detected

abbrev pub state :
    (x y : ℕ) (w0 w1 : Bool) (r0 r1 b0 b1 e : ℕ) (p0 p1 : ThreadPc) (m : MainPc) (i : ℕ) → State
state x y w0 w1 r0 r1 b0 b1 e p0 p1 m i = record {
  x = x;
  y = y;
  pending0 = w0;
  pending1 = w1;
  read0 = r0;
  read1 = r1;
  sem_begin0 = b0;
  sem_begin1 = b1;
  sem_end = e;
  pc0 = p0;
  pc1 = p1;
  pc = m;
  i = i;
}
