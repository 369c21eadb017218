-- ===== src/Alloc.antt =====
-- The data of `Memory Allocator C/src/mem.c`, `mem_internals.h`, `mem.h` and `util.h`: block
-- headers in memory, the system calls made so far, and commands that read and write them.
pub mod Sizes
pub mod Chain
pub mod Region
pub mod Blocks
pub mod Heap
pub mod Term
pub mod Program
pub mod Debug
pub mod Client
mod Tests
use low_level_programming.Base.{
  ℕ, ◌+◌, ◌≤◌, Bool, true, false, Option, none, some, List, [], ◌∷◌, ◌++◌, ◌==◌, if◌then◌else◌, ltb,
  leb, ◌&&◌,
}

abbrev pub Ptr : Type 0
Ptr = ℕ

abbrev pub null : Ptr
null = 0

-- `struct block_header`; its `contents` are the bytes behind it.
pub record Header : Type 0 where
  pub next : Ptr
  pub capacity : ℕ
  pub is_free : Bool

abbrev pub header : Ptr → ℕ → Bool → Header
header n c f = record { next = n; capacity = c; is_free = f }

-- The system calls, with their results.
pub data SysCall : Type 0 where
  mapped : Ptr → ℕ → SysCall
  map_failed : Ptr → ℕ → SysCall
  unmapped : Ptr → ℕ → SysCall

abbrev pub Cells : Type 0
Cells = Ptr → Option Header

-- The headers in memory, and the system calls so far, the latest first.
pub record State : Type 0 where
  pub cell : Cells
  pub calls : List SysCall

pub data Run (A : Type 0) : Type 0 where
  ok : A → State → Run A
  fault : Run A
  out_of_fuel : Run A

abbrev pub Cmd : Type 0 → Type 0
Cmd A = State → Run A

abbrev pub pure : {A : Type 0} → A → Cmd A
pure a s = ok a s

abbrev pub continue : {A B : Type 0} → Run A → (A → Cmd B) → Run B
continue (ok a s) k = k a s
continue fault k = fault
continue out_of_fuel k = out_of_fuel

infixl 5 ◌>>=◌ ◌>>◌
abbrev pub ◌>>=◌ : {A B : Type 0} → Cmd A → (A → Cmd B) → Cmd B
◌>>=◌ m k s = continue (m s) k

abbrev pub ◌>>◌ : {A B : Type 0} → Cmd A → Cmd B → Cmd B
m >> k = m >>= λ _. k

abbrev pub update : Cells → Ptr → Header → Cells
update c p h q = if p == q then some h else c q

-- `*p`: a fault at `NULL` and where memory holds no header.
unfoldable pub load : Ptr → Cmd Header
load p s = if p == null then fault else elim (s.cell p) [ none ↦ fault | some h ↦ ok h s ]

-- `*p = h`: a fault at `NULL`. Elsewhere the write makes a header, also where no page is mapped.
unfoldable pub store : Ptr → Header → Cmd (Unit {0})
store p h s = if p == null then fault else ok tt (record s { cell = update s.cell p h })
