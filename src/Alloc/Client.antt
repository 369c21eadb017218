-- ===== src/Alloc/Client.antt =====
-- A client of the allocator: any sequence of calls of `_malloc` and `_free` behind `heap_init`.
pub mod Forest
pub mod Swap
pub mod InUse
pub mod Invariant
pub mod Served
pub mod Cut
pub mod Requests
pub mod Grows
pub mod Releases
pub mod Session
pub mod Ends
mod Tests
use low_level_programming.Base.{
  ℕ, zero, suc, Option, none, some, List, [], ◌∷◌, ◌==◌, if◌then◌else◌, get_elem?,
}
use low_level_programming.Alloc.{Ptr, null, Cmd, pure, ◌>>=◌, ◌>>◌}
use low_level_programming.Alloc.Blocks.{free}
use low_level_programming.Alloc.Region.{Os, heap_init}
use low_level_programming.Alloc.Heap.{malloc}

-- What the client holds: a pointer that `_malloc` has returned, and the size it asked for.
pub record Live : Type 0 where
  pub ptr : Ptr
  pub size : ℕ

abbrev pub live_at : Ptr → ℕ → Live
live_at p n = record { ptr = p; size = n }

-- A call of `_malloc`, or of `_free` on what the client holds at an index.
pub data Call : Type 0 where
  requests : ℕ → Call
  releases : ℕ → Call

abbrev pub remove_at : List Live → ℕ → List Live
remove_at [] i = []
remove_at (l ∷ ls) zero = ls
remove_at (l ∷ ls) (suc i) = l ∷ remove_at ls i

module _ (os : Os) (fuel : ℕ) where
  unfoldable pub request_call : ℕ → List Live → Cmd (List Live)
  request_call query live = do
    p ← malloc os fuel query
    pure (if p == null then live else live_at p query ∷ live)

  unfoldable pub release_call : ℕ → List Live → Cmd (List Live)
  release_call i live = elim (get_elem? live i) [
    | none ↦ pure live
    | some l ↦ do free fuel l.ptr; pure (remove_at live i)
  ]

  unfoldable pub session : List Call → List Live → Cmd (List Live)
  session [] live = pure live
  session (requests query ∷ calls) live = do now ← request_call query live; session calls now
  session (releases i ∷ calls) live = do now ← release_call i live; session calls now

  unfoldable pub client : (initial : ℕ) → List Call → Cmd (List Live)
  client initial calls = do heap_init os initial; session calls []
