-- ===== src/Alloc/Term.antt =====
-- `unmap_from_pointer` and `heap_term` of `mem.c`.
pub mod Parts
pub mod Clear
pub mod Stretches
pub mod Ends
pub mod Pages
mod Tests
use low_level_programming.Base.{ℕ, zero, suc, ◌+◌, not, ◌&&◌, none, ◌==◌, if◌then◌else◌, ltb, leb}
use low_level_programming.Alloc.{
  Ptr, null, unmapped, ok, Cells, Cmd, out_of_fuel, pure, ◌>>=◌, ◌>>◌, load,
}
use low_level_programming.Alloc.Sizes.{add_size, size_from_capacity, heap_start, round_pages}
use low_level_programming.Alloc.Blocks.{blocks_continuous}
use low_level_programming.Alloc.Region.{Os, record_call}

-- Memory without the headers at `len` bytes from `start`.
abbrev pub unmap_cells : Cells → Ptr → ℕ → Cells
unmap_cells c start len a = if leb start a && ltb a (start + len) then none else c a

abbrev pub munmap : Ptr → ℕ → Cmd (Unit {0})
munmap start len s =
    ok tt (record_call (unmapped start len) (record s { cell = unmap_cells s.cell start len }))

-- Where the loop of `unmap_from_pointer` stops.
pub record Stretch : Type 0 where
  pub len : ℕ
  pub next : Ptr

unfoldable pub stretch_loop : ℕ → Ptr → ℕ → Cmd Stretch
stretch_loop zero curr len = λ _. out_of_fuel
stretch_loop (suc fuel) curr len = do
  h ← load curr
  let len' = add_size len (size_from_capacity h.capacity)
  if not (h.next == null) && blocks_continuous curr h h.next
      then stretch_loop fuel h.next len'
      else pure (record { len = len'; next = h.next })

module _ (os : Os) where
  unfoldable pub unmap_from_pointer : ℕ → Ptr → Cmd Ptr
  unmap_from_pointer fuel curr = do
    r ← stretch_loop fuel curr 0
    munmap curr (round_pages os.page_size r.len)
    pure r.next

  unfoldable pub term_loop : ℕ → Ptr → Cmd (Unit {0})
  term_loop zero curr = λ _. out_of_fuel
  term_loop (suc fuel) curr =
      if curr == null then pure tt else do next ← unmap_from_pointer fuel curr; term_loop fuel next

  unfoldable pub heap_term : ℕ → Cmd (Unit {0})
  heap_term fuel = term_loop fuel heap_start
