-- ===== src/Alloc/Debug.antt =====
-- `mem_debug.c`: what it prints of the heap, line by line. A command returns the lines it prints.
pub mod Listing
mod Tests
use low_level_programming.Base.{
  ℕ, zero, suc, ◌+◌, Bool, true, false, not, List, [], ◌∷◌, ◌==◌, if◌then◌else◌, ltb,
}
use low_level_programming.Alloc.{Ptr, null, Cmd, out_of_fuel, pure, ◌>>=◌, load}
use low_level_programming.Alloc.Sizes.{add_size, contents_offset}

-- A line of the output, before its numbers are formatted; `said` is a caller's message.
pub data Line : Type 0 where
  title heading : Line
  info : (addr : Ptr) (capacity : ℕ) (is_free : Bool) (bytes : List ℕ) → Line
  said : List ℕ → Line

abbrev pub debug_first_bytes : ℕ
debug_first_bytes = 4

-- `byte` is the memory behind the headers.
module _ (byte : Ptr → ℕ) where
  -- The loop of `debug_struct_info` from `i` on, where `left` is `DEBUG_FIRST_BYTES - i`.
  unfoldable pub first_bytes : (left i capacity : ℕ) → Ptr → List ℕ
  first_bytes zero i capacity contents = []
  first_bytes (suc left) i capacity contents =
      if ltb i capacity
      then byte (add_size contents i) ∷ first_bytes left (i + 1) capacity contents
      else []

  unfoldable pub debug_struct_info : Ptr → Cmd Line
  debug_struct_info addr = do
    h ← load addr
    let bytes = first_bytes debug_first_bytes 0 h.capacity (add_size addr contents_offset)
    pure (info addr h.capacity h.is_free bytes)

  unfoldable pub debug_loop : ℕ → Ptr → Cmd (List Line)
  debug_loop zero p = λ _. out_of_fuel
  debug_loop (suc fuel) p = if p == null then pure [] else do
    line ← debug_struct_info p
    h ← load p
    lines ← debug_loop fuel h.next
    pure (line ∷ lines)

  unfoldable pub debug_heap : ℕ → Ptr → Cmd (List Line)
  debug_heap fuel p = do lines ← debug_loop fuel p; pure (title ∷ heading ∷ lines)

  -- `on` tells whether the macro `DEBUG` is defined.
  unfoldable pub debug_block : (on : Bool) → Ptr → List ℕ → Cmd (List Line)
  debug_block on b message =
      if not on then pure [] else do line ← debug_struct_info b; pure (said message ∷ line ∷ [])

unfoldable pub debug : (on : Bool) → List ℕ → List Line
debug on message = if on then said message ∷ [] else []
