-- ===== src/Alloc/Debug/Listing.antt =====
-- The listing of the heap, against the list of blocks.
use low_level_programming.Base.{
  ℕ, zero, suc, ◌+◌, ◌<◌, ◌≡◌, refl, ap, true, List, [], ◌∷◌, arith, ltb, length, map, take,
}
use low_level_programming.Alloc.{Ptr, State, ok}
use low_level_programming.Alloc.Sizes.{add_size, size_mod, contents_offset}
use low_level_programming.Alloc.Chain.{Block, end_of, first, header_of, Holds, Layout}
use low_level_programming.Alloc.Blocks.Merge.{load-ok, not_null}
use low_level_programming.Alloc.Debug.{
  Line, title, heading, info, debug_first_bytes, first_bytes, debug_struct_info, debug_loop,
  debug_heap,
}

module _ (byte : Ptr → ℕ) where
  -- The `n` bytes from an address on.
  abbrev pub bytes_from : Ptr → ℕ → List ℕ
  bytes_from p zero = []
  bytes_from p (suc n) = byte p ∷ bytes_from (p + 1) n

  -- What is printed of a block: its header, and the first of its contents.
  abbrev pub line_of : Block → Line
  line_of b =
      info b.addr b.capacity b.is_free
        (take debug_first_bytes (bytes_from (b.addr + contents_offset) b.capacity))

  first_bytes-take :
      (left i rest capacity : ℕ) (p q : Ptr)
      → i + rest ≡ capacity
      → p + i ≡ q
      → q + rest < size_mod
      → first_bytes byte left i capacity p ≡ take left (bytes_from q rest)
  unfolding first_bytes
  first_bytes-take zero i rest capacity p q e at fit = refl
  first_bytes-take (suc left) i zero capacity p q e at fit = ground arith
  first_bytes-take (suc left) i (suc rest) capacity p q e at fit =
      let more : first_bytes byte left (i + 1) capacity p ≡ take left (bytes_from (q + 1) rest) =
        first_bytes-take left (i + 1) rest capacity p (q + 1) (omega arith) (omega arith)
          (omega arith) in
      let here : add_size p i ≡ q = omega arith in
      let inside : ltb i capacity ≡ true = ground arith in rw (inside, here, more) refl

  debug_struct_info-line :
      (b : Block) (bs : List Block) (s : State)
      → 0 < b.addr
      → end_of b < size_mod
      → Holds s.cell (b ∷ bs)
      → debug_struct_info byte b.addr s ≡ ok (line_of b) s
  unfolding debug_struct_info
  debug_struct_info-line b bs s pos fit k =
      let at : add_size b.addr contents_offset ≡ b.addr + contents_offset = omega arith in
      rw (load-ok b.addr (header_of b bs) s pos k.0, at)
        (ap (λ l. ok (info b.addr b.capacity b.is_free l) s)
          (first_bytes-take debug_first_bytes 0 b.capacity b.capacity _ _ (omega arith)
            (omega arith) (omega arith)))

  debug_loop-lines :
      (fuel : ℕ) (bs : List Block) (s : State)
      → length bs < fuel
      → Layout bs
      → Holds s.cell bs
      → debug_loop byte fuel (first bs) s ≡ ok (map line_of bs) s
  unfolding debug_loop
  debug_loop-lines zero bs s f l k = absurd (omega arith)
  debug_loop-lines (suc fuel) [] s f l k = refl
  debug_loop-lines (suc fuel) (b ∷ bs) s f l k =
      rw
        (
          not_null b.addr l.0,
          debug_struct_info-line b bs s l.0 l.1 k,
          load-ok b.addr (header_of b bs) s l.0 k.0,
          debug_loop-lines fuel bs s (omega arith) l.3 k.1,
        )
        refl

  -- `debug_heap` ends without a fault on a list of blocks: behind the two lines of its heading it
  -- prints one line for each block, in order, with the first bytes of the contents, at most 4 and
  -- none behind the block. The fuel exceeds the number of blocks.
  pub debug_heap-lines :
      (fuel : ℕ) (bs : List Block) (s : State)
      → length bs < fuel
      → Layout bs
      → Holds s.cell bs
      → debug_heap byte fuel (first bs) s ≡ ok (title ∷ heading ∷ map line_of bs) s
  unfolding debug_heap
  debug_heap-lines fuel bs s f l k = rw (debug_loop-lines fuel bs s f l k) refl
