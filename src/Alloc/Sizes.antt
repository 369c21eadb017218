-- ===== src/Alloc/Sizes.antt =====
-- Sizes: the inline functions of `mem_internals.h` and `util.h`, and the page arithmetic of `mem.c`.
pub mod Pages
pub use low_level_programming.Base.Words.{size_mod, add_size, sub_size}
use low_level_programming.Base.{ℕ, ◌+◌, ◌-◌, ◌*◌, ◌/◌, ◌%◌, ◌^◌, ltb, leb, if◌then◌else◌}

-- `offsetof(struct block_header, contents)`: a pointer, a `size_t` and a `bool` stand before it.
abbrev pub contents_offset : ℕ
contents_offset = 17

abbrev pub block_min_capacity : ℕ
block_min_capacity = 24

abbrev pub region_min_size : ℕ
region_min_size = 2 * 4096

abbrev pub heap_start : ℕ
heap_start = 0x04040000

abbrev pub size_max : ℕ → ℕ → ℕ
size_max x y = if leb y x then x else y

abbrev pub size_from_capacity : ℕ → ℕ
size_from_capacity cap = add_size cap contents_offset

abbrev pub capacity_from_size : ℕ → ℕ
capacity_from_size sz = sub_size sz contents_offset

-- `page` is what `getpagesize()` returns.
module _ (page : ℕ) where
  unfoldable pub pages_count : ℕ → ℕ
  pages_count mem = add_size (mem / page) (if ltb 0 (mem % page) then 1 else 0)

  unfoldable pub round_pages : ℕ → ℕ
  round_pages mem = (page * pages_count mem) % size_mod

  unfoldable pub region_actual_size : ℕ → ℕ
  unfolding round_pages pages_count
  region_actual_size query = size_max (round_pages query) region_min_size
