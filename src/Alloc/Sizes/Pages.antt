-- ===== src/Alloc/Sizes/Pages.antt =====
-- The page arithmetic of `mem.c` does not wrap on sizes a page below 2 ^ 64.
use native.Mathlib.Nat.{div-add-mod, mod-lt, mod-eq_of_lt, mul-mod_right}
use low_level_programming.Base.{
  ℕ, ◌+◌, ◌*◌, ◌/◌, ◌%◌, ◌≤◌, ◌<◌, ◌≡◌, inl, inr, arith, ltb, if◌then◌else◌, Bool-cases,
}
use low_level_programming.Alloc.Sizes.{
  size_mod, add_size, pages_count, round_pages, region_actual_size, region_min_size,
}

module _ (page mem : ℕ) (pos : 0 < page) (fit : mem + page ≤ size_mod) where
  -- The number of pages, before it is cut to 64 bits.
  abbrev pages : ℕ
  pages = mem / page + (if ltb 0 (mem % page) then 1 else 0)

  split : page * (mem / page) + mem % page ≡ mem
  split = div-add-mod mem page

  whole : (mem ≤ page * pages) × (page * pages < mem + page)
  whole = elim (Bool-cases (ltb 0 (mem % page))) [
    | inl e ↦
        let below : mem % page < page = mod-lt mem pos in
        rw e (omega (arith, split), ground (arith, split))
    | inr e ↦ rw e (ground (arith, split), omega (arith, split))
  ]

  count-lt : pages < size_mod
  count-lt = let h : pages ≤ page * pages = grind arith in omega (arith, whole)

  -- `round_pages` is the least multiple of the page size that is no smaller than its argument.
  pub round_pages_lem :
      (mem ≤ round_pages page mem)
      × (round_pages page mem < mem + page)
      × (round_pages page mem % page ≡ 0)
  unfolding round_pages pages_count
  round_pages_lem =
      let same : add_size (mem / page) (if ltb 0 (mem % page) then 1 else 0) ≡ pages =
        mod-eq_of_lt count-lt in
      let fits : page * pages < size_mod = omega (arith, whole) in
      rw (same, mod-eq_of_lt fits) (whole.0, whole.1, mul-mod_right page pages)

  -- A region has room for what is asked for, at least the smallest size, and no wrap.
  pub region_actual_size-bounds :
      (mem ≤ region_actual_size page mem)
      × (region_min_size ≤ region_actual_size page mem)
      × (region_actual_size page mem < mem + page + region_min_size)
  unfolding region_actual_size
  region_actual_size-bounds = ground (arith, round_pages_lem)
