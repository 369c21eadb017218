-- ===== src/Alloc/Client/Tests.antt =====
-- A system that maps memory upwards from the heap, and a session on it.
use low_level_programming.Base.{
  ℕ, ◌+◌, ◌*◌, ◌/◌, ◌≤◌, ◌<◌, ◌≡◌, ◌||◌, inr, refl, Bool, true, not, ◌&&◌, none, some, List, [],
  ◌∷◌, arith, max, ◌==◌, ltb, if◌then◌else◌,
}
use low_level_programming.Alloc.{Ptr, SysCall, mapped, map_failed, unmapped}
use low_level_programming.Alloc.Sizes.{
  heap_start, size_mod, region_actual_size, round_pages, pages_count,
}
use low_level_programming.Alloc.Region.{Os}
use low_level_programming.Alloc.Client.{Call, requests, releases, client}
use low_level_programming.Alloc.Client.Invariant.{Fresh, IsSystem}
use low_level_programming.Alloc.Client.Session.{EndsApart, empty, client-EndsApart}
use low_level_programming.Alloc.Client.Ends.{EndsUnmapped, client-EndsUnmapped}

-- The end of the memory that has been mapped.
abbrev top : List SysCall → Ptr
top [] = heap_start
top (mapped a n ∷ calls) = max (a + n) (top calls)
top (_ ∷ calls) = top calls

-- The first page behind it.
abbrev next_page : List SysCall → Ptr
next_page calls = 4096 * ((top calls + 4095) / 4096)

abbrev upwards : Os
upwards = record {
  page_size = 4096;
  mmap = λ calls a n fixed.
      if (fixed && not (a == next_page calls)) || not (ltb (next_page calls + n) size_mod)
      then none
      else some (next_page calls);
}

top-le : (calls : List SysCall) → heap_start ≤ top calls
top-le [] = omega arith
top-le (mapped a n ∷ calls) = omega (arith, top-le calls)
top-le (map_failed a n ∷ calls) = top-le calls
top-le (unmapped a n ∷ calls) = top-le calls

top-Fresh : (p n : ℕ) (calls : List SysCall) → top calls ≤ p → Fresh p n calls
top-Fresh p n [] h = tt
top-Fresh p n (mapped a m ∷ calls) h = (inr (omega arith), top-Fresh p n calls (omega arith))
top-Fresh p n (map_failed a m ∷ calls) h = top-Fresh p n calls h
top-Fresh p n (unmapped a m ∷ calls) h = top-Fresh p n calls h

upwards-top :
    (calls : List SysCall) (a n p : ℕ) (f : Bool)
    → upwards.mmap calls a n f ≡ some p
    → (p ≡ next_page calls) × (next_page calls + n < size_mod) × (f ≡ true → a ≡ next_page calls)
upwards-top calls a n p f e = ground arith

upwards-IsSystem : IsSystem upwards
upwards-IsSystem = record {
  page_pos = omega arith;
  grants = λ calls a n p f e.
      let (is_top, fit, at) = upwards-top calls a n p f e in
      (omega (arith, top-le calls), omega arith, top-Fresh p n calls (omega arith));
  aligned = λ calls a n p f e. let (is_next, fit, at) = upwards-top calls a n p f e in omega arith;
  at = λ calls a n p e.
      let (is_top, fit, at) = upwards-top calls a n p true e in let there = at refl in omega arith;
}

-- The last request is served by growing the heap, since the first block is in use and the second
-- is the last.
abbrev calls : List Call
calls = requests 2000 ∷ requests 6000 ∷ releases 1 ∷ requests 9000 ∷ releases 0 ∷ requests 100 ∷ []

client-EndsApart_example : EndsApart 4096 20 (client upwards 20 4096 calls empty)
unfolding region_actual_size round_pages pages_count
client-EndsApart_example =
    client-EndsApart upwards upwards-IsSystem 20 4096 calls (omega arith) refl (omega arith)
      (omega arith, (omega arith, (tt, (omega arith, (tt, (omega arith, tt))))))

client-EndsUnmapped_example : EndsUnmapped upwards 20 (client upwards 20 4096 calls empty)
unfolding region_actual_size round_pages pages_count
client-EndsUnmapped_example =
    client-EndsUnmapped upwards upwards-IsSystem 20 4096 calls (omega arith) refl (omega arith)
      (omega arith, (omega arith, (tt, (omega arith, (tt, (omega arith, tt))))))
