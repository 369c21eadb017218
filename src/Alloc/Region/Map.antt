-- ===== src/Alloc/Region/Map.antt =====
-- `alloc_region` on every answer of the operating system.
use low_level_programming.Base.{
  ℕ, ◌+◌, ◌-◌, ◌≤◌, ◌<◌, ◌≡◌, ◌⊎◌, refl, inl, inr, Bool, true, false, none, some, List, ◌∷◌, arith,
  Option-cases,
}
use low_level_programming.Alloc.{
  Ptr, null, header, SysCall, mapped, map_failed, State, Run, ok, update,
}
use low_level_programming.Alloc.Sizes.{
  size_mod, add_size, contents_offset, capacity_from_size, region_actual_size,
}
use low_level_programming.Alloc.Chain.{Block, block_at, ApartAll}
use low_level_programming.Alloc.Blocks.Merge.{store-ok}
use low_level_programming.Alloc.Region.{Os, Region, region, map_pages, alloc_region}

-- The block that fills a region of `n` bytes.
abbrev pub fresh_block : Ptr → ℕ → Block
fresh_block p n = block_at p (n - contents_offset) true

-- A new mapping is not at `NULL`, ends in the address space, and overlaps no block in memory.
pub record IsNew (p : Ptr) (n : ℕ) (bs : List Block) : Type 0 where
  pub not_null : 0 < p
  pub ends : p + n < size_mod
  pub apart : ApartAll (fresh_block p n) bs

-- What is assumed of the answers to the two calls that `alloc_region` makes in the state `s`, where
-- the blocks `bs` are mapped: a mapping with room for a header is new, and one with `MAP_FIXED_NOREPLACE` is where asked.
pub record Answers (os : Os) (calls : List SysCall) (bs : List Block) : Type 0 where
  pub page_pos : 0 < os.page_size
  pub fixed :
      (a n p : ℕ) → contents_offset ≤ n → os.mmap calls a n true ≡ some p → (p ≡ a) × IsNew p n bs
  pub anywhere :
      (a n p : ℕ)
      → contents_offset ≤ n
      → os.mmap (map_failed a n ∷ calls) a n false ≡ some p
      → IsNew p n bs

-- What was asked of the system, where it gave `n` bytes at `p`: at `a`, or anywhere after that was
-- refused.
pub data Mapped (os : Os) (before : List SysCall) (a n p : ℕ) : Bool → List SysCall → Type 0 where
  asked : os.mmap before a n true ≡ some p → Mapped os before a n p true (mapped p n ∷ before)
  elsewhere :
      os.mmap before a n true ≡ none
      → os.mmap (map_failed a n ∷ before) a n false ≡ some p
      → Mapped os before a n p false (mapped p n ∷ map_failed a n ∷ before)

-- The two outcomes: a region that holds one free block, or none and memory as before.
pub record MappedRegion (os : Os) (size : ℕ) (addr : Ptr) (bs : List Block) (s : State)
    (r : Run Region) : Type 0 where
  pub p : Ptr
  pub extends : Bool
  pub calls : List SysCall
  pub is_new : IsNew p size bs
  pub answered : Mapped os s.calls addr size p extends calls
  pub where_asked : extends ≡ true → p ≡ addr
  pub returns :
      r
      ≡ ok (region p size extends) (record {
        cell = update s.cell p (header null (size - contents_offset) true);
        calls = calls;
      })

pub record NoRegion (os : Os) (size : ℕ) (addr : Ptr) (s : State) (r : Run Region) : Type 0 where
  pub calls : List SysCall
  pub refused : os.mmap s.calls addr size true ≡ none
  pub calls_are : calls ≡ map_failed addr size ∷ map_failed addr size ∷ s.calls
  pub refused_again : os.mmap (map_failed addr size ∷ s.calls) addr size false ≡ none
  pub returns : r ≡ ok (region null 0 false) (record s { calls = calls })

module _ (os : Os) (a : Ptr) (n : ℕ) (f : Bool) (s : State) where
  map_pages-none :
      os.mmap s.calls a n f ≡ none
      → map_pages os a n f s ≡ ok none (record s { calls = map_failed a n ∷ s.calls })
  unfolding map_pages
  map_pages-none e = rw (e, map_pages) refl

  map_pages-some :
      (p : Ptr)
      → os.mmap s.calls a n f ≡ some p
      → map_pages os a n f s ≡ ok (some p) (record s { calls = mapped p n ∷ s.calls })
  unfolding map_pages
  map_pages-some p e = rw (e, map_pages) refl

module _ (os : Os) (addr : Ptr) (q : ℕ) (bs : List Block) (s : State) where
  abbrev pub region_size : ℕ
  region_size = region_actual_size os.page_size (add_size q contents_offset)

  abbrev second : State
  second = record s { calls = map_failed addr region_size ∷ s.calls }

  module _ (ans : Answers os s.calls bs) (big : contents_offset ≤ region_size) where
    size_fits :
        (p : Ptr)
        → IsNew p region_size bs
        → capacity_from_size region_size ≡ region_size - contents_offset
    size_fits p new = omega arith

    -- `alloc_region` ends without a fault: either memory has one more free block, that fills a
    -- region of the computed size, which extends the heap only if it stands where asked; or both
    -- calls were refused, and memory is as before.
    pub alloc_region-MappedRegion :
        MappedRegion os region_size addr bs s (alloc_region os addr q s)
        ⊎ NoRegion os region_size addr s (alloc_region os addr q s)
    unfolding alloc_region
    alloc_region-MappedRegion = elim (Option-cases (os.mmap s.calls addr region_size true)) [
      | inr (p, e) ↦
          let (same, new) = ans.fixed addr region_size p big e in
          inl (record {
            p = p;
            extends = true;
            calls = mapped p region_size ∷ s.calls;
            is_new = new;
            answered = asked e;
            where_asked = λ _. same;
            returns =
                rw
                  (
                    map_pages-some os addr region_size true s p e,
                    store-ok p _ _ new.not_null,
                    size_fits p new,
                  )
                  refl;
          })
      | inl e ↦
          elim (Option-cases
            (os.mmap (map_failed addr region_size ∷ s.calls) addr region_size false)) [
              | inr (p, e') ↦
                  let new = ans.anywhere addr region_size p big e' in
                  inl (record {
                    p = p;
                    extends = false;
                    calls = mapped p region_size ∷ map_failed addr region_size ∷ s.calls;
                    is_new = new;
                    answered = elsewhere e e';
                    where_asked = λ h. cc;
                    returns =
                        rw
                          (
                            map_pages-none os addr region_size true s e,
                            map_pages-some os addr region_size false second p e',
                            store-ok p _ _ new.not_null,
                            size_fits p new,
                          )
                          refl;
                  })
              | inl e' ↦ inr (record {
                calls = map_failed addr region_size ∷ map_failed addr region_size ∷ s.calls;
                refused = e;
                calls_are = refl;
                refused_again = e';
                returns =
                    rw
                      (
                        map_pages-none os addr region_size true s e,
                        map_pages-none os addr region_size false second e',
                      )
                      refl;
              })
            ]
    ]
