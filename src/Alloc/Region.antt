-- ===== src/Alloc/Region.antt =====
-- Regions of `mem.c`: `map_pages`, `alloc_region` and `heap_init`, over an abstract operating
-- system.
pub mod Map
use low_level_programming.Base.{
  ℕ, Bool, true, false, Option, none, some, List, ◌∷◌, ◌==◌, if◌then◌else◌,
}
use low_level_programming.Alloc.{
  Ptr, null, SysCall, mapped, map_failed, State, ok, Cmd, pure, ◌>>=◌, ◌>>◌,
}
use low_level_programming.Alloc.Sizes.{add_size, contents_offset, heap_start, region_actual_size}
use low_level_programming.Alloc.Blocks.{block_init}

-- What the allocator asks of the operating system. `mmap` is given the calls made so far, the
-- address, the length and whether the flag `MAP_FIXED_NOREPLACE` is set; `none` is `MAP_FAILED`.
pub record Os : Type 0 where
  pub page_size : ℕ
  pub mmap : List SysCall → Ptr → ℕ → Bool → Option Ptr

-- `struct region`
pub record Region : Type 0 where
  pub addr : Ptr
  pub size : ℕ
  pub extends : Bool

abbrev pub region : Ptr → ℕ → Bool → Region
region a n e = record { addr = a; size = n; extends = e }

abbrev pub region_is_invalid : Region → Bool
region_is_invalid r = r.addr == null

abbrev pub record_call : SysCall → State → State
record_call c s = record s { calls = c ∷ s.calls }

module _ (os : Os) where
  unfoldable pub map_pages : Ptr → ℕ → Bool → Cmd (Option Ptr)
  map_pages addr length fixed s = elim (os.mmap s.calls addr length fixed) [
    | none ↦ ok none (record_call (map_failed addr length) s)
    | some a ↦ ok (some a) (record_call (mapped a length) s)
  ]

  -- The block that fills a new region, and the region.
  abbrev pub init_region : Ptr → ℕ → Bool → Cmd Region
  init_region a size extends = do block_init a size null; pure (region a size extends)

  unfoldable pub alloc_region : Ptr → ℕ → Cmd Region
  alloc_region addr query = do
    let size = region_actual_size os.page_size (add_size query contents_offset)
    fixed ← map_pages addr size true
    elim fixed [
      | some a ↦ init_region a size true
      | none ↦ do
        anywhere ← map_pages addr size false
        elim anywhere [ some a ↦ init_region a size false | none ↦ pure (region null 0 false) ]
    ]

  unfoldable pub heap_init : ℕ → Cmd Ptr
  heap_init initial = do
    r ← alloc_region heap_start initial
    pure (if region_is_invalid r then null else r.addr)
