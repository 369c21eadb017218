-- ===== src/Alloc/Client/Invariant.antt =====
-- The heap that a client can meet.
use low_level_programming.Base.{
  ℕ, ◌+◌, ◌%◌, ◌≤◌, ◌<◌, ◌≡◌, ◌≢◌, ◌⊎◌, Bool, true, List, [], ◌∷◌, All, some,
}
use low_level_programming.Alloc.{Ptr, SysCall, mapped, State, Run, ok}
use low_level_programming.Alloc.Sizes.{contents_offset, size_mod, heap_start}
use low_level_programming.Alloc.Chain.{Block, first}
use low_level_programming.Alloc.Chain.Paged.{OnPages}
use low_level_programming.Alloc.Region.{Os}
use low_level_programming.Alloc.Region.Map.{fresh_block}
use low_level_programming.Alloc.Client.{Live}
use low_level_programming.Alloc.Client.Forest.{HoldsAll, Separate, AllApart, count, head}
use low_level_programming.Alloc.Client.InUse.{HasAll}

-- The bytes from `p` on are in none of the mappings that were made. Nothing is unmapped in a session.
abbrev pub Fresh : Ptr → ℕ → List SysCall → Type 0
Fresh p n [] = Unit {0}
Fresh p n (mapped a m ∷ calls) = ((p + n ≤ a) ⊎ (a + m ≤ p)) × Fresh p n calls
Fresh p n (_ ∷ calls) = Fresh p n calls

-- What is documented of the system: a mapping is not at `NULL`, ends in the address space, overlaps
-- no mapping that there is, starts on a page, and stands where the flag `MAP_FIXED_NOREPLACE` demands it.
pub record IsSystem (os : Os) : Type 0 where
  pub page_pos : 0 < os.page_size
  pub grants :
      (calls : List SysCall) (a n p : ℕ) (f : Bool)
      → os.mmap calls a n f ≡ some p
      → (0 < p) × (p + n < size_mod) × Fresh p n calls
  pub aligned :
      (calls : List SysCall) (a n p : ℕ) (f : Bool)
      → os.mmap calls a n f ≡ some p
      → p % os.page_size ≡ 0
  pub at : (calls : List SysCall) (a n p : ℕ) → os.mmap calls a n true ≡ some p → p ≡ a

-- No two pointers are the same.
abbrev pub Distinct : List Live → Type 0
Distinct [] = Unit {0}
Distinct (l ∷ ls) = All (λ m. m.ptr ≢ l.ptr) ls × Distinct ls

-- The heap of a client that holds `live`: chains of at most `n` blocks. The first chain starts at the
-- heap's address, and each of its blocks on a page or where the block in front of it ends. No two
-- blocks overlap, and none reaches into memory that is not mapped; each pointer stands for a block in
-- use of its own.
pub record ValidAt (page : ℕ) (chains : List (List Block)) (n : ℕ) (live : List Live) (s : State)
    : Type 0 where
  pub starts : first (head chains) ≡ heap_start
  pub paged : OnPages page 0 (head chains)
  pub few : count chains ≤ n
  pub holds : HoldsAll s.cell chains
  pub separate : Separate chains
  pub covered :
      (p m : ℕ) → contents_offset ≤ m → Fresh p m s.calls → AllApart (fresh_block p m) chains
  pub has : All (λ l. HasAll l chains) live
  pub distinct : Distinct live

pub record Valid (page n : ℕ) (live : List Live) (s : State) : Type 0 where
  pub chains : List (List Block)
  pub valid : ValidAt page chains n live s

pub All-map :
    {P Q : Live → Type 0} (ls : List Live) → All P ls → ((l : Live) → P l → Q l) → All Q ls
All-map [] h f = tt
All-map (l ∷ ls) h f = (f l h.0, All-map ls h.1 f)

-- A call of the client ends, and the heap has at most two blocks more.
pub record Stepped (page n : ℕ) (r : Run (List Live)) : Type 0 where
  pub now : List Live
  pub s : State
  pub returns : r ≡ ok now s
  pub valid : Valid page (n + 2) now s
