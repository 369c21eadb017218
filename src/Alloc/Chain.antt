-- ===== src/Alloc/Chain.antt =====
-- The list of blocks that the headers in memory stand for, and how it lies in memory.
pub mod Coarser
pub mod Scan
pub mod Fit
pub mod Splice
pub mod Reserve
pub mod Paged
pub mod Kept
use low_level_programming.Base.{
  ℕ, ◌+◌, ◌≤◌, ◌<◌, ◌≡◌, ◌≢◌, ◌⊎◌, Bool, true, false, ◌&&◌, some, List, [], ◌∷◌, ◌==◌,
  if◌then◌else◌,
}
use low_level_programming.Alloc.{Ptr, null, Header, header, Cells}
use low_level_programming.Alloc.Sizes.{size_mod, contents_offset}

pub record Block : Type 0 where
  pub addr : Ptr
  pub capacity : ℕ
  pub is_free : Bool

abbrev pub block_at : Ptr → ℕ → Bool → Block
block_at a c f = record { addr = a; capacity = c; is_free = f }

-- The address behind a block.
abbrev pub end_of : Block → Ptr
end_of b = b.addr + contents_offset + b.capacity

abbrev pub first : List Block → Ptr
first [] = null
first (b ∷ bs) = b.addr

-- The header of a block that stands before `bs`.
abbrev pub header_of : Block → List Block → Header
header_of b bs = header (first bs) b.capacity b.is_free

-- Memory holds the list: from its first block the `next` pointers lead through it to `NULL`.
abbrev pub Holds : Cells → List Block → Type 0
Holds c [] = Unit {0}
Holds c (b ∷ bs) = (c b.addr ≡ some (header_of b bs)) × Holds c bs

abbrev pub Apart : Block → Block → Type 0
Apart b c = (end_of b ≤ c.addr) ⊎ (end_of c ≤ b.addr)

abbrev pub ApartAll : Block → List Block → Type 0
ApartAll b [] = Unit {0}
ApartAll b (c ∷ cs) = Apart b c × ApartAll b cs

-- No block stands at `NULL`, none reaches the end of the address space, and no two overlap.
abbrev pub Layout : List Block → Type 0
Layout [] = Unit {0}
Layout (b ∷ bs) = (0 < b.addr) × (end_of b < size_mod) × ApartAll b bs × Layout bs

-- `c` in front of the block: one block, with the header of the first.
abbrev pub join : Block → Block → Block
join b c = record b { capacity = b.capacity + contents_offset + c.capacity }

abbrev pub can_join : Block → Block → Bool
can_join b c = b.is_free && c.is_free && c.addr == end_of b

-- The bytes of the blocks, headers included.
abbrev pub total : List Block → ℕ
total [] = 0
total (b ∷ bs) = contents_offset + b.capacity + total bs

-- The blocks in use.
abbrev pub taken : List Block → List Block
taken [] = []
taken (b ∷ bs) = if b.is_free then taken bs else b ∷ taken bs

-- No block of the list stands at the address.
abbrev pub Away : Ptr → List Block → Type 0
Away a [] = Unit {0}
Away a (b ∷ bs) = (a ≢ b.addr) × Away a bs
