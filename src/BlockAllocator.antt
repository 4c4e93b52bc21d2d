-- ===== src/BlockAllocator.antt =====
-- sgcl/priv/block.h and sgcl/priv/block_allocator.h: blocks of 15 data pages, and the list of the free
-- pages, from which a block is deleted when all its pages are on it. A stretch under the lock is one
-- step.
pub mod Layout
pub mod Release
mod Tests
use Prim.Native.Nat.{bit_and}
use sgcl.Base.{
  ℕ, ◌+◌, ◌-◌, ◌*◌, ◌%◌, ◌^◌, Bool, not, ◌==◌, if◌then◌else◌, update, List, [], ◌∷◌, ◌++◌, for_each,
  for_range,
}
use sgcl.Base.Bits.{complement}
use sgcl.Types.{word_size, page_size}
use sgcl.PointerPool.{Pool, fill, is_empty}
use sgcl.PointerPool

-- Block::PageCount
abbrev pub block_pages : ℕ
block_pages = 15

-- sizeof(Block)
abbrev pub block_size : ℕ
block_size = 16

-- The bytes that `Block::operator new` asks for, and where it puts the block in the memory at `mem`.
abbrev pub allocation_size : ℕ
allocation_size = word_size + block_size + page_size * (block_pages + 1)

pub place_block : ℕ → ℕ
place_block mem =
    let address = (mem + word_size + block_size + page_size) % 2 ^ 64 in
    (bit_and address (complement 64 (page_size - 1)) + 2 ^ 64 - block_size) % 2 ^ 64

-- `block` is the first word of the data pages, which is a union: the block of a free page, and the page of
-- objects that uses it. `page_count` is the field of the blocks; `deleted` lists the blocks that were
-- deleted, and `pool` is one thread's.
pub record Blocks : Type 0 where
  pub block : ℕ → ℕ
  pub page_count : ℕ → ℕ
  pub empty_pages : List ℕ
  pub deleted : List ℕ
  pub pool : Pool

-- A page from the pool.
alloc_pool : Blocks → ℕ × Blocks
alloc_pool s = let a = PointerPool.alloc s.pool in (a.0, record s { pool = a.1 })

-- The constructor of the block at `b`, whose data pages lie behind it.
pub construct_block : ℕ → Blocks → Blocks
construct_block b s = record s {
  block =
      for_range block_pages 0
        (λ i block. update block ((b + block_size + i * page_size) % 2 ^ 64) b) s.block;
  page_count = update s.page_count b 0;
}

-- `mem` is what `::operator new` returns, if a block is made.
alloc_shared : ℕ → List ℕ → Blocks → ℕ × Blocks
alloc_shared mem (page ∷ pages) s = (page, record s { empty_pages = pages })
alloc_shared mem [] s =
    let b = place_block mem in
    let s' = construct_block b s in
    alloc_pool (record s' { pool = fill ((b + block_size) % 2 ^ 64) s'.pool })

pub alloc : ℕ → Blocks → ℕ × Blocks
alloc mem s = if is_empty s.pool then alloc_shared mem s.empty_pages s else alloc_pool s

-- The first stretch of `free`: the pages, followed by those that were free.
pub free_take : List ℕ → Blocks → List ℕ × Blocks
free_take pages s = (pages ++ s.empty_pages, record s { empty_pages = [] })

-- The counts, and the local list of the blocks that were met.
pub record Count : Type 0 where
  pub page_count : ℕ → ℕ
  pub blocks : List ℕ

pub count_page : (ℕ → ℕ) → ℕ → Count → Count
count_page block p c =
    let b = block p in
    record {
      page_count = update c.page_count b (c.page_count b + 1);
      blocks = if c.page_count b == 0 then b ∷ c.blocks else c.blocks;
    }

-- The pages that stay free.
pub keep_pages : (ℕ → ℕ) → (ℕ → ℕ) → List ℕ → List ℕ
keep_pages block count [] = []
keep_pages block count (p ∷ pages) =
    let rest = keep_pages block count pages in
    if count (block p) == block_pages then rest else p ∷ rest

pub release_block : ℕ → Blocks → Blocks
release_block b s =
    if s.page_count b == block_pages
    then record s { deleted = b ∷ s.deleted }
    else record s { page_count = update s.page_count b 0 }

-- The rest of `free`, which ends with the second stretch and the deletions.
pub free_give : List ℕ → Blocks → Blocks
free_give pages s =
    let c =
      for_each (count_page s.block) pages (record { page_count = s.page_count; blocks = [] }) in
    for_each release_block c.blocks
      (record s { page_count = c.page_count; empty_pages = keep_pages s.block c.page_count pages })

pub free : List ℕ → Blocks → Blocks
free pages s = let t = free_take pages s in free_give t.0 t.1
