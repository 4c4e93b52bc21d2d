-- ===== src/BlockAllocator/Layout.antt =====
-- sgcl/priv/block.h: a block and its pages lie in the memory that is allocated for them.
use sgcl.Base.{ℕ, ◌+◌, ◌*◌, ◌%◌, ◌^◌, ◌≤◌, ◌≡◌, arith}
use sgcl.Base.Bits.{bit_and-complement}
use sgcl.Types.{word_size, page_size}
use sgcl.BlockAllocator.{block_pages, block_size, allocation_size, place_block}

-- The pages behind the block are aligned, there is room for the pointer to the memory in front of the
-- block, and the last page ends in the memory.
pub place_block_lem :
    (mem : ℕ)
    → mem + allocation_size ≤ 2 ^ 64
    → ((place_block mem + block_size) % page_size ≡ 0)
      × (mem + word_size ≤ place_block mem)
      × (place_block mem + block_size + block_pages * page_size ≤ mem + allocation_size)
unfolding place_block
place_block_lem mem fits = omega (
  arith,
  bit_and-complement 12 64 ((mem + word_size + block_size + page_size) % 2 ^ 64) (omega arith)
      (omega arith),
)
