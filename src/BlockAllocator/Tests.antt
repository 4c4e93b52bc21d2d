-- ===== src/BlockAllocator/Tests.antt =====
-- Pages 0 to 14 are those of block 0, and page 15 is one of block 1.
use sgcl.Base.{
  ℕ, ◌+◌, ◌*◌, ◌/◌, ◌%◌, ◌≤◌, ◌≡◌, refl, arith, ◌==◌, if◌then◌else◌, List, [], ◌∷◌, ◌++◌,
}
use sgcl.Base.Lists.{occurs}
use sgcl.Types.{word_size, page_size}
use sgcl.BlockAllocator.{
  Blocks, block_pages, block_size, allocation_size, place_block, free, free_take, free_give,
}
use sgcl.BlockAllocator.Layout.{place_block_lem}
use sgcl.BlockAllocator.Release.{pages_in, partial_pages, free_lem, free_race}

abbrev two_blocks : Blocks
two_blocks = record {
  block = λ p. p / 15;
  page_count = λ _. 0;
  empty_pages = 4 ∷ 5 ∷ 6 ∷ 7 ∷ 8 ∷ 9 ∷ 10 ∷ 11 ∷ 12 ∷ 13 ∷ 14 ∷ [];
  deleted = [];
  pool = record { indexes = λ _. 0; size = 15; offset = 4096; position = 15 };
}

abbrev five_pages : List ℕ
five_pages = 15 ∷ 0 ∷ 1 ∷ 2 ∷ 3 ∷ []

place_block_lem_example :
    ((place_block 100000 + block_size) % page_size ≡ 0)
    × (100000 + word_size ≤ place_block 100000)
    × (place_block 100000 + block_size + block_pages * page_size ≤ 100000 + allocation_size)
place_block_lem_example = place_block_lem 100000 (omega arith)

free_lem_example :
    let all = five_pages ++ two_blocks.empty_pages in
    ((free five_pages two_blocks).empty_pages ≡ partial_pages two_blocks.block all all)
    × ((b : ℕ)
        → (occurs b (free five_pages two_blocks).deleted
            ≡ (if pages_in two_blocks.block b all == 15 then 1 else 0)
              + occurs b two_blocks.deleted)
          × ((free five_pages two_blocks).page_count b
              ≡ (if pages_in two_blocks.block b all == 15 then 15 else 0)))
free_lem_example = free_lem five_pages two_blocks (λ b. refl)

free_race_example :
    let t1 = free_take five_pages two_blocks in
    let t2 = free_take (16 ∷ []) t1.1 in
    occurs 15 (free_give t2.0 (free_give t1.0 t2.1)).empty_pages ≤ occurs 15 (16 ∷ [])
free_race_example = free_race five_pages (16 ∷ []) two_blocks 15
