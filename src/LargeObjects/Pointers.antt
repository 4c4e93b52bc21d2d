-- ===== src/LargeObjects/Pointers.antt =====
-- sgcl/priv/large_object_allocator.h with sgcl/priv/page.h: which pointers into a large object lead to its
-- page.
use sgcl.Base.{ℕ, ◌+◌, ◌-◌, ◌%◌, ◌^◌, ◌<◌, ◌≡◌, ltb, arith, if◌then◌else◌}
use sgcl.Base.Bits.{bit_and-complement}
use sgcl.Types.{word_size, page_size, page_data_size}
use sgcl.Page.{Metadata, page_start, page_of}
use sgcl.LargeObjects.{Large, alloc}

page_start_lem : (p : ℕ) → p < 2 ^ 64 → page_start p ≡ p - p % page_size
unfolding page_start
page_start_lem p lt = omega (arith, bit_and-complement 12 64 p (omega arith) lt)

-- A pointer to one of the first 4088 bytes of a large object leads to the object's page; for a pointer
-- behind them, `page_of` gives what the memory held before the allocation, since just the first page of
-- the memory has a header.
pub page_of-alloc :
    (m : Metadata) (mem hmem k : ℕ) (s : Large)
    → mem % page_size ≡ 0
    → mem + word_size + k < 2 ^ 64
    → let r = alloc m mem hmem s in
      page_of r.1.store (r.0 + k)
      ≡ (if ltb k page_data_size then hmem else page_of s.store (r.0 + k))
unfolding page_of alloc
page_of-alloc m mem hmem k s aligned lt = ground (
  arith,
  page_start_lem (mem + word_size + k) lt,
  (let e : (mem + word_size) % 2 ^ 64 ≡ mem + word_size = omega arith in e),
)
