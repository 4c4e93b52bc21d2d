-- ===== src/PointerPool.antt =====
-- sgcl/priv/pointer_pool_base.h and sgcl/priv/pointer_pool.h: an array of pointers used as a stack
-- that grows down; the pointers from `_position` on are free.
pub mod Stack
pub mod Fill
mod Tests
use sgcl.Base.{
  ℕ, zero, suc, ◌+◌, ◌-◌, ◌*◌, ◌%◌, ◌^◌, Bool, ◌==◌, if◌then◌else◌, update, List, [], ◌∷◌,
  for_range,
}
use sgcl.Page.{Page}
use sgcl.State

pub record Pool : Type 0 where
  pub indexes : ℕ → ℕ
  pub size : ℕ
  pub offset : ℕ
  pub position : ℕ

-- The constructor, on the array `indexes` as it is.
unfoldable pub new_pool : (ℕ → ℕ) → ℕ → ℕ → Pool
new_pool indexes size offset = record {
  indexes = indexes;
  size = size;
  offset = offset;
  position = size;
}

-- The loop of `fill(void*)` with its `data`, here `address`.
fill_index : ℕ → Pool × ℕ → Pool × ℕ
fill_index i (pool, address) =
    (record pool { indexes = update pool.indexes i address }, (address + pool.offset) % 2 ^ 64)

unfoldable pub fill : ℕ → Pool → Pool
unfolding fill_index
fill address pool = record ((for_range pool.size 0 fill_index (pool, address)).0) { position = 0 }

-- `--_position` on an unsigned
abbrev pub before : ℕ → ℕ
before position = (position + 2 ^ 32 - 1) % 2 ^ 32

unfoldable pub free : ℕ → Pool → Pool
free p pool = record pool {
  indexes = update pool.indexes (before pool.position) p;
  position = before pool.position;
}

unfoldable pub alloc : Pool → ℕ × Pool
alloc pool = (pool.indexes pool.position, record pool { position = (pool.position + 1) % 2 ^ 32 })

pub pointer_count : Pool → ℕ
pointer_count pool = (pool.size + 2 ^ 32 - pool.position) % 2 ^ 32

unfoldable pub is_empty : Pool → Bool
is_empty pool = pool.position == pool.size

unfoldable pub is_full : Pool → Bool
is_full pool = pool.position == 0

-- Object `i` of the page is put on the pool if it is unused.
pub fill_object : ℕ → Pool × Page → Pool × Page
fill_object i (pool, page) =
    if page.states i == State.unused
    then (
      free ((page.data_address + i * page.metadata.object_size) % 2 ^ 64) pool,
      record page { states = update page.states i State.reserved },
    )
    else (pool, page)

-- The loop of `fill(Page*)` from `i = n - 1` down to 0.
pub fill_down : ℕ → Pool × Page → Pool × Page
fill_down zero s = s
fill_down (suc n) s = fill_down n (fill_object n s)

pub fill_page : Page → Pool → Pool × Page
fill_page page pool = fill_down page.metadata.object_count (pool, page)
