-- ===== src/HeapRoots.antt =====
-- sgcl/priv/heap_roots_allocator.h: a thread's two pools of root pointers, and the pools that the
-- threads exchange. An exchange is one step here: the loops around `compare_exchange_weak` push to or
-- pop from a shared list at the moment at which they succeed.
pub mod Count
pub mod Conserve
pub mod Release
mod Tests
use sgcl.Base.{ℕ, ◌*◌, ◌/◌, Bool, if◌then◌else◌, Option, none, some, List, [], ◌∷◌}
use sgcl.Types.{word_size, page_size}
use sgcl.PointerPool.{Pool, new_pool, fill, is_empty, is_full}
use sgcl.PointerPool

-- PointerCount
abbrev pub pointer_count : ℕ
pointer_count = page_size / word_size

-- `pool1` and `pool2` are the thread's `_pointer_pool`; the lists are the shared ones, `pages` by the
-- addresses of the pointers of its nodes.
pub record Roots : Type 0 where
  pub pool1 : Option Pool
  pub pool2 : Option Pool
  pub global_pools : List Pool
  pub global_empty_pools : List Pool
  pub pages : List ℕ

-- `new Pointer_pool()`, whose array is not read before it is written.
pub fresh_pool : Pool
fresh_pool = new_pool (λ _. 0) pointer_count word_size

-- Allocating from the pool that becomes the first.
pub alloc_first : Pool → Option Pool → Roots → ℕ × Roots
alloc_first p other r =
    let a = PointerPool.alloc p in (a.0, record r { pool1 = some a.1; pool2 = other })

-- The head of the shared pools, or a pool over a new page, whose pointers lie at `node`.
pub take_pool : ℕ → List Pool → Roots → Pool × Roots
take_pool node (p ∷ ps) r = (p, record r { global_pools = ps })
take_pool node [] r = (fill node fresh_pool, record r { pages = node ∷ r.pages })

-- The first pool becomes the second, and the second goes to the shared empty pools.
pub retire_empty : Option Pool → Option Pool → Roots → Roots
retire_empty none pool2 r = r
retire_empty (some p1) none r = record r { pool2 = some p1 }
retire_empty (some p1) (some p2) r = record r {
  pool2 = some p1;
  global_empty_pools = p2 ∷ r.global_empty_pools;
}

pub alloc_new : ℕ → Option Pool → Option Pool → Roots → ℕ × Roots
alloc_new node pool1 pool2 r =
    let t = take_pool node r.global_pools r in
    let r' = retire_empty pool1 pool2 t.1 in alloc_first t.0 r'.pool2 r'

pub alloc_second : ℕ → Option Pool → Option Pool → Roots → ℕ × Roots
alloc_second node pool1 none r = alloc_new node pool1 none r
alloc_second node pool1 (some p2) r =
    if is_empty p2 then alloc_new node pool1 (some p2) r else alloc_first p2 pool1 r

pub alloc_pools : ℕ → Option Pool → Option Pool → Roots → ℕ × Roots
alloc_pools node none pool2 r = alloc_second node none pool2 r
alloc_pools node (some p1) pool2 r =
    if is_empty p1 then alloc_second node (some p1) pool2 r else alloc_first p1 pool2 r

pub alloc : ℕ → Roots → ℕ × Roots
alloc node r = alloc_pools node r.pool1 r.pool2 r

-- Freeing into the pool that becomes the first.
pub free_first : ℕ → Pool → Option Pool → Roots → Roots
free_first x p other r = record r { pool1 = some (PointerPool.free x p); pool2 = other }

pub take_empty : List Pool → Roots → Pool × Roots
take_empty (p ∷ ps) r = (p, record r { global_empty_pools = ps })
take_empty [] r = (fresh_pool, r)

pub retire_full : Option Pool → Option Pool → Roots → Roots
retire_full none pool2 r = r
retire_full (some p1) none r = record r { pool2 = some p1 }
retire_full (some p1) (some p2) r = record r { pool2 = some p1; global_pools = p2 ∷ r.global_pools }

pub free_new : ℕ → Option Pool → Option Pool → Roots → Roots
free_new x pool1 pool2 r =
    let t = take_empty r.global_empty_pools r in
    let r' = retire_full pool1 pool2 t.1 in free_first x t.0 r'.pool2 r'

pub free_second : ℕ → Option Pool → Option Pool → Roots → Roots
free_second x pool1 none r = free_new x pool1 none r
free_second x pool1 (some p2) r =
    if is_full p2 then free_new x pool1 (some p2) r else free_first x p2 pool1 r

pub free_pools : ℕ → Option Pool → Option Pool → Roots → Roots
free_pools x none pool2 r = free_second x none pool2 r
free_pools x (some p1) pool2 r =
    if is_full p1 then free_second x (some p1) pool2 r else free_first x p1 pool2 r

pub free : ℕ → Roots → Roots
free x r = free_pools x r.pool1 r.pool2 r

-- One round of the destructor's loop.
pub give_back : Option Pool → Roots → Roots
give_back none r = r
give_back (some p) r =
    if is_empty p
    then record r { global_empty_pools = p ∷ r.global_empty_pools }
    else record r { global_pools = p ∷ r.global_pools }

-- The destructor, after which the thread's own pools are gone.
pub destroy : Roots → Roots
destroy r =
    let r' = give_back r.pool2 (give_back r.pool1 r) in record r' { pool1 = none; pool2 = none }
