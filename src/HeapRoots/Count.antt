-- ===== src/HeapRoots/Count.antt =====
-- sgcl/priv/heap_roots_allocator.h: counting the free pointers of the pools, and which pools are where.
use sgcl.Base.{
  ℕ, ◌+◌, ◌*◌, ◌%◌, ◌^◌, ◌<◌, ◌≡◌, ap, arith, ◌==◌, true, false, if◌then◌else◌, Option, none, some,
  List, [], ◌∷◌,
}
use sgcl.Base.Lists.{All, occurs}
use sgcl.Types.{word_size}
use sgcl.PointerPool.{Pool, new_pool, fill, is_empty, is_full}
use sgcl.PointerPool
use sgcl.PointerPool.Stack.{available, slice, IsPool, available-alloc, available-free}
use sgcl.PointerPool.Fill.{available-fill, size-fill}
use sgcl.HeapRoots.{Roots, pointer_count, fresh_pool}

unfoldable pub in_pool : ℕ → Pool → ℕ
in_pool x p = occurs x (available p)

unfoldable pub in_option : ℕ → Option Pool → ℕ
in_option x none = 0
in_option x (some p) = in_pool x p

unfoldable pub in_list : ℕ → List Pool → ℕ
in_list x [] = 0
in_list x (p ∷ ps) = in_pool x p + in_list x ps

-- How often `x` is free, in all the pools.
unfoldable pub free_count : ℕ → Roots → ℕ
free_count x r =
    in_option x r.pool1
    + in_option x r.pool2
    + in_list x r.global_pools
    + in_list x r.global_empty_pools

-- The pointers of a new page.
unfoldable pub page_pointers : ℕ → List ℕ
page_pointers node = slice (λ k. (node + k * word_size) % 2 ^ 64) 0 pointer_count

unfoldable pub IsRootPool : Pool → Type 0
IsRootPool p = IsPool p × (p.size ≡ pointer_count)

unfoldable pub IsRootOption : Option Pool → Type 0
IsRootOption none = Unit
IsRootOption (some p) = IsRootPool p

abbrev pub Globals : List Pool → Type 0
Globals gs = All (λ p. IsRootPool p × (is_empty p ≡ false)) gs

abbrev pub Empties : List Pool → Type 0
Empties es = All (λ p. IsRootPool p × (is_empty p ≡ true)) es

-- The shared pools are not empty, and the shared empty pools are empty.
pub record IsRoots (r : Roots) : Type 0 where
  pub pool1 : IsRootOption r.pool1
  pub pool2 : IsRootOption r.pool2
  pub global : Globals r.global_pools
  pub global_empty : Empties r.global_empty_pools

unfoldable pub one : ℕ → ℕ → ℕ
one p x = if p == x then 1 else 0

-- What one pool does.
pub alloc-pool :
    (p : Pool)
    → IsRootPool p
    → is_empty p ≡ false
    → IsRootPool (PointerPool.alloc p).1
      × ((x : ℕ) → in_pool x p ≡ one (PointerPool.alloc p).0 x + in_pool x (PointerPool.alloc p).1)
unfolding in_pool occurs one PointerPool.alloc IsRootPool is_empty
alloc-pool p (v, s) e =
    let w = available-alloc p v (λ t. ground arith) in ((w.1, s), λ x. ap (occurs x) w.0)

pub free-pool :
    (y : ℕ) (p : Pool)
    → IsRootPool p
    → is_full p ≡ false
    → IsRootPool (PointerPool.free y p)
      × ((x : ℕ) → in_pool x (PointerPool.free y p) ≡ one y x + in_pool x p)
unfolding in_pool occurs one PointerPool.free IsRootPool is_full
free-pool y p (v, s) e =
    let w = available-free y p v (λ t. ground arith) in ((w.1, s), λ x. ap (occurs x) w.0)

pub new-pool :
    (node : ℕ)
    → node < 2 ^ 64
    → IsRootPool (fill node fresh_pool)
      × (is_empty (fill node fresh_pool) ≡ false)
      × ((x : ℕ) → in_pool x (fill node fresh_pool) ≡ occurs x (page_pointers node))
unfolding in_pool page_pointers fresh_pool new_pool IsRootPool is_full is_empty fill
new-pool node lt =
    let w = available-fill node fresh_pool lt (omega arith) in
    ((w.1, size), ground (arith, size), λ x. ap (occurs x) w.0)
  where
    size : (fill node fresh_pool).size ≡ pointer_count
    size = size-fill node fresh_pool lt
