-- ===== src/HeapRoots/Tests.antt =====
-- A thread without pools, and one with a half full pool.
use sgcl.Base.{ℕ, ◌+◌, ◌≡◌, ◌⊎◌, refl, arith, none, some, []}
use sgcl.Base.Lists.{occurs}
use sgcl.HeapRoots.{Roots, alloc, free}
use sgcl.HeapRoots.Count.{free_count, one, page_pointers, IsRoots, IsRootPool, IsRootOption}
use sgcl.HeapRoots.Conserve.{alloc_conserves}
use sgcl.HeapRoots.Release.{free_conserves}

abbrev no_pools : Roots
no_pools = record {
  pool1 = none;
  pool2 = none;
  global_pools = [];
  global_empty_pools = [];
  pages = [];
}

no_pools-IsRoots : IsRoots no_pools
unfolding IsRootOption
no_pools-IsRoots = record { pool1 = tt; pool2 = tt; global = tt; global_empty = tt }

abbrev one_pool : Roots
one_pool = record no_pools {
  pool1 = some (record { indexes = λ i. 4096 + i; size = 512; offset = 8; position = 256 });
}

one_pool-IsRoots : IsRoots one_pool
unfolding IsRootOption IsRootPool
one_pool-IsRoots = record {
  pool1 = (record { position = omega arith; size = omega arith }, refl);
  pool2 = tt;
  global = tt;
  global_empty = tt;
}

alloc_conserves_example :
    let s = alloc 8192 no_pools in
    IsRoots s.1
    × (((x : ℕ) → free_count x no_pools ≡ one s.0 x + free_count x s.1)
        ⊎ ((no_pools.global_pools ≡ [])
            × ((x : ℕ)
                → free_count x no_pools + occurs x (page_pointers 8192)
                  ≡ one s.0 x + free_count x s.1)))
alloc_conserves_example = alloc_conserves 8192 no_pools (omega arith) no_pools-IsRoots

free_conserves_example :
    IsRoots (free 4096 one_pool)
    × ((x : ℕ) → free_count x (free 4096 one_pool) ≡ one 4096 x + free_count x one_pool)
free_conserves_example = free_conserves 4096 one_pool one_pool-IsRoots
