-- ===== src/PointerPool/Tests.antt =====
-- A pool of four pointers, of which two are free, and a page of two unused objects.
use sgcl.Base.{◌+◌, ◌≡◌, arith, true, false, ◌∷◌}
use sgcl.State
use sgcl.Page.{Page, no_flags}
use sgcl.PointerPool.{Pool, alloc, free, is_empty, is_full}
use sgcl.PointerPool.Stack.{IsPool, available, available-alloc, available-free}

abbrev half_pool : Pool
half_pool = record { indexes = λ i. 100 + i; size = 4; offset = 8; position = 2 }

half_pool-IsPool : IsPool half_pool
half_pool-IsPool = record { position = omega arith; size = omega arith }

abbrev two_objects : Page
two_objects = record {
  metadata = record {
    address = 1;
    child_pointers = 2;
    has_destroy = true;
    object_size = 2000;
    object_count = 2;
    is_array = false;
  };
  block = 0;
  data_address = 4104;
  multiplier = 2147516;
  reachable = false;
  unreachable = false;
  registered = false;
  is_used = true;
  on_empty_list = false;
  states = λ _. State.unused;
  flags = λ _. no_flags;
}

available-alloc_example :
    (available half_pool ≡ (alloc half_pool).0 ∷ available (alloc half_pool).1)
    × IsPool (alloc half_pool).1
unfolding is_empty
available-alloc_example = available-alloc half_pool half_pool-IsPool (λ e. ground arith)

available-free_example :
    (available (free 7 half_pool) ≡ 7 ∷ available half_pool) × IsPool (free 7 half_pool)
unfolding is_full
available-free_example = available-free 7 half_pool half_pool-IsPool (λ e. ground arith)
