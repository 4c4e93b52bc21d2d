-- ===== src/Collector/Roots/Tests.antt =====
-- A stack with one page of roots and a page of heap roots.
use sgcl.Base.{◌≡◌, ◌↔◌, ◌⊎◌, ◌==◌, if◌then◌else◌, true, List, [], ◌∷◌}
use sgcl.Threads.{Data}
use sgcl.Collector.Tests.{pair_heap}
use sgcl.Collector.Bits.{is_reachable, is_marked}
use sgcl.Collector.Roots.{mark_roots}
use sgcl.Collector.Roots.Marks.{IsFound, mark_roots_lem}

abbrev one_thread : List Data
one_thread =
    (record {
      stack_roots = record { pages = λ i. if i == 3 then 9000 else 0 };
      is_used = true;
      alloc_count = 2;
      alloc_size = 32;
    })
    ∷ []

mark_roots_lem_example :
    let h' = mark_roots one_thread (20000 ∷ []) pair_heap in
    ((is_reachable h' 1000 1 ≡ true)
      ↔ ((is_reachable pair_heap 1000 1 ≡ true) ⊎ IsFound one_thread (20000 ∷ []) pair_heap 1000 1))
    × (is_marked h' 1000 1 ≡ is_marked pair_heap 1000 1)
mark_roots_lem_example = mark_roots_lem one_thread (20000 ∷ []) pair_heap 1000 1
