-- ===== src/Collector/Unused/Tests.antt =====
-- Two pages of large objects, of which one has become unused.
use sgcl.Base.{ℕ, ◌==◌, if◌then◌else◌, List, [], ◌∷◌}
use sgcl.State
use sgcl.Page.{Page}
use sgcl.Heap.{Heap}
use sgcl.Collector.Tests.{empty_page, pair_heap}
use sgcl.Collector.Unused.{free_large}

abbrev large_page : Page
large_page = record empty_page {
  metadata = record empty_page.metadata { address = 7; object_size = 5000; object_count = 1 };
}

abbrev large_heap : Heap
large_heap = record pair_heap {
  store = record pair_heap.store {
    page = λ a. if a == 1 then record large_page { states = λ i. State.used } else large_page;
  };
  registered_pages = 2 ∷ 1 ∷ [];
}

abbrev large_free : ℕ → List ℕ → Heap → Heap
large_free m list h = free_large list h
