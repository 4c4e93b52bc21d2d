-- ===== src/Collector/Unique.antt =====
-- sgcl/priv/collector.h, `Delete_unique`: a unique pointer destroys its object without the collector,
-- which reclaims the place afterwards.
pub mod Once
use sgcl.Base.{ℕ}
use sgcl.State
use sgcl.Page.{page_of, base_address_of, set_state}
use sgcl.Heap.{Heap, page_at}
use sgcl.Collector.Garbage.{destroy}

pub delete_unique : ℕ → Heap → Heap
delete_unique p h =
    let page = page_at h (page_of h.store p) in
    let h' = destroy page (base_address_of h.store p) h in
    record h' { store = set_state h'.store p State.destroyed }
