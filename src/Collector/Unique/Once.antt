-- ===== src/Collector/Unique/Once.antt =====
-- sgcl/priv/collector.h, `Delete_unique` and `_remove_garbage`: no object is destroyed twice.
use sgcl.Base.{ℕ, ◌+◌, ◌*◌, ◌≡◌, refl, ◌∙◌, arith}
use sgcl.State
use sgcl.Page.{Page, page_of, index_of, base_address_of}
use sgcl.Page.States.{states-set_state}
use sgcl.Heap.{Heap, page_at}
use sgcl.Collector.Garbage.{destroy, Sweep, release}
use sgcl.Collector.Garbage.Effect.{destroy-store, release-states}
use sgcl.Collector.Unique.{delete_unique}

-- The state that `Delete_unique` leaves.
state-delete_unique :
    (p a k : ℕ) (h : Heap)
    → page_of h.store p ≡ a
    → index_of (page_at h a) p ≡ k
    → (page_at (delete_unique p h) a).states k ≡ State.destroyed
unfolding delete_unique
state-delete_unique p a k h e i =
    states-set_state (destroy page (base_address_of h.store p) h).store p State.destroyed a k
    ∙ rw (destroy-store page (base_address_of h.store p) h) (ground arith)
  where
    page : Page
    page = page_at h (page_of h.store p)

-- When `Delete_unique` has destroyed the object that `p` points into, `_remove_garbage` calls no
-- `destroy` and clears no pointer for its place, and makes it unused.
pub release-delete_unique :
    (p a i j : ℕ) (s : Sweep)
    → page_of s.heap.store p ≡ a
    → index_of (page_at s.heap a) p ≡ i * 64 + j
    → let s1 = record s { heap = delete_unique p s.heap } in
      let s2 = release a i j s1 in
      (s2.heap.destroyed ≡ s1.heap.destroyed)
      × (s2.heap.memory ≡ s1.heap.memory)
      × ((page_at s2.heap a).states (i * 64 + j) ≡ State.unused)
unfolding release
release-delete_unique p a i j s e k =
    (rw here refl, rw here refl, release-states a i j s1 a (i * 64 + j) ∙ ground arith)
  where
    s1 : Sweep
    s1 = record s { heap = delete_unique p s.heap }

    here : (page_at (delete_unique p s.heap) a).states (i * 64 + j) ≡ State.destroyed
    here = state-delete_unique p a (i * 64 + j) s.heap e k
