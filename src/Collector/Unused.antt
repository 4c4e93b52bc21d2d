-- ===== src/Collector/Unused.antt =====
-- sgcl/priv/collector.h, `_release_unused_pages`, and sgcl/priv/large_object_allocator.h, `free`: the pages
-- with a place that can be used again are handed to the allocators of their types, and the pages that
-- these gave up leave the list of registered pages.
pub mod Gather
mod Tests
use sgcl.Base.{
  ℕ, zero, suc, ◌+◌, Bool, true, false, not, ◌||◌, ◌==◌, if◌then◌else◌, update, List, [], ◌∷◌,
  for_each,
}
use sgcl.State
use sgcl.Page.{Page, Metadata}
use sgcl.Heap.{Heap, page_at, put_page}
use sgcl.Collector.Mark.{is_nil}

-- The loop over the states of a page: whether an object from `i` on is unused, of `n`.
pub any_unused : (ℕ → ℕ) → ℕ → ℕ → Bool
any_unused states zero i = false
any_unused states (suc n) i = states i == State.unused || any_unused states n (i + 1)

pub has_unused : Page → Bool
has_unused p = any_unused p.states p.metadata.object_count 0

-- The heap with the local list of types, by the addresses of their metadata, and each type's `empty_page`.
pub record Gathered : Type 0 where
  pub heap : Heap
  pub metadata : List ℕ
  pub empty_page : ℕ → List ℕ

-- A page with an unused object goes on its type's list.
pub put_empty : ℕ → Gathered → Gathered
put_empty a g =
    let page = page_at g.heap a in
    let m = page.metadata.address in
    record {
      heap = put_page a (record page { on_empty_list = true }) g.heap;
      metadata = if is_nil (g.empty_page m) then m ∷ g.metadata else g.metadata;
      empty_page = update g.empty_page m (a ∷ g.empty_page m);
    }

pub gather_page : ℕ → Gathered → Gathered
gather_page a g =
    let page = page_at g.heap a in
    if page.on_empty_list then g else if has_unused page then put_empty a g else g

pub gather : Heap → Gathered
gather h =
    for_each gather_page h.registered_pages
      (record { heap = h; metadata = []; empty_page = λ m. [] })

-- The second loop: `metadata->free` is `free` of the type's allocator.
pub free_pages : (ℕ → List ℕ → Heap → Heap) → Gathered → Heap
free_pages free g = for_each (λ m h. free m (g.empty_page m) h) g.metadata g.heap

-- The third loop.
pub keep_used : Heap → List ℕ → List ℕ
keep_used h [] = []
keep_used h (a ∷ list) = if (page_at h a).is_used then a ∷ keep_used h list else keep_used h list

pub release_unused_pages : (ℕ → List ℕ → Heap → Heap) → Heap → Heap
release_unused_pages free h =
    let h' = free_pages free (gather h) in
    record h' { registered_pages = keep_used h' h'.registered_pages }

-- `Large_object_allocator::free`: the memory of the objects is given back, and the pages are not used any
-- more.
pub free_large : List ℕ → Heap → Heap
free_large list h = for_each (λ a h. put_page a (record (page_at h a) { is_used = false }) h) list h
