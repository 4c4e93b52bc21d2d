-- ===== src/Collector/Unused/Gather.antt =====
-- sgcl/priv/collector.h, `_release_unused_pages`: which pages are handed to which allocator.
use sgcl.Base.{ℕ, ◌+◌, ◌≡◌, Bool, false, not, ◌&&◌, ◌||◌, ◌==◌, if◌then◌else◌, List, [], ◌∷◌}
use sgcl.Base.Lists.{occurs}
use sgcl.Heap.{Heap, page_at}
use sgcl.Collector.Mark.{is_nil}
use sgcl.Collector.Garbage.Sweeps.{elem}
use sgcl.Collector.Unused.{Gathered, has_unused}

-- A page that is to be handed over.
abbrev pub is_given : Heap → ℕ → Bool
is_given h a = not (page_at h a).on_empty_list && has_unused (page_at h a)

-- The pages of `list` were looked at.
record GatheredFrom (list : List ℕ) (g g' : Gathered) : Type 0 where
  address : (b : ℕ) → (page_at g'.heap b).metadata ≡ (page_at g.heap b).metadata
  used : (b : ℕ) → (page_at g'.heap b).is_used ≡ (page_at g.heap b).is_used
  registered : g'.heap.registered_pages ≡ g.heap.registered_pages
  still : (b : ℕ) → is_given g'.heap b ≡ (is_given g.heap b && not (elem b list))
  given :
      (m b : ℕ)
      → occurs b (g'.empty_page m)
        ≡ occurs b (g.empty_page m)
          + (if elem b list && is_given g.heap b && ((page_at g.heap b).metadata.address == m)
              then 1
              else 0)

-- Each type with a page on its list is on the list of types, once.
abbrev IsIndexed : Gathered → Type 0
IsIndexed g = (m : ℕ) → occurs m g.metadata ≡ (if is_nil (g.empty_page m) then 0 else 1)

-- Whether a page is on the list of one of the types.
any_elem : (ℕ → List ℕ) → ℕ → List ℕ → Bool
any_elem pages a [] = false
any_elem pages a (m ∷ ms) = elem a (pages m) || any_elem pages a ms
