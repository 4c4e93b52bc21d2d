-- ===== src/Heap.antt =====
-- The memory that the collector works on: the pages, the words of the objects, the tables of the
-- types, and the lists that link the pages (sgcl/priv/collector.h, its data members,
-- sgcl/priv/object_allocator.h, sgcl/priv/array_base.h and sgcl/priv/array_metadata.h).
-- A list that is linked through a field of its pages is a list of page addresses, first one first.
use sgcl.Base.{ℕ, ◌+◌, ◌%◌, ◌^◌, Bool, List, update}
use sgcl.Page.{Flags, Page, Store}
use sgcl.ChildPointers.{ChildPointers}

-- `Array_metadata`, as far as the collector reads it.
pub record ArrayMetadata : Type 0 where
  pub child_pointers : ℕ
  pub has_destroy : Bool
  pub object_size : ℕ
  pub tracked_ptrs_only : Bool

-- `store` holds the pages; `memory` is the word at an address; `childs` and `array_metadata` are the
-- tables by their addresses; `pages` is `Object_allocator::pages`. `destroyed` lists the calls of a
-- type's `destroy`, whose own effects are the user's.
pub record Heap : Type 0 where
  pub store : Store
  pub memory : ℕ → ℕ
  pub childs : ℕ → ChildPointers
  pub array_metadata : ℕ → ArrayMetadata
  pub pages : List ℕ
  pub registered_pages : List ℕ
  pub reachable_pages : List ℕ
  pub unreachable_pages : List ℕ
  pub live_objects : List ℕ
  pub live_objects_request : Bool
  pub destroyed : List ℕ

-- The page at address `a`.
abbrev pub page_at : Heap → ℕ → Page
page_at h a = h.store.page a

abbrev pub put_page : ℕ → Page → Heap → Heap
put_page a p h = record h { store = record h.store { page = update h.store.page a p } }

-- Group `i` of the flags of page `a`.
abbrev pub flag_at : Heap → ℕ → ℕ → Flags
flag_at h a i = (page_at h a).flags i

abbrev pub put_flag : ℕ → ℕ → Flags → Heap → Heap
put_flag a i f h = put_page a (record (page_at h a) { flags = update (page_at h a).flags i f }) h

-- The links of `Array_base`: the metadata pointer and the count, then the elements.
abbrev pub array_base_size : ℕ
array_base_size = 16

abbrev pub array_metadata_of : Heap → ℕ → ℕ
array_metadata_of h ptr = h.memory ptr

abbrev pub array_count_of : Heap → ℕ → ℕ
array_count_of h ptr = h.memory ((ptr + 8) % 2 ^ 64)

abbrev pub put_state : ℕ → ℕ → ℕ → Heap → Heap
put_state a i v h = put_page a (record (page_at h a) { states = update (page_at h a).states i v }) h
