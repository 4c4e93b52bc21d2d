-- ===== src/Collector/Tests.antt =====
-- A heap with one page of two objects, of which the first points to the second, for the modules of the
-- collector.
use sgcl.Base.{
  ◌*◌, ◌+◌, ◌%◌, ◌≡◌, refl, arith, true, false, ◌||◌, ◌&&◌, ◌||◌, leb, ltb, ◌==◌, if◌then◌else◌,
  none, [], ◌∷◌, for_each,
}
use sgcl.Base.Bits.{testbit-zero}
use sgcl.State
use sgcl.Page.{Metadata, Page, no_flags, flags_count, page_of, index_of}
use sgcl.Heap.{Heap, page_at, flag_at}
use sgcl.Collector.Bits.{is_registered, is_reachable, is_marked}
use sgcl.Collector.Mark.{mark_pointers}
use sgcl.Collector.Mark.Slots.{mark_slot, object_slots, refresh, mark_pointers-slots}
use sgcl.Collector.Scan.Sound.{IsClosed}
use sgcl.Collector.Ages.{update_states}
use sgcl.Collector.Ages.Effect.{aged, is_distinct, update_states_lem}
use sgcl.Collector.Garbage.{Sweep, release, remove_garbage}
use sgcl.Collector.Garbage.Effect.{garbage}
use sgcl.Collector.Garbage.Sweeps.{elem, in_groups, remove_garbage_lem}
use sgcl.Collector.Register.{register_page}
use sgcl.Collector.Register.Effect.{to_register, register_page_lem}
use sgcl.Collector.Unique.{delete_unique}
use sgcl.Collector.Unique.Once.{release-delete_unique}
use sgcl.Collector.Updated.{mark_updated}
use sgcl.Collector.Updated.Effect.{touched}
use sgcl.Collector.Updated.Pages.{mark_updated_lem}

abbrev pair_metadata : Metadata
pair_metadata = record {
  address = 1;
  child_pointers = 2;
  has_destroy = true;
  object_size = 16;
  object_count = 255;
  is_array = false;
}

abbrev pub empty_page : Page
empty_page = record {
  metadata = pair_metadata;
  block = 0;
  data_address = 4104;
  multiplier = 268439552;
  reachable = false;
  unreachable = false;
  registered = false;
  is_used = true;
  on_empty_list = false;
  states = λ _. State.unused;
  flags = λ _. no_flags;
}

-- Objects 0 and 1 are registered, and object 0 is reachable.
abbrev pair_page : Page
pair_page = record empty_page {
  reachable = true;
  registered = true;
  states = λ i. if i == 0 then State.reachable else if i == 1 then State.used else State.unused;
  flags = λ i. if i == 0 then record { registered = 3; reachable = 1; marked = 0 } else no_flags;
}

abbrev pub pair_heap : Heap
pair_heap = record {
  store = record { header = λ _. 1000; page = λ a. if a == 1000 then pair_page else empty_page };
  memory = λ x. if x == 4104 then 4120 else 0;
  childs = λ _. record { offsets = none; map = λ i. if i == 0 then 1 else 0; final = true };
  array_metadata = λ _. record {
    child_pointers = 0;
    has_destroy = false;
    object_size = 0;
    tracked_ptrs_only = false;
  };
  pages = 1000 ∷ [];
  registered_pages = 1000 ∷ [];
  reachable_pages = 1000 ∷ [];
  unreachable_pages = 1000 ∷ [];
  live_objects = [];
  live_objects_request = false;
  destroyed = [];
}

pub pair_heap-IsClosed : IsClosed pair_heap
pair_heap-IsClosed = record {
  cache = λ c os e. ground arith;
  closed = λ a k m. absurd (ground (arith, testbit-zero (k % 64)));
}

remove_garbage_lem_example :
    let h' = (remove_garbage pair_heap).heap in
    ((page_at h' 1000).states 1 ≡ (
      if elem 1000 pair_heap.unreachable_pages
        && in_groups pair_heap 1000 1
        && garbage pair_heap 1000 1
      then State.unused
      else (page_at pair_heap 1000).states 1))
    × (is_registered h' 1000 1 ≡ (
        if elem 1000 pair_heap.unreachable_pages && in_groups pair_heap 1000 1
        then is_registered pair_heap 1000 1 && is_marked pair_heap 1000 1
        else is_registered pair_heap 1000 1))
    × (is_marked h' 1000 1 ≡ is_marked pair_heap 1000 1)
remove_garbage_lem_example = remove_garbage_lem pair_heap 1000 1

mark_updated_lem_example :
    let h' = mark_updated true pair_heap in
    (is_reachable h' 1000 0 ≡ (
      is_reachable pair_heap 1000 0
      || (elem 1000 pair_heap.registered_pages
          && in_groups pair_heap 1000 0
          && touched pair_heap 1000 0)))
    × (is_registered h' 1000 0 ≡ is_registered pair_heap 1000 0)
    × (is_marked h' 1000 0 ≡ is_marked pair_heap 1000 0)
    × ((page_at h' 1000).states 0 ≡ (page_at pair_heap 1000).states 0)
mark_updated_lem_example = mark_updated_lem true pair_heap 1000 0

update_states_lem_example :
    let h' = update_states false 60 pair_heap in
    ((page_at h' 1000).states 0 ≡ (
      if elem 1000 pair_heap.registered_pages
        && ltb 0 (page_at pair_heap 1000).metadata.object_count
        && is_registered pair_heap 1000 0
      then aged (false || leb 50 60) ((page_at pair_heap 1000).states 0)
      else (page_at pair_heap 1000).states 0))
    × (flag_at h' 1000 0 ≡ flag_at pair_heap 1000 0)
unfolding is_distinct
update_states_lem_example = update_states_lem false 60 pair_heap 1000 0 refl

mark_pointers-slots_example :
    mark_pointers pair_page 4104 pair_heap
    ≡ for_each mark_slot (object_slots pair_heap pair_page 4104) (refresh pair_page 4104 pair_heap)
mark_pointers-slots_example = mark_pointers-slots pair_page 4104 pair_heap pair_heap-IsClosed.cache

register_page_lem_example :
    let h' = register_page 1000 pair_heap in
    let cleared = (1000 == 1000) && ltb 0 (flags_count (page_at pair_heap 1000)) in
    (is_registered h' 1000 0
      ≡ (is_registered pair_heap 1000 0 || ((1000 == 1000) && to_register pair_heap 1000 0)))
    × ((flag_at h' 1000 0).reachable
        ≡ (if cleared then 0 else (flag_at pair_heap 1000 0).reachable))
    × ((flag_at h' 1000 0).marked ≡ (if cleared then 0 else (flag_at pair_heap 1000 0).marked))
    × ((page_at h' 1000).states 0 ≡ (page_at pair_heap 1000).states 0)
register_page_lem_example = register_page_lem 1000 pair_heap 1000 0

abbrev pair_sweep : Sweep
pair_sweep = record { heap = pair_heap; released = record { count = 0; size = 0 } }

release-delete_unique_example :
    let s1 = record pair_sweep { heap = delete_unique 4104 pair_heap } in
    let s2 = release 1000 0 0 s1 in
    (s2.heap.destroyed ≡ s1.heap.destroyed)
    × (s2.heap.memory ≡ s1.heap.memory)
    × ((page_at s2.heap 1000).states (0 * 64 + 0) ≡ State.unused)
unfolding page_of index_of
release-delete_unique_example = release-delete_unique 4104 1000 0 0 pair_sweep refl refl
