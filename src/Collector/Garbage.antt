-- ===== src/Collector/Garbage.antt =====
-- sgcl/priv/collector.h, `_clear_childs`, `_clear_array_childs`, `_destroy` and `_remove_garbage`: the
-- objects that were not marked are destroyed, and their places become unused.
pub mod Effect
pub mod Sweeps
use Prim.Native.Nat.{bit_and}
use sgcl.Base.{
  ℕ, ◌+◌, ◌*◌, ◌%◌, ◌^◌, Bool, true, false, not, ◌==◌, ◌||◌, ◌&&◌, if◌then◌else◌, update, none,
  some, List, [], ◌∷◌, ◌++◌, for_range, for_each,
}
use sgcl.Base.Bits.{complement}
use sgcl.Counter.{Counter}
use sgcl.State
use sgcl.Types.{page_data_size}
use sgcl.Page.{Flags, Page, flag_bit_count, flags_count, pointer_of}
use sgcl.ChildPointers.{ChildPointers, for_map}
use sgcl.Heap.{
  Heap, page_at, put_page, flag_at, put_flag, put_state, array_base_size, array_metadata_of,
  array_count_of,
}
use sgcl.Collector.Groups.{for_groups}
use sgcl.Collector.Mark.{update_childs, is_nil, element_of}

pub clear_child : ℕ → ℕ → Heap → Heap
clear_child ptr offset h = record h { memory = update h.memory ((ptr + offset) % 2 ^ 64) 0 }

pub clear_childs : ChildPointers → ℕ → Heap → Heap
clear_childs pointers ptr h = elim pointers.offsets [
  | some offsets ↦ for_each (clear_child ptr) offsets h
  | none ↦ for_map (clear_child ptr) pointers.map h
]

pub clear_elements : ChildPointers → (ℕ → ℕ) → ℕ → Heap → Heap
clear_elements pointers element count h = elim pointers.offsets [
  | some offsets ↦
      if is_nil offsets
      then h
      else for_range count 0 (λ c s. for_each (clear_child (element c)) offsets s) h
  | none ↦ for_range count 0 (λ c s. for_map (clear_child (element c)) pointers.map s) h
]

pub clear_array_childs : ℕ → Heap → Heap
clear_array_childs ptr h =
    let m = array_metadata_of h ptr in
    let metadata = h.array_metadata m in
    let h' = update_childs metadata.child_pointers h in
    if m == 0
    then h
    else clear_elements (h'.childs metadata.child_pointers) (element_of ptr metadata.object_size)
        (array_count_of h' ptr) h'

-- The call `destroy(ptr)`.
pub call_destroy : ℕ → Heap → Heap
call_destroy ptr h = record h { destroyed = h.destroyed ++ ptr ∷ [] }

pub destroy : Page → ℕ → Heap → Heap
destroy page ptr h =
    if not page.metadata.has_destroy
    then h
    else if not page.metadata.is_array
    then call_destroy ptr (clear_childs (h.childs page.metadata.child_pointers) ptr h)
    else let m = array_metadata_of h ptr in
      if not (m == 0) && not (h.array_metadata m).tracked_ptrs_only
      then call_destroy ptr (clear_array_childs ptr h)
      else h

-- The heap with the local `released`.
pub record Sweep : Type 0 where
  pub heap : Heap
  pub released : Counter

-- sizeof(Array<PageDataSize>)
abbrev pub largest_array : ℕ
largest_array = array_base_size + page_data_size

-- What an object counts for, with int64_t arithmetic.
pub released_size : Page → Heap → ℕ
released_size page h =
    if not page.metadata.is_array || not (page.metadata.object_size == largest_array)
    then page.metadata.object_size
    else let metadata = h.array_metadata (array_metadata_of h page.data_address) in
      array_base_size + metadata.object_size * array_count_of h page.data_address

abbrev pub count_released : ℕ → Counter → Counter
count_released size c = record { count = (c.count + 1) % 2 ^ 64; size = (c.size + size) % 2 ^ 64 }

-- The object at bit `j` of group `i`.
unfoldable pub release : ℕ → ℕ → ℕ → Sweep → Sweep
release a i j s =
    let page = page_at s.heap a in
    let index = i * flag_bit_count + j in
    let state = page.states index in
    let h =
      if state == State.bad_alloc || state == State.destroyed
      then s.heap
      else destroy page (pointer_of page index) s.heap in
    record {
      heap = put_state a index State.unused h;
      released =
          if state == State.bad_alloc
          then s.released
          else count_released (released_size page h) s.released;
    }

-- flag.registered & ~flag.marked
pub unmarked_word : ℕ → ℕ → Sweep → ℕ
unmarked_word a i s =
    let flag = flag_at s.heap a i in bit_and flag.registered (complement 64 flag.marked)

-- flag.registered &= flag.marked
pub unregister : ℕ → ℕ → Sweep → Sweep
unregister a i s =
    let flag = flag_at s.heap a i in
    record s {
      heap = put_flag a i (record flag { registered = bit_and flag.registered flag.marked }) s.heap;
    }

pub sweep_groups : ℕ → ℕ → Sweep → Sweep
sweep_groups count a s = for_groups (unmarked_word a) (release a) (unregister a) count s

pub sweep_page : ℕ → Sweep → Sweep
sweep_page a s =
    let h = update_childs (page_at s.heap a).metadata.child_pointers s.heap in
    let s' = sweep_groups (flags_count (page_at h a)) a (record s { heap = h }) in
    record s' { heap = put_page a (record (page_at s'.heap a) { unreachable = false }) s'.heap }

pub remove_garbage : Heap → Sweep
remove_garbage h = for_each sweep_page h.unreachable_pages (record {
  heap = record h { unreachable_pages = [] };
  released = record { count = 0; size = 0 };
})
