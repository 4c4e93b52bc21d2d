-- ===== src/Collector/Mark.antt =====
-- sgcl/priv/collector.h, `_mark` and `_mark_childs`: a pointer is marked by setting the reachable bit
-- of the object that it points into, and an object's pointers are read through its type's table.
pub mod Effect
pub mod Slots
pub mod Queue
pub mod Cover
pub mod Pointers
use Prim.Native.Nat.{bit_and, bit_or}
use sgcl.Base.{
  ℕ, ◌+◌, ◌-◌, ◌*◌, ◌/◌, ◌%◌, ◌^◌, Bool, true, false, ◌==◌, if◌then◌else◌, update, Option, none,
  some, List, [], ◌∷◌, for_range, for_each,
}
use sgcl.Base.Bits.{has, complement}
use sgcl.Page.{Flags, Page, Store, flag_index_of, flag_mask_of, index_of, page_of}
use sgcl.ChildPointers.{ChildPointers, for_map, update_child_offsets}
use sgcl.Heap.{
  Heap, page_at, put_page, flag_at, put_flag, array_base_size, array_metadata_of, array_count_of,
}

-- std::numeric_limits<size_t>::max(), the word of a pointer that its constructor has not reached.
abbrev pub unset_pointer : ℕ
unset_pointer = 2 ^ 64 - 1

-- A page is put on the list of reachable pages once.
unfoldable pub push_reachable : ℕ → Heap → Heap
push_reachable a h =
    if (page_at h a).reachable
    then h
    else let h' = put_page a (record (page_at h a) { reachable = true }) h in
      record h' { reachable_pages = a ∷ h.reachable_pages }

-- The condition of `_mark`: registered, and neither marked nor reachable yet.
abbrev pub to_mark : Flags → ℕ → Bool
to_mark f mask =
    has (bit_and (bit_and f.registered (complement 64 f.marked)) (complement 64 f.reachable)) mask

pub mark_object : ℕ → ℕ → Heap → Heap
mark_object a index h =
    let flag = flag_at h a (flag_index_of index) in
    let mask = flag_mask_of index in
    if to_mark flag mask
    then push_reachable a (
        put_flag a (flag_index_of index) (record flag { reachable = bit_or flag.reachable mask }) h)
    else h

pub mark : ℕ → Heap → Heap
mark ptr h =
    let a = page_of h.store ptr in
    if ptr == 0 then h else mark_object a (index_of (page_at h a) ptr) h

-- One pointer of an object, at `ptr + offset`.
pub mark_child : ℕ → ℕ → Heap → Heap
mark_child ptr offset h =
    let p = h.memory ((ptr + offset) % 2 ^ 64) in if p == unset_pointer then h else mark p h

-- The two loops over a type's pointers, and the choice between them.
pub mark_childs_offsets : ℕ → List ℕ → Heap → Heap
mark_childs_offsets ptr offsets h = for_each (mark_child ptr) offsets h

pub mark_childs_map : ℕ → (ℕ → ℕ) → Heap → Heap
mark_childs_map ptr map h = for_map (mark_child ptr) map h

pub mark_childs : ChildPointers → ℕ → Heap → Heap
mark_childs pointers ptr h = elim pointers.offsets [
  | some offsets ↦ mark_childs_offsets ptr offsets h
  | none ↦ mark_childs_map ptr pointers.map h
]

-- `_update_child_offsets` of the table at address `c`.
unfoldable pub update_childs : ℕ → Heap → Heap
update_childs c h = record h { childs = update h.childs c (update_child_offsets (h.childs c)) }

-- An array without pointers is passed over.
abbrev pub is_nil : List ℕ → Bool
is_nil [] = true
is_nil (_ ∷ _) = false

-- The loop over the elements of an array, whose addresses `element` gives.
pub mark_elements : ChildPointers → (ℕ → ℕ) → ℕ → Heap → Heap
mark_elements pointers element count h = elim pointers.offsets [
  | some offsets ↦
      if is_nil offsets
      then h
      else for_range count 0 (λ c s. mark_childs_offsets (element c) offsets s) h
  | none ↦ for_range count 0 (λ c s. mark_childs_map (element c) pointers.map s) h
]

-- Element `c` of the array at `ptr`.
abbrev pub element_of : ℕ → ℕ → ℕ → ℕ
element_of ptr size c = (ptr + array_base_size + c * size) % 2 ^ 64

pub mark_array_childs : ℕ → Heap → Heap
mark_array_childs ptr h =
    let m = array_metadata_of h ptr in
    let metadata = h.array_metadata m in
    let h' = update_childs metadata.child_pointers h in
    if m == 0
    then h
    else mark_elements (h'.childs metadata.child_pointers) (element_of ptr metadata.object_size)
        (array_count_of h' ptr) h'

-- What is done with the pointers of the object at `ptr`.
pub mark_pointers : Page → ℕ → Heap → Heap
mark_pointers page ptr h =
    if page.metadata.is_array
    then mark_array_childs ptr h
    else mark_childs (h.childs page.metadata.child_pointers) ptr h
