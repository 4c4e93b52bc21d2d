-- ===== src/Collector/Mark/Slots.antt =====
-- The pointers of an object are visited in the same order through the offsets as through the map:
-- marking an object's pointers is marking what its slots hold.
use sgcl.Base.{
  ℕ, ◌+◌, ◌%◌, ◌^◌, ◌≡◌, refl, ap, sym, ◌∙◌, arith, true, false, not, ◌&&◌, ◌==◌, if◌then◌else◌,
  Bool-cases, inl, inr, Option-cases, some, List, [], ◌∷◌, ◌++◌, for_range, for_each,
  for_each-append, for_range-collect, for_range-ext, for_range_skip,
}
use sgcl.Page.{Metadata, Page}
use sgcl.ChildPointers.{ChildPointers, offsets_of}
use sgcl.ChildPointers.Offsets.{for_each-offsets_of, update_child_offsets_lem}
use sgcl.Heap.{Heap, ArrayMetadata, array_metadata_of, array_count_of}
use sgcl.Collector.Frame.{Frame, CacheOk}
use sgcl.Collector.Mark.{
  unset_pointer, mark, mark_child, mark_childs_offsets, mark_childs_map, mark_childs, update_childs,
  mark_array_childs, mark_pointers, mark_elements, element_of, is_nil,
}

abbrev pub slots_of : ℕ → List ℕ → List ℕ
slots_of ptr [] = []
slots_of ptr (o ∷ os) = ((ptr + o) % 2 ^ 64) ∷ slots_of ptr os

-- The addresses of the pointers of the object at `ptr`, from the words of the memory, the array
-- metadata, the maps of the types and the metadata of the object's page.
array_slots_in : (ℕ → ℕ) → (ℕ → ArrayMetadata) → (ℕ → ℕ → ℕ) → ℕ → List ℕ
array_slots_in memory arrays maps ptr =
    let metadata = arrays (memory ptr) in
    for_range (memory ((ptr + 8) % 2 ^ 64)) 0
      (λ c slots.
        slots
        ++ slots_of (element_of ptr metadata.object_size c)
            (offsets_of (maps metadata.child_pointers)))
      []

pub slots_in : (ℕ → ℕ) → (ℕ → ArrayMetadata) → (ℕ → ℕ → ℕ) → Metadata → ℕ → List ℕ
unfolding array_slots_in
slots_in memory arrays maps metadata ptr =
    if metadata.is_array
    then if memory ptr == 0 then [] else array_slots_in memory arrays maps ptr
    else slots_of ptr (offsets_of (maps metadata.child_pointers))

abbrev array_slots : Heap → ℕ → List ℕ
array_slots h ptr = array_slots_in h.memory h.array_metadata (λ c. (h.childs c).map) ptr

abbrev pub object_slots : Heap → Page → ℕ → List ℕ
object_slots h page ptr =
    slots_in h.memory h.array_metadata (λ c. (h.childs c).map) page.metadata ptr

unfoldable pub mark_slot : ℕ → Heap → Heap
mark_slot x h = let p = h.memory x in if p == unset_pointer then h else mark p h

-- Looking at an array fills in the list of offsets of its elements' type.
unfoldable pub refresh : Page → ℕ → Heap → Heap
refresh page ptr h =
    let m = array_metadata_of h ptr in
    if page.metadata.is_array && not (m == 0)
    then update_childs (h.array_metadata m).child_pointers h
    else h

mark_childs_offsets-slots :
    (ptr : ℕ) (os : List ℕ) (h : Heap)
    → mark_childs_offsets ptr os h ≡ for_each mark_slot (slots_of ptr os) h
unfolding mark_childs_offsets for_each mark_child mark_slot
mark_childs_offsets-slots ptr [] h = refl
mark_childs_offsets-slots ptr (o ∷ os) h = mark_childs_offsets-slots ptr os (mark_child ptr o h)

mark_childs_map-slots :
    (ptr : ℕ) (map : ℕ → ℕ) (h : Heap)
    → mark_childs_map ptr map h ≡ for_each mark_slot (slots_of ptr (offsets_of map)) h
unfolding mark_childs_map mark_childs_offsets
mark_childs_map-slots ptr map h =
    sym (for_each-offsets_of (mark_child ptr) map h)
    ∙ mark_childs_offsets-slots ptr (offsets_of map) h

mark_childs-slots :
    (c : ChildPointers) (ptr : ℕ) (h : Heap)
    → ((os : List ℕ) → c.offsets ≡ some os → os ≡ offsets_of c.map)
    → mark_childs c ptr h ≡ for_each mark_slot (slots_of ptr (offsets_of c.map)) h
unfolding mark_childs
mark_childs-slots c ptr h ok = elim (Option-cases c.offsets) [
  | inl e ↦ rw e (mark_childs_map-slots ptr c.map h)
  | inr (os, e) ↦ rw e (
      mark_childs_offsets-slots ptr os h
      ∙ ap (λ l. for_each mark_slot (slots_of ptr l) h) (ok os e))
]

-- The loop over the elements visits the slots of the array.
array-slots :
    (element : ℕ → ℕ) (os : List ℕ) (n : ℕ) (h : Heap)
    → for_range n 0 (λ c s. mark_childs_offsets (element c) os s) h
      ≡ for_each mark_slot (for_range n 0 (λ c slots. slots ++ slots_of (element c) os) []) h
unfolding for_each
array-slots element os n h = sym (
    for_range-collect mark_slot (λ c slots. slots ++ slots_of (element c) os)
      (λ c s. mark_childs_offsets (element c) os s)
      (λ c slots s.
        for_each-append mark_slot slots _ s
        ∙ sym (mark_childs_offsets-slots (element c) os (for_each mark_slot slots s)))
      n 0 [] h)

-- The two ways of visiting an element do the same.
element-slots :
    (element : ℕ → ℕ) (map : ℕ → ℕ) (n : ℕ) (h : Heap)
    → for_range n 0 (λ c s. mark_childs_map (element c) map s) h
      ≡ for_range n 0 (λ c s. mark_childs_offsets (element c) (offsets_of map) s) h
element-slots element map n h =
    for_range-ext _ _
      (λ c s.
        mark_childs_map-slots (element c) map s
        ∙ sym (mark_childs_offsets-slots (element c) (offsets_of map) s))
      n 0 h

mark_no_offsets :
    (element : ℕ → ℕ) (os : List ℕ) (n : ℕ) (h : Heap)
    → is_nil os ≡ true
    → for_range n 0 (λ c s. mark_childs_offsets (element c) os s) h ≡ h
unfolding mark_childs_offsets for_each
mark_no_offsets element [] n h e = for_range_skip _ (λ k s. refl) n 0 h
mark_no_offsets element (o ∷ os) n h e = cc

mark_elements-slots :
    (c : ChildPointers) (element : ℕ → ℕ) (n : ℕ) (h : Heap)
    → ((os : List ℕ) → c.offsets ≡ some os → os ≡ offsets_of c.map)
    → mark_elements c element n h
      ≡ for_each mark_slot
          (for_range n 0 (λ k slots. slots ++ slots_of (element k) (offsets_of c.map)) [])
          h
unfolding mark_elements
mark_elements-slots c element n h ok = elim (Option-cases c.offsets) [
  | inl e ↦ rw e (element-slots element c.map n h ∙ array-slots element (offsets_of c.map) n h)
  | inr (os, e) ↦
      rw (e, ← ok os e)
        (elim (Bool-cases (is_nil os)) [
          | inl z ↦ rw z (sym (mark_no_offsets element os n h z) ∙ array-slots element os n h)
          | inr z ↦ rw z (array-slots element os n h)
        ])
]

pub update_childs-Frame : (c : ℕ) (h : Heap) → Frame h (update_childs c h)
unfolding update_childs
update_childs-Frame c h = record {
  memory = refl;
  header = refl;
  arrays = refl;
  maps = λ d. ground (arith, (update_child_offsets_lem (h.childs c)).0);
  metadata = λ a. refl;
  data_address = λ a. refl;
  multiplier = λ a. refl;
  states = λ a. refl;
  registered = λ a i. refl;
  lists = refl;
}

pub update_childs-CacheOk : (c : ℕ) (h : Heap) → CacheOk h → CacheOk (update_childs c h)
unfolding update_childs
update_childs-CacheOk c h ok d os e = elim (Bool-cases (c == d)) [
  | inl same ↦
      rw (same, (update_child_offsets_lem (h.childs c)).0)
        ((update_child_offsets_lem (h.childs c)).1 os (ok c) (rw same at e))
  | inr other ↦ rw other (ok d os (rw other at e))
]

mark_array_childs-slots :
    (ptr : ℕ) (h : Heap)
    → CacheOk h
    → (array_metadata_of h ptr == 0) ≡ false
    → mark_array_childs ptr h
      ≡ for_each mark_slot
          (array_slots h ptr)
          (update_childs (h.array_metadata (array_metadata_of h ptr)).child_pointers h)
unfolding mark_array_childs update_childs array_slots_in
mark_array_childs-slots ptr h ok e =
    rw e (mark_elements-slots (h'.childs cp) el n h' (update_childs-CacheOk cp h ok cp) ∙ same)
  where
    m : ArrayMetadata
    m = h.array_metadata (array_metadata_of h ptr)

    cp : ℕ
    cp = m.child_pointers

    h' : Heap
    h' = update_childs cp h

    el : ℕ → ℕ
    el = element_of ptr m.object_size

    n : ℕ
    n = array_count_of h ptr

    same :
        for_each mark_slot
          (for_range n 0 (λ k slots. slots ++ slots_of (el k) (offsets_of (h'.childs cp).map)) [])
          h'
        ≡ for_each mark_slot (array_slots h ptr) h'
    same =
        ap
          (λ map.
            for_each mark_slot
              (for_range n 0 (λ k slots. slots ++ slots_of (el k) (offsets_of map)) []) h')
          (Frame.maps (update_childs-Frame cp h) cp)

mark_array_childs_skip :
    (ptr : ℕ) (h : Heap) → (array_metadata_of h ptr == 0) ≡ true → mark_array_childs ptr h ≡ h
unfolding mark_array_childs
mark_array_childs_skip ptr h z = rw z refl

-- Marking the pointers of an object is marking what its slots hold, one after the other.
pub mark_pointers-slots :
    (page : Page) (ptr : ℕ) (h : Heap)
    → CacheOk h
    → mark_pointers page ptr h ≡ for_each mark_slot (object_slots h page ptr) (refresh page ptr h)
unfolding mark_pointers slots_in refresh for_each
mark_pointers-slots page ptr h ok = elim (Bool-cases page.metadata.is_array) [
  | inl array ↦ elim (Bool-cases (array_metadata_of h ptr == 0)) [
    | inl z ↦ rw (array, z) (mark_array_childs_skip ptr h z)
    | inr n ↦ rw (array, n) (mark_array_childs-slots ptr h ok n)
  ]
  | inr plain ↦ rw plain (
      mark_childs-slots (h.childs page.metadata.child_pointers) ptr h
        (ok page.metadata.child_pointers))
]
