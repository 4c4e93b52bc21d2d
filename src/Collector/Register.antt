-- ===== src/Collector/Register.antt =====
-- sgcl/priv/collector.h, `_register_objects`: the flags of the pages in use are cleared, and the objects
-- that were constructed since the last cycle are registered. Pages that are not in use leave the list
-- of pages. No page is put on that list meanwhile.
pub mod Effect
use Prim.Native.Nat.{bit_or}
use sgcl.Base.{
  ℕ, ◌+◌, ◌-◌, ◌*◌, ◌^◌, Bool, true, false, ◌&&◌, ltb, leb, ◌==◌, if◌then◌else◌, List, [], ◌∷◌,
  for_range,
}
use sgcl.Base.Bits.{has, complement}
use sgcl.State
use sgcl.Page.{Page, clear_flags, flag_bit_count, flags_count}
use sgcl.Heap.{Heap, page_at, put_page, flag_at, put_flag}

pub push_registered : ℕ → Heap → Heap
push_registered a h =
    if (page_at h a).registered
    then h
    else let h' = put_page a (record (page_at h a) { registered = true }) h in
      record h' { registered_pages = a ∷ h.registered_pages }

-- Bit `j` of group `i`, with the word `unregistered` of the group.
pub register_bit : ℕ → ℕ → ℕ → ℕ → Heap → Heap
register_bit a i unregistered j h =
    let flag = flag_at h a i in
    let state = (page_at h a).states (i * flag_bit_count + j) in
    if has unregistered (2 ^ j)
    then if leb State.reachable state && leb state State.bad_alloc
      then push_registered a
          (put_flag a i (record flag { registered = bit_or flag.registered (2 ^ j) }) h)
      else h
    else h

-- The local `flagBitCount`: the last group may have fewer objects.
pub bit_count : Page → ℕ → ℕ
bit_count page i =
    let object_count = (i + 1) * flag_bit_count in
    if i == flags_count page - 1
    then if ltb page.metadata.object_count object_count
      then flag_bit_count - (object_count - page.metadata.object_count)
      else flag_bit_count
    else flag_bit_count

pub register_group : ℕ → ℕ → Heap → Heap
register_group a i h =
    let unregistered = complement 64 (flag_at h a i).registered in
    if unregistered == 0
    then h
    else for_range (bit_count (page_at h a) i) 0 (register_bit a i unregistered) h

pub register_page : ℕ → Heap → Heap
register_page a h =
    let h' = put_page a (clear_flags (page_at h a)) h in
    for_range (flags_count (page_at h' a)) 0 (register_group a) h'

-- The pages that are kept, and the heap.
pub register_pages : List ℕ → Heap → List ℕ × Heap
register_pages [] h = ([], h)
register_pages (a ∷ list) h = elim (page_at h a).is_used [
  | true ↦ let rest = register_pages list (register_page a h) in (a ∷ rest.0, rest.1)
  | false ↦ register_pages list h
]

pub register_objects : Heap → Heap
register_objects h = let r = register_pages h.pages h in record r.1 { pages = r.0 }
