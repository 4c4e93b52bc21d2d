-- ===== src/Collector/Updated.antt =====
-- sgcl/priv/collector.h, `_mark_updated`: the objects whose states say that they were touched since the
-- cycle began are reachable.
pub mod Effect
pub mod Local
pub mod Refresh
pub mod Single
pub mod Lists
pub mod Pages
use Prim.Native.Nat.{bit_and, bit_or}
use sgcl.Base.{
  ℕ, ◌+◌, ◌*◌, ◌^◌, Bool, true, false, ◌&&◌, not, leb, if◌then◌else◌, List, [], ◌∷◌, for_each,
}
use sgcl.Base.Bits.{complement}
use sgcl.State
use sgcl.Page.{Flags, Page, flag_bit_count, flags_count}
use sgcl.Heap.{Heap, page_at, put_page, flag_at, put_flag}
use sgcl.Collector.Groups.{for_groups}
use sgcl.Collector.Mark.{push_reachable}

-- The heap with the locals of the loop over a page.
pub record Update : Type 0 where
  pub heap : Heap
  pub reachable_page : Bool
  pub unreachable_page : Bool

-- flag.registered & ~flag.marked
pub updated_word : ℕ → ℕ → Update → ℕ
updated_word a i s =
    let flag = flag_at s.heap a i in bit_and flag.registered (complement 64 flag.marked)

-- The object at bit `j` of group `i`; `all` is the template's parameter.
pub update_object : Bool → ℕ → ℕ → ℕ → Update → Update
update_object all a i j s =
    let flag = flag_at s.heap a i in
    let state = (page_at s.heap a).states (i * flag_bit_count + j) in
    if leb State.reachable state && leb state State.unique_lock
    then record s {
      heap = put_flag a i (record flag { reachable = bit_or flag.reachable (2 ^ j) }) s.heap;
      reachable_page = true;
    }
    else if all
    then record s { unreachable_page = true }
    else s

pub push_unreachable : ℕ → Heap → Heap
push_unreachable a h =
    if (page_at h a).unreachable
    then h
    else let h' = put_page a (record (page_at h a) { unreachable = true }) h in
      record h' { unreachable_pages = a ∷ h.unreachable_pages }

pub mark_updated_page : Bool → ℕ → Heap → Heap
mark_updated_page all a h =
    let s =
      for_groups (updated_word a) (update_object all a) (λ i s. s) (flags_count (page_at h a))
        (record { heap = h; reachable_page = false; unreachable_page = false }) in
    let h' = if s.reachable_page then push_reachable a s.heap else s.heap in
    if all && s.unreachable_page then push_unreachable a h' else h'

pub mark_updated : Bool → Heap → Heap
mark_updated all h =
    for_each (mark_updated_page all) (if all then h.registered_pages else h.unreachable_pages) h
