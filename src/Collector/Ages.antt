-- ===== src/Collector/Ages.antt =====
-- sgcl/priv/collector.h, `_update_states`: the states of the registered objects fall back to `Used`, at
-- once from `Reachable`, and one step at a time from the states above it.
pub mod Effect
use sgcl.Base.{
  ℕ, ◌-◌, ◌/◌, Bool, true, false, ◌&&◌, ◌||◌, leb, ltb, if◌then◌else◌, List, [], ◌∷◌, for_range,
  for_each,
}
use sgcl.Base.Bits.{has}
use sgcl.State
use sgcl.Types.{deletion_delay}
use sgcl.Page.{Page, flag_index_of, flag_mask_of}
use sgcl.Heap.{Heap, page_at, flag_at, put_state}

pub age_object : Bool → ℕ → ℕ → Heap → Heap
age_object atomic a i h =
    let state = (page_at h a).states i in
    if leb State.reachable state && leb state State.reachable_atomic
    then if has (flag_at h a (flag_index_of i)).registered (flag_mask_of i)
      then if ltb State.reachable state
        then if atomic then put_state a i (state - 1) h else h
        else put_state a i State.used h
      else h
    else h

pub age_page : Bool → ℕ → Heap → Heap
age_page atomic a h = for_range (page_at h a).metadata.object_count 0 (age_object atomic a) h

-- The local `atomic`, from `_terminating` and the milliseconds since the timer was reset.
pub is_atomic_turn : Bool → ℕ → Bool
is_atomic_turn terminating duration =
    leb (deletion_delay / (State.reachable_atomic - 2)) duration || terminating

pub update_states : Bool → ℕ → Heap → Heap
update_states terminating duration h =
    for_each (age_page (is_atomic_turn terminating duration)) h.registered_pages h
