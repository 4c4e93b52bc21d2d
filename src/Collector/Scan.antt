-- ===== src/Collector/Scan.antt =====
-- sgcl/priv/collector.h, `_mark_reachable`: marking from the pages that hold reachable objects.
pub mod Flag
mod Tests
pub mod Visit
pub mod Keeps
pub mod Steps
pub mod Falls
pub mod Rounds
pub mod Ends
pub mod Leave
pub mod Finish
pub mod Sound
pub mod Drain
pub mod Complete
use Prim.Native.Nat.{bit_and, bit_or}
use sgcl.Base.{
  ℕ, zero, suc, ◌+◌, ◌*◌, ◌^◌, Bool, true, false, not, ◌==◌, if◌then◌else◌, List, [], ◌∷◌, ◌++◌,
  for_range, while,
}
use sgcl.Base.Bits.{has, complement}
use sgcl.Page.{Flags, Page, flag_bit_count, flags_count, pointer_of}
use sgcl.Heap.{Heap, page_at, put_page, flag_at, put_flag}
use sgcl.Collector.Mark.{mark_pointers, update_childs}

-- The heap with the local `marked` of the loop.
pub record Scan : Type 0 where
  pub heap : Heap
  pub marked : Bool

pub record_live : ℕ → Heap → Heap
record_live ptr h =
    if h.live_objects_request then record h { live_objects = h.live_objects ++ ptr ∷ [] } else h

-- An object whose reachable bit is set is marked, and then its pointers are.
pub visit : ℕ → ℕ → ℕ → Heap → Heap
visit a i j h =
    let flag = flag_at h a i in
    let h' = put_flag a i (record flag { marked = bit_or flag.marked (2 ^ j) }) h in
    let ptr = pointer_of (page_at h a) (i * flag_bit_count + j) in
    record_live ptr (mark_pointers (page_at h a) ptr h')

pub scan_bit : ℕ → ℕ → ℕ → Scan → Scan
scan_bit a i j s =
    if has (flag_at s.heap a i).reachable (2 ^ j)
    then record { heap = visit a i j s.heap; marked = true }
    else s

-- flag.reachable &= ~flag.marked
pub drop_marked : ℕ → ℕ → Heap → Heap
drop_marked a i h =
    let flag = flag_at h a i in
    put_flag a i (record flag { reachable = bit_and flag.reachable (complement 64 flag.marked) }) h

-- One round of `while (flag.reachable)`.
pub scan_bits : ℕ → ℕ → Scan → Scan
scan_bits a i s =
    let s' = for_range flag_bit_count 0 (scan_bit a i) s in
    record s' { heap = drop_marked a i s'.heap }

abbrev pub has_reachable : ℕ → ℕ → Scan → Bool
has_reachable a i s = not ((flag_at s.heap a i).reachable == 0)

module _ (fuel : ℕ) where
  pub scan_word : ℕ → ℕ → Scan → Scan
  scan_word a i s = while fuel (has_reachable a i) (scan_bits a i) s

  -- One round of `do … while (marked)`.
  pub scan_words : ℕ → Scan → Scan
  scan_words a s =
      for_range (flags_count (page_at s.heap a)) 0 (scan_word a) (record s { marked = false })

  pub scan_page : ℕ → Heap → Heap
  scan_page a h =
      (while fuel (λ (s : Scan). s.marked) (scan_words a)
        (scan_words a (record { heap = h; marked = false }))).heap

  -- The page at the head of the list, up to `page->reachable = false`.
  pub finish_page : ℕ → Heap → Heap
  finish_page a h =
      let h1 = update_childs (page_at h a).metadata.child_pointers h in
      let h2 = scan_page a h1 in put_page a (record (page_at h2 a) { reachable = false }) h2

-- The walk along the list of pages. At its end it goes on with the pages that were put on the list
-- meanwhile. `pages` bounds the pages, `fuel` the rounds on a page.
pub mark_pages : ℕ → ℕ → List ℕ → Heap → Heap
mark_pages zero fuel list h = h
mark_pages (suc pages) fuel [] h = h
mark_pages (suc pages) fuel (a ∷ []) h =
    let h' = finish_page fuel a h in
    mark_pages pages fuel h'.reachable_pages (record h' { reachable_pages = [] })
mark_pages (suc pages) fuel (a ∷ b ∷ list) h =
    mark_pages pages fuel (b ∷ list) (finish_page fuel a h)

pub mark_reachable : ℕ → ℕ → Heap → Heap
mark_reachable pages fuel h =
    mark_pages pages fuel h.reachable_pages (record h { reachable_pages = [] })
