-- ===== src/Collector/Scan/Leave.antt =====
-- sgcl/priv/collector.h, `_mark_reachable`: `page->reachable = false`, by which a page leaves the list.
use sgcl.Base.{ℕ, refl, arith, false, List}
use sgcl.Heap.{Heap, page_at, put_page}
use sgcl.Collector.Frame.{Frame, SameSweep}

abbrev pub leave_list : ℕ → Heap → Heap
leave_list a h = put_page a (record (page_at h a) { reachable = false }) h

pub leave_list-Frame : (a : ℕ) (h : Heap) → Frame h (leave_list a h)
leave_list-Frame a h = record {
  memory = refl;
  header = refl;
  arrays = refl;
  maps = λ c. refl;
  metadata = λ b. ground arith;
  data_address = λ b. ground arith;
  multiplier = λ b. ground arith;
  states = λ b. ground arith;
  registered = λ b i. ground arith;
  lists = refl;
}

pub leave_list-SameSweep : (a : ℕ) (h : Heap) → SameSweep h (leave_list a h)
leave_list-SameSweep a h = record { pages = refl; flags = λ b. ground arith }

-- `_reachable_pages = nullptr`, and the like.
pub relist-Frame : (l : List ℕ) (h : Heap) → Frame h (record h { reachable_pages = l })
relist-Frame l h = record {
  memory = refl;
  header = refl;
  arrays = refl;
  maps = λ c. refl;
  metadata = λ b. refl;
  data_address = λ b. refl;
  multiplier = λ b. refl;
  states = λ b. refl;
  registered = λ b i. refl;
  lists = refl;
}
