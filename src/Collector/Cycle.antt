-- ===== src/Collector/Cycle.antt =====
-- sgcl/priv/collector.h, the passes of one turn of `_main_loop`, from the roots to the garbage.
pub mod Live
pub mod Phase
pub mod Settle
pub mod Turns
pub mod Collect
mod Tests
use sgcl.Base.{ℕ, Bool, not, List, while}
use sgcl.Heap.{Heap}
use sgcl.Threads.{Data}
use sgcl.Collector.Mark.{is_nil}
use sgcl.Collector.Scan.{mark_reachable}
use sgcl.Collector.Updated.{mark_updated}
use sgcl.Collector.Garbage.{Sweep, remove_garbage}
use sgcl.Collector.Roots.{mark_roots}

module _ (rounds fuel : ℕ) where
  -- One turn of `do … while (_reachable_pages)`.
  pub mark_turn : Heap → Heap
  mark_turn h =
      let h' = mark_reachable rounds fuel h in mark_updated (is_nil h'.unreachable_pages) h'

  module _ (turns : ℕ) where
    pub mark_turns : Heap → Heap
    mark_turns h =
        while turns (λ (h : Heap). not (is_nil h.reachable_pages)) mark_turn (mark_turn h)

    pub collect : List Data → List ℕ → Heap → Sweep
    collect threads nodes h = remove_garbage (mark_turns (mark_roots threads nodes h))
