-- ===== src/Collector/Scan/Steps.antt =====
-- Every part of `_mark_reachable` on one page is a step of marking.
use sgcl.Base.{
  ℕ, ◌^◌, ◌<◌, arith, false, Bool-cases, inl, inr, for_range, for_range_inv, while_keeps,
}
use sgcl.Base.Bits.{has}
use sgcl.Page.{flags_count}
use sgcl.Heap.{Heap, page_at, flag_at}
use sgcl.Collector.Frame.{CacheOk}
use sgcl.Collector.Mark.Cover.{Step, Step-refl, Step-trans}
use sgcl.Collector.Scan.{Scan, scan_bit, scan_bits, has_reachable, scan_word, scan_words, scan_page}
use sgcl.Collector.Scan.Keeps.{drop_marked-Step}
use sgcl.Collector.Scan.Visit.{Visited, visit-Visited}

-- A step from a heap whose tables are in order.
abbrev pub StepFrom : Heap → Heap → Type 0
StepFrom h h' = Step h h' × CacheOk h'

pub StepFrom-trans : {h h' h'' : Heap} → StepFrom h h' → StepFrom h' h'' → StepFrom h h''
StepFrom-trans s t = (Step-trans s.0 t.0, t.1)

pub scan_bit-Step :
    (a i j : ℕ) (s : Scan) → j < 64 → CacheOk s.heap → StepFrom s.heap (scan_bit a i j s).heap
unfolding scan_bit
scan_bit-Step a i j s lt ok = elim (Bool-cases (has (flag_at s.heap a i).reachable (2 ^ j))) [
  | inl t ↦ rw t (
      (
        Visited.step (visit-Visited a i j s.heap lt ok),
        Step.cache (Visited.step (visit-Visited a i j s.heap lt ok)) ok,
      ))
  | inr f ↦ rw f ((Step-refl s.heap, ok))
]

bits-Step :
    (a i : ℕ) (s : Scan) → CacheOk s.heap → StepFrom s.heap (for_range 64 0 (scan_bit a i) s).heap
bits-Step a i s ok =
    for_range_inv (λ j (t : Scan). StepFrom s.heap t.heap) (scan_bit a i) 64 0 64 s (omega arith)
      (λ j t lo hi p. StepFrom-trans p (scan_bit-Step a i j t hi p.1)) (Step-refl s.heap, ok)

pub scan_bits-Step : (a i : ℕ) (s : Scan) → CacheOk s.heap → StepFrom s.heap (scan_bits a i s).heap
unfolding scan_bits
scan_bits-Step a i s ok =
    let first = bits-Step a i s ok in
    let last = drop_marked-Step a i (for_range 64 0 (scan_bit a i) s).heap in
    (Step-trans first.0 last, last.cache first.1)

pub scan_word-Step :
    (fuel a i : ℕ) (s : Scan) → CacheOk s.heap → StepFrom s.heap (scan_word fuel a i s).heap
unfolding scan_word
scan_word-Step fuel a i s ok =
    while_keeps (λ (t : Scan). StepFrom s.heap t.heap) fuel (has_reachable a i) (scan_bits a i)
      (λ t e p. StepFrom-trans p (scan_bits-Step a i t p.1)) s (Step-refl s.heap, ok)

pub scan_words-Step :
    (fuel a : ℕ) (s : Scan) → CacheOk s.heap → StepFrom s.heap (scan_words fuel a s).heap
unfolding scan_words
scan_words-Step fuel a s ok =
    for_range_inv (λ i (t : Scan). StepFrom s.heap t.heap) (scan_word fuel a)
      (flags_count (page_at s.heap a)) 0 (flags_count (page_at s.heap a))
      (record s { marked = false }) (omega arith)
      (λ i t lo hi p. StepFrom-trans p (scan_word-Step fuel a i t p.1)) (Step-refl s.heap, ok)

pub scan_page-Step : (fuel a : ℕ) (h : Heap) → CacheOk h → StepFrom h (scan_page fuel a h)
unfolding scan_page
scan_page-Step fuel a h ok =
    while_keeps (λ (t : Scan). StepFrom h t.heap) fuel _ (scan_words fuel a)
      (λ t e p. StepFrom-trans p (scan_words-Step fuel a t p.1)) _ (scan_words-Step fuel a _ ok)
