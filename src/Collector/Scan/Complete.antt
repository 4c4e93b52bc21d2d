-- ===== src/Collector/Scan/Complete.antt =====
-- sgcl/priv/collector.h, `_mark_reachable` as a whole: with enough fuel it ends, and then no object is
-- left reachable and the marked objects are those that a chain of pointers leads to.
use sgcl.Base.{ℕ, ◌≤◌, ◌<◌, ◌≡◌, arith, true, false, inl, inr, List, [], Bool-cases, ◌∙◌, ◌↔◌}
use sgcl.Base.Lists.{All-member}
use sgcl.Heap.{Heap, page_at}
use sgcl.Collector.Bits.{is_reachable, is_marked}
use sgcl.Collector.Measure.{unmarked, potential, is_registered-Frame}
use sgcl.Collector.Reach.{slots, Reach, found, follow, Inv}
use sgcl.Collector.Mark.Cover.{holds-Frame, slot_covered, slot_covered-reached}
use sgcl.Collector.Scan.Sound.{IsClosed, mark_reachable-Inv}
use sgcl.Collector.Scan.{mark_reachable}
use sgcl.Collector.Scan.Drain.{Drained, CanMark, mark_reachable-Drained}

-- A page without the flag has no reachable object, and no page has it.
pub Drained-reachable : {h h' : Heap} → Drained h h' → (a k : ℕ) → is_reachable h' a k ≡ false
Drained-reachable {h} {h'} d a k = elim (Bool-cases (is_reachable h' a k)) [
  | inl r ↦ absurd (ground (arith, d.left a, d.ready.flags.flagged a k r))
  | inr n ↦ n
]

Reach-marked :
    {h h' : Heap} → Inv h h' → Drained h h' → (a k : ℕ) → Reach h a k → is_marked h' a k ≡ true
Reach-marked v d a k (found r) = ground (arith, v.grows a k r, Drained-reachable d a k)
Reach-marked {h} {h'} v d b n (follow {a} {k} r (x, m, p, q)) = ground (
  arith,
  slot_covered-reached x h' b n
      (All-member (λ x. slot_covered h' x ≡ true) (slots h a k) m
        (v.closed a k (Reach-marked v d a k r)))
      (holds-Frame x b n v.frame ∙ p) (is_registered-Frame b n v.frame ∙ q),
  Drained-reachable d b n,
)

-- From a heap in which the pointers of the marked objects are covered and each page with a reachable
-- object waits on the list, and with more rounds on a page than there are registered objects that are
-- not marked and as many pages as there are objects that are not reached and pages that wait,
-- `_mark_reachable` marks exactly the objects that a chain of pointers leads to from those that were
-- marked or reachable; it leaves no object reachable, no page with the flag, and the list empty.
pub mark_reachable_lem :
    (size : ℕ → ℕ) (pages : List ℕ) (rounds fuel : ℕ) (h : Heap)
    → IsClosed h
    → CanMark size pages h
    → unmarked size pages h < fuel
    → potential size pages h ≤ rounds
    → let h' = mark_reachable rounds fuel h in
      ((a k : ℕ) → is_marked h' a k ≡ true ↔ Reach h a k)
      × ((a k : ℕ) → is_reachable h' a k ≡ false)
      × ((a : ℕ) → (page_at h' a).reachable ≡ false)
      × (h'.reachable_pages ≡ [])
mark_reachable_lem size pages rounds fuel h s c lt le =
    let v = mark_reachable-Inv rounds fuel h s in
    let d = mark_reachable-Drained size pages rounds fuel h c lt le in
    (
      λ a k. (λ m. v.sound a k (ground arith), Reach-marked v d a k),
      Drained-reachable d,
      d.left,
      d.empty,
    )
