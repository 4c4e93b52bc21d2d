-- ===== src/Collector/Cycle/Collect.antt =====
-- sgcl/priv/collector.h, the passes of a turn of `_main_loop` together: exactly the objects that are not
-- live are removed.
use sgcl.Base.{
  ℕ, suc, ◌+◌, ◌≤◌, ◌<◌, ◌≡◌, ◌↔◌, sym, ap, subst, ◌∙◌, arith, true, not, ◌&&◌, if◌then◌else◌, inl,
  inr, List,
}
use sgcl.Base.Lists.{length, All, All-member}
use sgcl.State
use sgcl.Heap.{Heap, page_at}
use sgcl.Threads.{Data}
use sgcl.Collector.Bits.{is_registered, is_marked}
use sgcl.Collector.Measure.{unmarked, is_registered-Frame}
use sgcl.Collector.Mark.Effect.{covered}
use sgcl.Collector.Mark.Cover.{
  covered-reached, slot_covered, slot_covered-reached, points_at-Frame, holds-Frame,
}
use sgcl.Collector.Reach.{slots, slots-Frame}
use sgcl.Collector.Garbage.Effect.{garbage}
use sgcl.Collector.Garbage.Sweeps.{in_groups, elem, Memᴰ-elem, remove_garbage_lem}
use sgcl.Collector.Roots.{mark_roots, root_words}
use sgcl.Collector.Roots.Effect.{Rooted, mark_roots_words, for_each-Rooted}
use sgcl.Collector.Scan.Finish.{IsGrouped-Frame}
use sgcl.Collector.Cycle.{mark_turns, collect}
use sgcl.Collector.Cycle.Live.{Live, root, kept, child, Live-registered, IsIdle}
use sgcl.Collector.Cycle.Turns.{Settled, mark_turns-Settled}

module _ (size : ℕ → ℕ) (pages roots : List ℕ) (h₀ : Heap) (idle : IsIdle size pages h₀) where
  Live-marked :
      {h : Heap}
      → Settled size pages roots h₀ idle h
      → (a k : ℕ) → Live roots h₀ a k
      → is_marked h a k ≡ true
  Live-marked {h} s a k (root (x, m, p, r)) =
      let f = s.turned.phase.frame in
      ground (
        arith,
        s.done a k,
        covered-reached (h₀.memory x) h a k
            (All-member (λ x. covered h (h₀.memory x) ≡ true) roots m s.turned.phase.roots_covered)
            (points_at-Frame (h₀.memory x) a k f ∙ p) (is_registered-Frame a k f ∙ r),
      )
  Live-marked s a k (kept t) = ground (arith, s.done a k, s.turned.settled a k t)
  Live-marked {h} s b n (child {a} {k} l (x, m, p, r)) =
      let f = s.turned.phase.frame in
      ground (
        arith,
        s.done b n,
        slot_covered-reached x h b n
            (All-member (λ x. slot_covered h x ≡ true) (slots h₀ a k) m
              (subst (λ xs. All (λ x. slot_covered h x ≡ true) xs) (slots-Frame a k f)
                (s.turned.phase.closed.closed a k (Live-marked s a k l))))
            (holds-Frame x b n f ∙ p) (is_registered-Frame b n f ∙ r),
      )

  -- An object that is not marked is on a page that is swept.
  garbage_swept :
      {h : Heap}
      → Settled size pages roots h₀ idle h
      → (a k : ℕ) → garbage h a k ≡ true
      → (elem a h.unreachable_pages ≡ true) × (in_groups h a k ≡ true)
  garbage_swept {h} s a k g =
      let r : is_registered h₀ a k ≡ true =
        sym (is_registered-Frame a k s.turned.phase.frame) ∙ ground (arith, g) in
      (
        elim (s.turned.swept a k r) [
          | inl y ↦ absurd (ground (arith, s.done a k))
          | inr m ↦ Memᴰ-elem a h.unreachable_pages m
        ],
        ground (arith, IsGrouped-Frame s.turned.phase.frame idle.grouped a k),
      )

  Rooted-mark_roots :
      (threads : List Data) (nodes : List ℕ)
      → Rooted (root_words threads nodes) h₀ (mark_roots threads nodes h₀)
  Rooted-mark_roots threads nodes =
      subst (Rooted (root_words threads nodes) h₀) (sym (mark_roots_words threads nodes h₀))
        (for_each-Rooted (root_words threads nodes) h₀)

-- From a heap whose objects have just been registered, with no object marked and the lists of the marking
-- empty, with more rounds on a page than there are registered objects, a round for each registered object
-- and each registered page, and two turns or more, the passes from the roots to the garbage keep
-- registered exactly the objects that a chain of pointers leads to from the words of the roots and from
-- the objects in a state from `Reachable` to `UniqueLock`; the other registered objects become unused,
-- and no other state changes.
pub collect_lem :
    (size : ℕ → ℕ) (pages : List ℕ) (rounds fuel turns : ℕ) (threads : List Data) (nodes : List ℕ)
    (h : Heap)
    → IsIdle size pages h
    → unmarked size pages h < fuel
    → unmarked size pages h + length h.registered_pages ≤ rounds
    → (a k : ℕ)
    → let h' = (collect rounds fuel (suc turns) threads nodes h).heap in
      ((is_registered h' a k ≡ true) ↔ Live (root_words threads nodes) h a k)
      × ((page_at h' a).states k ≡ (
          if is_registered h a k && not (is_registered h' a k)
          then State.unused
          else (page_at h a).states k))
unfolding collect
collect_lem size pages rounds fuel turns threads nodes h idle lt le a k =
    let roots = root_words threads nodes in
    let h' = mark_turns rounds fuel (suc turns) (mark_roots threads nodes h) in
    let s =
      mark_turns-Settled size pages roots h idle rounds fuel turns (mark_roots threads nodes h) lt
        le (Rooted-mark_roots size pages roots h idle threads nodes) in
    let z = remove_garbage_lem h' a k in
    let r = is_registered-Frame a k s.turned.phase.frame in
    let swept = garbage_swept size pages roots h idle s a k in
    (
      (
        λ y. s.turned.phase.sound a k (ground (arith, z.1, y, swept)),
        λ l. ground (
          arith,
          z.1,
          r ∙ Live-registered roots h a k l,
          Live-marked size pages roots h idle s a k l,
        ),
      ),
      ground (arith, z.0, z.1, swept, r, ap (λ (f : ℕ → ℕ). f k) (s.turned.phase.frame.states a)),
    )
