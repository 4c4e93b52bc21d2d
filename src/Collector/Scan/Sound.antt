-- ===== src/Collector/Scan/Sound.antt =====
-- sgcl/priv/collector.h, `_mark_reachable` as a whole: what it reaches and what its marks promise.
use sgcl.Base.{ℕ, zero, suc, ◌≡◌, arith, true, List, [], ◌∷◌}
use sgcl.Base.Lists.{All, All-map}
use sgcl.Heap.{Heap, page_at}
use sgcl.Collector.Bits.{is_marked, is_reached}
use sgcl.Collector.Frame.{Frame, Frame-refl, Frame-trans, CacheOk}
use sgcl.Collector.Mark.Cover.{slot_covered, slot_covered-Frame}
use sgcl.Collector.Reach.{slots, Reach, found, Inv}
use sgcl.Collector.Scan.{finish_page, mark_pages, mark_reachable}
use sgcl.Collector.Scan.Leave.{leave_list, leave_list-Frame, relist-Frame}
use sgcl.Collector.Scan.Keeps.{scan_page-Inv, update_childs-Inv}

leave_list-Inv : {h₀ : Heap} (a : ℕ) (h : Heap) → Inv h₀ h → Inv h₀ (leave_list a h)
leave_list-Inv {h₀} a h v = record {
  frame = Frame-trans v.frame (leave_list-Frame a h);
  cache = v.cache;
  grows = λ b k p. ground (arith, v.grows b k p);
  sound = λ b k p. v.sound b k (ground arith);
  closed = λ b k p.
      All-map (λ x. slot_covered-Frame x (leave_list-Frame a h) (λ b n r. ground arith))
        (slots h₀ b k) (v.closed b k (ground arith));
}

finish_page-Inv : {h₀ : Heap} (fuel a : ℕ) (h : Heap) → Inv h₀ h → Inv h₀ (finish_page fuel a h)
unfolding finish_page
finish_page-Inv fuel a h v =
    leave_list-Inv a _
      (scan_page-Inv fuel a _ (update_childs-Inv (page_at h a).metadata.child_pointers h v))

set_list-Inv :
    {h₀ : Heap} (l : List ℕ) (h : Heap) → Inv h₀ h → Inv h₀ (record h { reachable_pages = l })
set_list-Inv l h v = record {
  frame = Frame-trans v.frame (relist-Frame l h);
  cache = v.cache;
  grows = v.grows;
  sound = v.sound;
  closed = v.closed;
}

mark_pages-Inv :
    {h₀ : Heap} (pages fuel : ℕ) (list : List ℕ) (h : Heap)
    → Inv h₀ h
    → Inv h₀ (mark_pages pages fuel list h)
unfolding mark_pages
mark_pages-Inv zero fuel list h v = v
mark_pages-Inv (suc pages) fuel [] h v = v
mark_pages-Inv (suc pages) fuel (a ∷ []) h v =
    mark_pages-Inv pages fuel _ _ (set_list-Inv [] _ (finish_page-Inv fuel a h v))
mark_pages-Inv (suc pages) fuel (a ∷ b ∷ list) h v =
    mark_pages-Inv pages fuel (b ∷ list) _ (finish_page-Inv fuel a h v)

-- The pointers of the marked objects are covered, as they are before the first object is marked and
-- whenever `_mark_reachable` has returned.
pub record IsClosed (h : Heap) : Type 0 where
  pub cache : CacheOk h
  pub closed : (a k : ℕ) → is_marked h a k ≡ true → All (λ x. slot_covered h x ≡ true) (slots h a k)

start-Inv : (h : Heap) → IsClosed h → Inv h h
start-Inv h s = record {
  frame = Frame-refl h;
  cache = s.cache;
  grows = λ a k p. p;
  sound = λ a k p. found p;
  closed = s.closed;
}

pub mark_reachable-Inv :
    (pages fuel : ℕ) (h : Heap) → IsClosed h → Inv h (mark_reachable pages fuel h)
unfolding mark_reachable
mark_reachable-Inv pages fuel h s =
    mark_pages-Inv pages fuel h.reachable_pages (record h { reachable_pages = [] })
      (set_list-Inv [] h (start-Inv h s))

-- From a heap in which the pointers of the marked objects are covered, `_mark_reachable` reaches only
-- objects that a chain of pointers leads to from those that were reached already, and keeps these;
-- whatever it has marked, each pointer of that object is null, unset, or leads to an object that is
-- not registered or is reached too; and the words, the layout, the states and the registered bits are
-- as they were.
mark_reachable_sound :
    (pages fuel : ℕ) (h : Heap)
    → IsClosed h
    → let h' = mark_reachable pages fuel h in
      ((a k : ℕ) → is_reached h a k ≡ true → is_reached h' a k ≡ true)
      × ((a k : ℕ) → is_reached h' a k ≡ true → Reach h a k)
      × ((a k : ℕ) → is_marked h' a k ≡ true → All (λ x. slot_covered h' x ≡ true) (slots h a k))
      × Frame h h'
mark_reachable_sound pages fuel h s =
    let v = mark_reachable-Inv pages fuel h s in (v.grows, v.sound, v.closed, v.frame)
