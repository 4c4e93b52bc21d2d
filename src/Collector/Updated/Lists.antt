-- ===== src/Collector/Updated/Lists.antt =====
-- sgcl/priv/collector.h, `_mark_updated` over a list of pages: the lists of pages after it.
use mathlib.Core.List.{Memᴰ}
use mathlib.Core.List.Memᴰ
use sgcl.Base.{
  ◌≤◌, ◌+◌, ℕ, ◌≡◌, refl, sym, subst, ◌∙◌, arith, Bool, true, if◌then◌else◌, inl, inr, ◌⊎◌, List,
  [], ◌∷◌, for_each,
}
use sgcl.Base.Lists.{length}
use sgcl.Heap.{Heap, page_at}
use sgcl.Collector.Scan.Ends.{flags_count-Frame}
use sgcl.Collector.Garbage.Effect.{garbage}
use sgcl.Collector.Garbage.Sweeps.{in_groups}
use sgcl.Collector.Updated.{mark_updated_page, mark_updated}
use sgcl.Collector.Updated.Effect.{touched}
use sgcl.Collector.Updated.Refresh.{
  Refreshed, Refreshed-refl, Refreshed-trans, garbage-Refreshed, touched-Refreshed,
}
use sgcl.Collector.Updated.Single.{
  mark_updated_page-Refreshed, mark_updated_page_sweeps, length-mark_updated_page,
}

pages-Refreshed :
    (all : Bool) (list : List ℕ) (h : Heap) → Refreshed h (for_each (mark_updated_page all) list h)
unfolding for_each
pages-Refreshed all [] h = Refreshed-refl h
pages-Refreshed all (a ∷ list) h =
    Refreshed-trans (mark_updated_page-Refreshed all a h) (pages-Refreshed all list _)

pages_sweep :
    (list : List ℕ) (h : Heap) (a k : ℕ)
    → Memᴰ a list
    → in_groups h a k ≡ true
    → garbage h a k ≡ true
    → (touched h a k ≡ true)
      ⊎ ((page_at (for_each (mark_updated_page true) list h) a).unreachable ≡ true)
unfolding for_each
pages_sweep [] h a k m i p = absurd (Memᴰ.not-nil m)
pages_sweep (b ∷ list) h a k (Memᴰ.head e) i p =
    subst
      (λ b.
        (touched h a k ≡ true)
        ⊎ ((page_at (for_each (mark_updated_page true) list (mark_updated_page true b h))
              a).unreachable
            ≡ true))
      e
      (elim (mark_updated_page_sweeps true a h refl k i p) [
        | inl t ↦ inl t
        | inr u ↦ inr (Refreshed.keeps (pages-Refreshed true list _) a u)
      ])
pages_sweep (b ∷ list) h a k (Memᴰ.tail m) i p =
    let v = mark_updated_page-Refreshed true b h in
    elim (pages_sweep list (mark_updated_page true b h) a k m
      (ground (arith, flags_count-Frame a v.frame)) (garbage-Refreshed v a k ∙ p)) [
        | inl t ↦ inl (sym (touched-Refreshed v a k) ∙ t)
        | inr u ↦ inr u
      ]

pub mark_updated-Refreshed : (all : Bool) (h : Heap) → Refreshed h (mark_updated all h)
unfolding mark_updated
mark_updated-Refreshed all h =
    pages-Refreshed all (if all then h.registered_pages else h.unreachable_pages) h

-- On all pages, an object that is registered and not marked is touched, or its page will be swept.
pub mark_updated_sweeps :
    (h : Heap) (a k : ℕ)
    → Memᴰ a h.registered_pages
    → in_groups h a k ≡ true
    → garbage h a k ≡ true
    → (touched h a k ≡ true) ⊎ ((page_at (mark_updated true h) a).unreachable ≡ true)
unfolding mark_updated
mark_updated_sweeps h = pages_sweep h.registered_pages h

length-pages :
    (all : Bool) (list : List ℕ) (h : Heap)
    → length (for_each (mark_updated_page all) list h).reachable_pages
      ≤ length list + length h.reachable_pages
unfolding for_each
length-pages all [] h = omega arith
length-pages all (a ∷ list) h =
    omega
      (arith, length-pages all list (mark_updated_page all a h), length-mark_updated_page all a h)

-- Each page that is looked at is put on the list once at most.
pub length-mark_updated :
    (h : Heap)
    → length (mark_updated true h).reachable_pages
      ≤ length h.registered_pages + length h.reachable_pages
unfolding mark_updated
length-mark_updated h = length-pages true h.registered_pages h
