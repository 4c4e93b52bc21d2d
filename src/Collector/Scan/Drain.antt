-- ===== src/Collector/Scan/Drain.antt =====
-- sgcl/priv/collector.h, the walk of `_mark_reachable` along the pages: with enough fuel it ends with no
-- page waiting.
use mathlib.Core.List.{Memᴰ, Memᴰ.not-nil}
use sgcl.Base.{
  ℕ, zero, suc, ◌+◌, ◌≤◌, ◌<◌, ◌≡◌, refl, arith, true, false, inl, inr, ◌⊎◌, List, [], ◌∷◌,
  Bool-cases, subst, ap,
}
use sgcl.Base.Lists.{length}
use sgcl.Heap.{Heap, page_at}
use sgcl.Collector.Bits.{is_marked}
use sgcl.Collector.Frame.{
  Frame, Frame-refl, Frame-trans, SameSweep, SameSweep-refl, SameSweep-trans,
}
use sgcl.Collector.Measure.{IsWithin, IsWithin-Frame, unmarked, unmarked_mono, unreached, potential}
use sgcl.Collector.Scan.{finish_page, mark_pages, mark_reachable}
use sgcl.Collector.Scan.Leave.{relist-Frame}
use sgcl.Collector.Scan.Falls.{IsReady}
use sgcl.Collector.Scan.Finish.{IsGrouped, IsGrouped-Frame, Finished, finish_page_lem}

-- A page that waits is on the list that is walked, or on the one that was put together meanwhile.
abbrev IsQueued : List ℕ → Heap → Type 0
IsQueued list h = (b : ℕ) → (page_at h b).reachable ≡ true → Memᴰ b list ⊎ Memᴰ b h.reachable_pages

-- The walk is over only when nothing waits.
abbrev IsLast : List ℕ → Heap → Type 0
IsLast list h = list ≡ [] → h.reachable_pages ≡ []

-- What the walk leaves.
pub record Drained (h h' : Heap) : Type 0 where
  pub frame : Frame h h'
  pub ready : IsReady h'
  pub marks : (b k : ℕ) → is_marked h b k ≡ true → is_marked h' b k ≡ true
  pub left : (b : ℕ) → (page_at h' b).reachable ≡ false
  pub empty : h'.reachable_pages ≡ []
  pub sweeping : SameSweep h h'

module _ (size : ℕ → ℕ) (pages : List ℕ) (fuel : ℕ) where
  drained : (h : Heap) → IsReady h → IsQueued [] h → h.reachable_pages ≡ [] → Drained h h
  drained h r q e = record {
    frame = Frame-refl h;
    ready = r;
    marks = λ b k m. m;
    left = λ b. elim (Bool-cases (page_at h b).reachable) [
      | inr n ↦ n
      | inl p ↦ elim (q b p) [
        | inl m ↦ absurd (not-nil m)
        | inr m ↦ absurd (not-nil (subst (Memᴰ b) e m))
      ]
    ];
    empty = e;
    sweeping = SameSweep-refl h;
  }

  after : {h h' h'' : Heap} (a : ℕ) → Finished size pages a h h' → Drained h' h'' → Drained h h''
  after a f d = record {
    frame = Frame-trans f.frame d.frame;
    ready = d.ready;
    marks = λ b k m. d.marks b k (f.marks b k m);
    left = d.left;
    empty = d.empty;
    sweeping = SameSweep-trans f.sweeping d.sweeping;
  }

  -- The page at the head of the list does not wait any more.
  IsQueued-after :
      (a : ℕ) (list : List ℕ) {h h' : Heap}
      → Finished size pages a h h'
      → IsQueued (a ∷ list) h
      → IsQueued list h'
  IsQueued-after a list {h} {h'} f q b p = elim (f.waits b p) [
    | inr m ↦ inr m
    | inl old ↦ elim (q b old) [ inr m ↦ inr (f.listed b m) | inl m ↦ rest m ]
  ]
    where
      rest : Memᴰ b (a ∷ list) → Memᴰ b list ⊎ Memᴰ b h'.reachable_pages
      rest (Memᴰ.tail m) = inl m
      rest (Memᴰ.head e) = absurd (ground (arith, p, ap (λ n. (page_at h' n).reachable) e, f.left))

  -- What the walk needs at each page.
  record Walk (h : Heap) : Type 0 where
    within : IsWithin size pages h
    grouped : IsGrouped h
    ready : IsReady h
    fuelled : unmarked size pages h < fuel

  finished : (a : ℕ) (h : Heap) → Walk h → Finished size pages a h (finish_page fuel a h)
  finished a h w = finish_page_lem size pages fuel a h w.within w.grouped w.ready w.fuelled

  Walk-after : (a : ℕ) (h : Heap) → Walk h → Walk (finish_page fuel a h)
  Walk-after a h w =
      let f = finished a h w in
      record {
        within = IsWithin-Frame size pages f.frame w.within;
        grouped = IsGrouped-Frame f.frame w.grouped;
        ready = f.ready;
        fuelled = omega (arith, w.fuelled, unmarked_mono size pages f.frame f.marks);
      }

  -- The list that was put together meanwhile is taken.
  take_list-Walk : (l : List ℕ) (h : Heap) → Walk h → Walk (record h { reachable_pages = l })
  take_list-Walk l h w = record {
    within = w.within;
    grouped = w.grouped;
    ready = record {
      cache = w.ready.cache;
      flags = record {
        flagged = w.ready.flags.flagged;
        registered = w.ready.flags.registered;
        small = w.ready.flags.small;
      };
      fresh = w.ready.fresh;
    };
    fuelled = w.fuelled;
  }

  take_list :
      {h h' : Heap} (l : List ℕ) → Drained (record h { reachable_pages = l }) h' → Drained h h'
  take_list {h} l d = record {
    frame = Frame-trans (relist-Frame l h) d.frame;
    ready = d.ready;
    marks = d.marks;
    left = d.left;
    empty = d.empty;
    sweeping = record { pages = d.sweeping.pages; flags = d.sweeping.flags };
  }

  mark_pages-Drained :
      (rounds : ℕ) (list : List ℕ) (h : Heap)
      → Walk h
      → IsQueued list h
      → IsLast list h
      → unreached size pages h + length h.reachable_pages + length list ≤ rounds
      → Drained h (mark_pages rounds fuel list h)
  unfolding mark_pages
  mark_pages-Drained zero [] h w q l m = drained h w.ready q (l refl)
  mark_pages-Drained zero (a ∷ list) h w q l m = absurd (omega arith)
  mark_pages-Drained (suc rounds) [] h w q l m = drained h w.ready q (l refl)
  mark_pages-Drained (suc rounds) (a ∷ []) h w q l m =
      let f = finished a h w in
      let h' = finish_page fuel a h in
      after a f (
        take_list [] (
          mark_pages-Drained rounds h'.reachable_pages (record h' { reachable_pages = [] })
            (take_list-Walk [] h' (Walk-after a h w))
            (λ b p. elim (IsQueued-after a [] f q b p) [ inl n ↦ inr n | inr n ↦ inl n ])
            (λ e. refl) (omega (arith, f.spends))))
  mark_pages-Drained (suc rounds) (a ∷ b ∷ list) h w q l m =
      let f = finished a h w in
      after a f (
        mark_pages-Drained rounds (b ∷ list) (finish_page fuel a h) (Walk-after a h w)
          (IsQueued-after a (b ∷ list) f q) (λ e. absurd (ground arith)) (omega (arith, f.spends)))

-- A heap from which marking can go on.
pub record CanMark (size : ℕ → ℕ) (pages : List ℕ) (h : Heap) : Type 0 where
  pub within : IsWithin size pages h
  pub grouped : IsGrouped h
  pub ready : IsReady h
  pub queued : (b : ℕ) → (page_at h b).reachable ≡ true → Memᴰ b h.reachable_pages

pub mark_reachable-Drained :
    (size : ℕ → ℕ) (pages : List ℕ) (rounds fuel : ℕ) (h : Heap)
    → CanMark size pages h
    → unmarked size pages h < fuel
    → potential size pages h ≤ rounds
    → Drained h (mark_reachable rounds fuel h)
unfolding mark_reachable
mark_reachable-Drained size pages rounds fuel h c lt le = take_list size pages fuel [] (
    mark_pages-Drained size pages fuel rounds h.reachable_pages (record h { reachable_pages = [] })
      (take_list-Walk size pages fuel [] h
        (record { within = c.within; grouped = c.grouped; ready = c.ready; fuelled = lt }))
      (λ b p. inl (c.queued b p)) (λ e. refl) (omega arith))
