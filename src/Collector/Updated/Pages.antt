-- ===== src/Collector/Updated/Pages.antt =====
-- sgcl/priv/collector.h, `_mark_updated` over a list of pages.
use sgcl.Base.{
  ℕ, ◌/◌, ◌%◌, ◌≡◌, refl, ap, ◌∙◌, arith, Bool, true, false, ◌||◌, ◌&&◌, if◌then◌else◌, List, [],
  ◌∷◌, for_each,
}
use sgcl.Base.Bits.{testbit}
use sgcl.Page.{Flags, flags_count}
use sgcl.Heap.{Heap, page_at, flag_at}
use sgcl.Collector.Bits.{is_registered, is_reachable, is_marked}
use sgcl.Collector.Groups.{for_groups}
use sgcl.Collector.Mark.{push_reachable}
use sgcl.Collector.Garbage.Sweeps.{in_groups, elem}
use sgcl.Collector.Updated.{
  Update, updated_word, update_object, push_unreachable, mark_updated_page, mark_updated,
}
use sgcl.Collector.Updated.Effect.{touched, Touched, groups-Touched}

-- The pages of `list` were looked at.
record Looked (list : List ℕ) (h g : Heap) : Type 0 where
  reachable :
      (b k : ℕ)
      → is_reachable g b k
        ≡ (is_reachable h b k || (elem b list && in_groups h b k && touched h b k))
  registered : (b n : ℕ) → (flag_at g b n).registered ≡ (flag_at h b n).registered
  marked : (b n : ℕ) → (flag_at g b n).marked ≡ (flag_at h b n).marked
  states : (b k : ℕ) → (page_at g b).states k ≡ (page_at h b).states k
  metadata : (b : ℕ) → (page_at g b).metadata ≡ (page_at h b).metadata

-- A page may be put on the lists.
SamePages : Heap → Heap → Type 0
SamePages h g =
    (b : ℕ)
    → ((page_at g b).flags ≡ (page_at h b).flags)
      × ((page_at g b).states ≡ (page_at h b).states)
      × ((page_at g b).metadata ≡ (page_at h b).metadata)

push_reachable-same : (a : ℕ) (h : Heap) → SamePages h (push_reachable a h)
unfolding push_reachable SamePages
push_reachable-same a h b = ground arith

push_unreachable-same : (a : ℕ) (h : Heap) → SamePages h (push_unreachable a h)
unfolding push_unreachable SamePages
push_unreachable-same a h b = ground arith

Looked-same : (list : List ℕ) (h g g' : Heap) → SamePages g g' → Looked list h g → Looked list h g'
unfolding SamePages
Looked-same list h g g' s v = record {
  reachable = λ b k.
      ap (λ (f : ℕ → Flags). testbit (f (k / 64)).reachable (k % 64)) (s b).0 ∙ v.reachable b k;
  registered = λ b n. ap (λ (f : ℕ → Flags). (f n).registered) (s b).0 ∙ v.registered b n;
  marked = λ b n. ap (λ (f : ℕ → Flags). (f n).marked) (s b).0 ∙ v.marked b n;
  states = λ b k. ap (λ (f : ℕ → ℕ). f k) (s b).1 ∙ v.states b k;
  metadata = λ b. (s b).2 ∙ v.metadata b;
}

Touched-Looked :
    (a : ℕ) (h g : Heap) → Touched a h (flags_count (page_at h a)) 0 g → Looked (a ∷ []) h g
Touched-Looked a h g v = record {
  reachable = λ b k. ground (arith, v.reachable b k);
  registered = v.registered;
  marked = v.marked;
  states = v.states;
  metadata = v.metadata;
}

mark_updated_page-Looked :
    (all : Bool) (a : ℕ) (h : Heap) → Looked (a ∷ []) h (mark_updated_page all a h)
unfolding mark_updated_page
mark_updated_page-Looked all a h = listed (all && s.unreachable_page)
  where
    s : Update
    s =
        for_groups (updated_word a) (update_object all a) (λ i s. s) (flags_count (page_at h a))
          (record { heap = h; reachable_page = false; unreachable_page = false })

    first : (b : Bool) → Looked (a ∷ []) h (if b then push_reachable a s.heap else s.heap)
    first true =
        Looked-same (a ∷ []) h s.heap _ (push_reachable-same a s.heap)
          (Touched-Looked a h s.heap (groups-Touched all a h (flags_count (page_at h a))))
    first false = Touched-Looked a h s.heap (groups-Touched all a h (flags_count (page_at h a)))

    g : Heap
    g = if s.reachable_page then push_reachable a s.heap else s.heap

    listed : (b : Bool) → Looked (a ∷ []) h (if b then push_unreachable a g else g)
    listed true = Looked-same (a ∷ []) h g _ (push_unreachable-same a g) (first s.reachable_page)
    listed false = first s.reachable_page

Looked-cons :
    (a : ℕ) (list : List ℕ) (h h1 h2 : Heap)
    → Looked (a ∷ []) h h1
    → Looked list h1 h2
    → Looked (a ∷ list) h h2
unfolding flags_count
Looked-cons a list h h1 h2 v w = record {
  reachable = λ b k.
      ground
        (arith, v.reachable b k, w.reachable b k, reg b k, mark b k, v.metadata b, v.states b k);
  registered = λ b n. w.registered b n ∙ v.registered b n;
  marked = λ b n. w.marked b n ∙ v.marked b n;
  states = λ b k. w.states b k ∙ v.states b k;
  metadata = λ b. w.metadata b ∙ v.metadata b;
}
  where
    mark : (b k : ℕ) → is_marked h1 b k ≡ is_marked h b k
    mark b k = ap (λ m. testbit m (k % 64)) (v.marked b (k / 64))

    reg : (b k : ℕ) → is_registered h1 b k ≡ is_registered h b k
    reg b k = ap (λ m. testbit m (k % 64)) (v.registered b (k / 64))

for_each-Looked :
    (all : Bool) (list : List ℕ) (h : Heap)
    → Looked list h (for_each (mark_updated_page all) list h)
unfolding for_each
for_each-Looked all [] h = record {
  reachable = λ b k. ground arith;
  registered = λ b n. refl;
  marked = λ b n. refl;
  states = λ b k. refl;
  metadata = λ b. refl;
}
for_each-Looked all (a ∷ list) h =
    Looked-cons a list h (mark_updated_page all a h) _ (mark_updated_page-Looked all a h)
      (for_each-Looked all list (mark_updated_page all a h))

-- `_mark_updated` makes reachable, on the registered pages or on the unreachable ones, each object of
-- a group that is registered, not marked and in a state from `Reachable` to `UniqueLock`, and no other
-- object; the registered and the marked bits and the states stay.
pub mark_updated_lem :
    (all : Bool) (h : Heap) (a k : ℕ)
    → let h' = mark_updated all h in
      (is_reachable h' a k ≡ (
        is_reachable h a k
        || (elem a (if all then h.registered_pages else h.unreachable_pages)
            && in_groups h a k
            && touched h a k)))
      × (is_registered h' a k ≡ is_registered h a k)
      × (is_marked h' a k ≡ is_marked h a k)
      × ((page_at h' a).states k ≡ (page_at h a).states k)
unfolding mark_updated
mark_updated_lem all h a k =
    let v = for_each-Looked all (if all then h.registered_pages else h.unreachable_pages) h in
    (
      v.reachable a k,
      ap (λ m. testbit m (k % 64)) (v.registered a (k / 64)),
      ap (λ m. testbit m (k % 64)) (v.marked a (k / 64)),
      v.states a k,
    )
