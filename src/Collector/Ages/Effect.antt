-- ===== src/Collector/Ages/Effect.antt =====
-- sgcl/priv/collector.h, `_update_states`: the state that an object has afterwards.
use sgcl.Base.{
  ℕ, ◌+◌, ◌-◌, ◌/◌, ◌%◌, ◌≡◌, refl, ap, ◌∙◌, arith, Bool, true, not, ◌==◌, ◌&&◌, ◌||◌, Bool-cases,
  inl, inr, ltb, leb, if◌then◌else◌, List, [], ◌∷◌, for_range_inv, for_each,
}
use sgcl.Base.Bits.{testbit, has-pow}
use sgcl.Page.{Flags}
use sgcl.Heap.{Heap, page_at, flag_at}
use sgcl.Collector.Bits.{is_registered}
use sgcl.Collector.Garbage.Sweeps.{elem}
use sgcl.Collector.Ages.{age_object, age_page, is_atomic_turn, update_states}

-- The state after an ageing: `Used` after `Reachable`, one less above it in an atomic turn.
abbrev pub aged : Bool → ℕ → ℕ
aged atomic state =
    if leb 1 state && leb state 4
    then if state == 1 then 0 else if atomic then state - 1 else state
    else state

-- Pages whose objects below `n` were aged.
record Aged (atomic : Bool) (a : ℕ) (h : Heap) (n : ℕ) (g : Heap) : Type 0 where
  states :
      (b k : ℕ)
      → (page_at g b).states k ≡ (
          if (a == b) && ltb k n && is_registered h a k
          then aged atomic ((page_at h b).states k)
          else (page_at h b).states k)
  flags : (b i : ℕ) → flag_at g b i ≡ flag_at h b i
  metadata : (b : ℕ) → (page_at g b).metadata ≡ (page_at h b).metadata

age_object-states :
    (atomic : Bool) (a i : ℕ) (h : Heap) (b k : ℕ)
    → (page_at (age_object atomic a i h) b).states k ≡ (
        if (a == b) && (i == k) && is_registered h a i
        then aged atomic ((page_at h b).states k)
        else (page_at h b).states k)
unfolding age_object
age_object-states atomic a i h b k =
    ground (arith, has-pow (flag_at h a (i / 64)).registered (i % 64))

age_object-flags :
    (atomic : Bool) (a i : ℕ) (h : Heap) (b n : ℕ)
    → (flag_at (age_object atomic a i h) b n ≡ flag_at h b n)
      × ((page_at (age_object atomic a i h) b).metadata ≡ (page_at h b).metadata)
unfolding age_object
age_object-flags atomic a i h b n = ground arith

Aged-step :
    (atomic : Bool) (a : ℕ) (h : Heap) (i : ℕ) (g : Heap)
    → Aged atomic a h i g
    → Aged atomic a h (i + 1) (age_object atomic a i g)
Aged-step atomic a h i g v = record {
  states = λ b k. ground (
    arith,
    v.states b k,
    age_object-states atomic a i g b k,
    reg,
    λ (e : k ≡ i). ap (is_registered h a) e,
  );
  flags = λ b n. (age_object-flags atomic a i g b n).0 ∙ v.flags b n;
  metadata = λ b. (age_object-flags atomic a i g b 0).1 ∙ v.metadata b;
}
  where
    reg : is_registered g a i ≡ is_registered h a i
    reg = ap (λ (f : Flags). testbit f.registered (i % 64)) (v.flags a (i / 64))

age_page-Aged :
    (atomic : Bool) (a : ℕ) (h : Heap)
    → Aged atomic a h (page_at h a).metadata.object_count (age_page atomic a h)
unfolding age_page
age_page-Aged atomic a h =
    for_range_inv (Aged atomic a h) (age_object atomic a) (page_at h a).metadata.object_count 0
      (page_at h a).metadata.object_count h (omega arith)
      (λ i g lo hi v. Aged-step atomic a h i g v)
      (record { states = λ b k. ground arith; flags = λ b n. refl; metadata = λ b. refl })

-- No page is twice in a list.
unfoldable pub is_distinct : List ℕ → Bool
is_distinct [] = true
is_distinct (a ∷ list) = not (elem a list) && is_distinct list

record AgedPages (atomic : Bool) (list : List ℕ) (h g : Heap) : Type 0 where
  states :
      (b k : ℕ)
      → (page_at g b).states k ≡ (
          if elem b list && ltb k (page_at h b).metadata.object_count && is_registered h b k
          then aged atomic ((page_at h b).states k)
          else (page_at h b).states k)
  flags : (b i : ℕ) → flag_at g b i ≡ flag_at h b i

for_each-Aged :
    (atomic : Bool) (list : List ℕ) (h : Heap)
    → is_distinct list ≡ true
    → AgedPages atomic list h (for_each (age_page atomic) list h)
unfolding for_each is_distinct
for_each-Aged atomic [] h d = record { states = λ b k. ground arith; flags = λ b i. refl }
for_each-Aged atomic (a ∷ list) h d =
    let v = age_page-Aged atomic a h in
    let w = for_each-Aged atomic list (age_page atomic a h) (ground arith) in
    record {
      states = λ b k. ground (
        arith,
        v.states b k,
        w.states b k,
        v.metadata b,
        ap (λ (f : Flags). testbit f.registered (k % 64)) (v.flags b (k / 64)),
      );
      flags = λ b i. w.flags b i ∙ v.flags b i;
    }

-- With no page twice on the list of registered pages, `_update_states` lowers the state of each
-- registered object on them once: `Reachable` becomes `Used`, the states above it up to
-- `ReachableAtomic` go down by one if the collector is terminating or 50 milliseconds have passed since
-- the timer was reset; every other state and all flags stay.
pub update_states_lem :
    (terminating : Bool) (duration : ℕ) (h : Heap) (a k : ℕ)
    → is_distinct h.registered_pages ≡ true
    → let h' = update_states terminating duration h in
      ((page_at h' a).states k ≡ (
        if elem a h.registered_pages
          && ltb k (page_at h a).metadata.object_count
          && is_registered h a k
        then aged (terminating || leb 50 duration) ((page_at h a).states k)
        else (page_at h a).states k))
      × (flag_at h' a k ≡ flag_at h a k)
unfolding update_states is_atomic_turn
update_states_lem terminating duration h a k d =
    let v = for_each-Aged (is_atomic_turn terminating duration) h.registered_pages h d in
    let e : is_atomic_turn terminating duration ≡ terminating || leb 50 duration =
      elim (Bool-cases terminating) [ inl t ↦ ground (arith, t) | inr f ↦ ground (arith, f) ] in
    (
      v.states a k
          ∙ ap
              (λ b.
                if elem a h.registered_pages
                  && ltb k (page_at h a).metadata.object_count
                  && is_registered h a k
                then aged b ((page_at h a).states k)
                else (page_at h a).states k)
              e,
      v.flags a k,
    )
