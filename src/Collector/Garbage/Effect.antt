-- ===== src/Collector/Garbage/Effect.antt =====
-- sgcl/priv/collector.h, `_destroy` and `_remove_garbage`: what happens to the states and the flags.
use sgcl.Base.{
  ℕ, ◌+◌, ◌*◌, ◌≡◌, refl, sym, ap, ◌∙◌, arith, Bool, not, ◌==◌, ◌||◌, ◌&&◌, if◌then◌else◌,
  Bool-cases, inl, inr, Option-cases, List, [], ◌∷◌, for_range, for_each, for_range_inv,
}
use sgcl.State
use sgcl.Page.{Page}
use sgcl.ChildPointers.{ChildPointers, for_map, offsets_of}
use sgcl.ChildPointers.Offsets.{for_each-offsets_of}
use sgcl.Heap.{Heap, page_at, flag_at}
use sgcl.Collector.Bits.{is_registered, is_marked}
use sgcl.Collector.Mark.{update_childs, is_nil}
use sgcl.Collector.Garbage.{
  clear_child, clear_childs, clear_elements, clear_array_childs, call_destroy, destroy, Sweep,
  release,
}

-- Clearing pointers and destroying leave the pages as they are.
for_each-store :
    (ptr : ℕ) (offsets : List ℕ) (h : Heap) → (for_each (clear_child ptr) offsets h).store ≡ h.store
unfolding for_each clear_child
for_each-store ptr [] h = refl
for_each-store ptr (o ∷ os) h = for_each-store ptr os (clear_child ptr o h)

for_map-store :
    (ptr : ℕ) (map : ℕ → ℕ) (h : Heap) → (for_map (clear_child ptr) map h).store ≡ h.store
for_map-store ptr map h =
    ap (λ (g : Heap). g.store) (sym (for_each-offsets_of (clear_child ptr) map h))
    ∙ for_each-store ptr (offsets_of map) h

loop-store :
    (n : ℕ) (body : ℕ → Heap → Heap) (h : Heap)
    → ((k : ℕ) (g : Heap) → (body k g).store ≡ g.store)
    → (for_range n 0 body h).store ≡ h.store
loop-store n body h keep =
    for_range_inv (λ k (g : Heap). g.store ≡ h.store) body n 0 n h (omega arith)
      (λ k g lo hi e. keep k g ∙ e) refl

clear_childs-store :
    (c : ChildPointers) (ptr : ℕ) (h : Heap) → (clear_childs c ptr h).store ≡ h.store
unfolding clear_childs
clear_childs-store c ptr h = elim (Option-cases c.offsets) [
  | inl e ↦ rw e (for_map-store ptr c.map h)
  | inr (os, e) ↦ rw e (for_each-store ptr os h)
]

clear_elements-store :
    (c : ChildPointers) (element : ℕ → ℕ) (count : ℕ) (h : Heap)
    → (clear_elements c element count h).store ≡ h.store
unfolding clear_elements
clear_elements-store c element count h = elim (Option-cases c.offsets) [
  | inl e ↦ rw e (loop-store count _ h (λ k g. for_map-store (element k) c.map g))
  | inr (os, e) ↦ rw e (elim (Bool-cases (is_nil os)) [
    | inl n ↦ rw n refl
    | inr n ↦ rw n (loop-store count _ h (λ k g. for_each-store (element k) os g))
  ])
]

clear_array_childs-store : (ptr : ℕ) (h : Heap) → (clear_array_childs ptr h).store ≡ h.store
unfolding clear_array_childs update_childs
clear_array_childs-store ptr h = elim (Bool-cases (h.memory ptr == 0)) [
  | inl z ↦ rw z refl
  | inr n ↦ rw n (clear_elements-store _ _ _ _)
]

pub destroy-store : (p : Page) (ptr : ℕ) (h : Heap) → (destroy p ptr h).store ≡ h.store
unfolding destroy call_destroy
destroy-store p ptr h = ground (
  arith,
  clear_childs-store (h.childs p.metadata.child_pointers) ptr h,
  clear_array_childs-store ptr h,
)

-- An object that is removed: registered and not marked.
abbrev pub garbage : Heap → ℕ → ℕ → Bool
garbage h a k = is_registered h a k && not (is_marked h a k)

pub release-states :
    (a i j : ℕ) (s : Sweep) (b k : ℕ)
    → (page_at (release a i j s).heap b).states k
      ≡ (if (a == b) && (i * 64 + j == k) then State.unused else (page_at s.heap b).states k)
unfolding release
release-states a i j s b k =
    elim (Bool-cases (state == State.bad_alloc || state == State.destroyed)) [
      | inl t ↦ rw t (ground arith)
      | inr f ↦ rw (f, destroy-store (page_at s.heap a) _ s.heap) (ground arith)
    ]
  where
    state : ℕ
    state = (page_at s.heap a).states (i * 64 + j)

pub release-flags :
    (a i j : ℕ) (s : Sweep) (b g : ℕ) → flag_at (release a i j s).heap b g ≡ flag_at s.heap b g
unfolding release
release-flags a i j s b g =
    elim (Bool-cases (state == State.bad_alloc || state == State.destroyed)) [
      | inl t ↦ rw t (ground arith)
      | inr f ↦ rw (f, destroy-store (page_at s.heap a) _ s.heap) (ground arith)
    ]
  where
    state : ℕ
    state = (page_at s.heap a).states (i * 64 + j)

pub release-metadata :
    (a i j : ℕ) (s : Sweep) (b : ℕ)
    → (page_at (release a i j s).heap b).metadata ≡ (page_at s.heap b).metadata
unfolding release
release-metadata a i j s b =
    elim (Bool-cases (state == State.bad_alloc || state == State.destroyed)) [
      | inl t ↦ rw t (ground arith)
      | inr f ↦ rw (f, destroy-store (page_at s.heap a) _ s.heap) (ground arith)
    ]
  where
    state : ℕ
    state = (page_at s.heap a).states (i * 64 + j)
