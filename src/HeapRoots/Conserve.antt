-- ===== src/HeapRoots/Conserve.antt =====
-- sgcl/priv/heap_roots_allocator.h, `alloc`: no root pointer is handed out twice.
use sgcl.Base.{
  ℕ, ◌+◌, ◌^◌, ◌<◌, ◌≡◌, ◌⊎◌, refl, sym, ap, subst, arith, Bool-cases, inl, inr, true, false,
  Option, none, some, List, [], ◌∷◌,
}
use sgcl.PointerPool.{Pool, is_empty}
use sgcl.Base.Lists.{occurs}
use sgcl.HeapRoots.{
  Roots, alloc_first, take_pool, retire_empty, alloc_new, alloc_second, alloc_pools, alloc,
}
use sgcl.HeapRoots.Count.{
  in_pool, in_option, in_list, free_count, page_pointers, IsRootPool, IsRootOption, Globals,
  Empties, IsRoots, one, alloc-pool, new-pool,
}

-- A step that hands out `p` from a store of free pointers with `extra` new ones.
record Allocated (extra : List ℕ) (r : Roots) (s : ℕ × Roots) : Type 0 where
  valid : IsRoots s.1
  counts : (x : ℕ) → free_count x r + occurs x extra ≡ one s.0 x + free_count x s.1

alloc_first-Allocated :
    (extra : List ℕ) (r r0 : Roots) (p : Pool) (other : Option Pool)
    → IsRootPool p
    → is_empty p ≡ false
    → IsRootOption other
    → Globals r0.global_pools
    → Empties r0.global_empty_pools
    → ((x : ℕ)
        → free_count x r + occurs x extra
          ≡ in_pool x p
            + in_option x other
            + in_list x r0.global_pools
            + in_list x r0.global_empty_pools)
    → Allocated extra r (alloc_first p other r0)
unfolding alloc_first free_count in_option IsRootOption
alloc_first-Allocated extra r r0 p other v ne w g e c = record {
  valid = record { pool1 = (alloc-pool p v ne).0; pool2 = w; global = g; global_empty = e };
  counts = λ x. omega (arith, c x, (alloc-pool p v ne).1 x);
}

IsEmptyOption : Option Pool → Type 0
IsEmptyOption none = Unit
IsEmptyOption (some p) = is_empty p ≡ true

-- The pointers that a call that has to take a pool brings in.
pub new_pointers : ℕ → List Pool → List ℕ
new_pointers node [] = page_pointers node
new_pointers node (_ ∷ _) = []

new_pointers_cases :
    (node : ℕ) (gs : List Pool)
    → (new_pointers node gs ≡ []) ⊎ ((gs ≡ []) × (new_pointers node gs ≡ page_pointers node))
unfolding new_pointers
new_pointers_cases node [] = inr (refl, refl)
new_pointers_cases node (p ∷ ps) = inl refl

-- Allocating from a pool that has to be taken, when the thread's pools are empty or missing.
module _ (node : ℕ) (lt : node < 2 ^ 64) where
  take_pool-valid :
      (gs : List Pool) (r : Roots)
      → Globals gs
      → r.global_pools ≡ gs
      → IsRootPool (take_pool node gs r).0
        × (is_empty (take_pool node gs r).0 ≡ false)
        × Globals (take_pool node gs r).1.global_pools
        × ((take_pool node gs r).1.global_empty_pools ≡ r.global_empty_pools)
        × ((take_pool node gs r).1.pool2 ≡ r.pool2)
        × ((x : ℕ)
            → in_list x gs + occurs x (new_pointers node gs)
              ≡ in_pool x (take_pool node gs r).0 + in_list x (take_pool node gs r).1.global_pools)
  unfolding take_pool new_pointers in_list occurs
  take_pool-valid [] r g e =
      let w = new-pool node lt in (w.0, w.1, rw e tt, refl, refl, λ x. rw e (omega (arith, w.2 x)))
  take_pool-valid (p ∷ ps) r g e = (g.0.0, g.0.1, g.1, refl, refl, λ x. omega arith)

  alloc_new-Allocated :
      (r : Roots) (pool1 pool2 : Option Pool)
      → IsRoots r
      → r.pool1 ≡ pool1
      → r.pool2 ≡ pool2
      → IsEmptyOption pool1
      → IsEmptyOption pool2
      → Allocated (new_pointers node r.global_pools) r (alloc_new node pool1 pool2 r)
  unfolding alloc_new retire_empty free_count in_option in_list IsRootOption IsEmptyOption
  alloc_new-Allocated r none pool2 v e1 e2 f1 f2 =
      let t = take_pool-valid r.global_pools r v.global refl in
      alloc_first-Allocated _ r _ _ _ t.0 t.1 (subst IsRootOption (sym t.4) v.pool2) t.2
        (subst Empties (sym t.3) v.global_empty)
        (λ x. omega (arith, t.5 x, ap (in_option x) e1, ap (in_option x) t.4, ap (in_list x) t.3))
  alloc_new-Allocated r (some p1) none v e1 e2 f1 f2 =
      let t = take_pool-valid r.global_pools r v.global refl in
      alloc_first-Allocated _ r _ _ _ t.0 t.1 (subst IsRootOption e1 v.pool1) t.2
        (subst Empties (sym t.3) v.global_empty)
        (λ x. omega (arith, t.5 x, ap (in_option x) e1, ap (in_option x) e2, ap (in_list x) t.3))
  alloc_new-Allocated r (some p1) (some p2) v e1 e2 f1 f2 =
      let t = take_pool-valid r.global_pools r v.global refl in
      alloc_first-Allocated _ r _ _ _ t.0 t.1 (subst IsRootOption e1 v.pool1) t.2
        ((subst IsRootOption e2 v.pool2, f2), subst Empties (sym t.3) v.global_empty)
        (λ x. omega (arith, t.5 x, ap (in_option x) e1, ap (in_option x) e2, ap (in_list x) t.3))

  -- A pool of the thread's own that is not empty, with the other one.
  own-Allocated :
      (r : Roots) (p : Pool) (other : Option Pool)
      → IsRoots r
      → is_empty p ≡ false
      → IsRootPool p
      → IsRootOption other
      → ((x : ℕ) → in_option x r.pool1 + in_option x r.pool2 ≡ in_pool x p + in_option x other)
      → Allocated [] r (alloc_first p other r)
  unfolding free_count occurs
  own-Allocated r p other v ne w o c =
      alloc_first-Allocated [] r r p other w ne o v.global v.global_empty (λ x. omega (arith, c x))

  alloc_second-Allocated :
      (r : Roots) (pool1 pool2 : Option Pool)
      → IsRoots r
      → r.pool1 ≡ pool1
      → r.pool2 ≡ pool2
      → IsEmptyOption pool1
      → Allocated [] r (alloc_second node pool1 pool2 r)
        ⊎ Allocated (new_pointers node r.global_pools) r (alloc_second node pool1 pool2 r)
  unfolding alloc_second in_option IsRootOption IsEmptyOption
  alloc_second-Allocated r pool1 none v e1 e2 f =
      inr (alloc_new-Allocated r pool1 none v e1 e2 f tt)
  alloc_second-Allocated r pool1 (some p2) v e1 e2 f = elim (Bool-cases (is_empty p2)) [
    | inl t ↦ rw t (inr (alloc_new-Allocated r pool1 (some p2) v e1 e2 f t))
    | inr ne ↦ rw ne (
        inl (
          own-Allocated r p2 pool1 v ne (subst IsRootOption e2 v.pool2)
            (subst IsRootOption e1 v.pool1)
            (λ x. omega (arith, ap (in_option x) e1, ap (in_option x) e2))))
  ]

  alloc_pools-Allocated :
      (r : Roots) (pool1 pool2 : Option Pool)
      → IsRoots r
      → r.pool1 ≡ pool1
      → r.pool2 ≡ pool2
      → Allocated [] r (alloc_pools node pool1 pool2 r)
        ⊎ Allocated (new_pointers node r.global_pools) r (alloc_pools node pool1 pool2 r)
  unfolding alloc_pools in_option IsRootOption IsEmptyOption
  alloc_pools-Allocated r none pool2 v e1 e2 = alloc_second-Allocated r none pool2 v e1 e2 tt
  alloc_pools-Allocated r (some p1) pool2 v e1 e2 = elim (Bool-cases (is_empty p1)) [
    | inl t ↦ rw t (alloc_second-Allocated r (some p1) pool2 v e1 e2 t)
    | inr ne ↦ rw ne (
        inl (
          own-Allocated r p1 pool2 v ne (subst IsRootOption e1 v.pool1)
            (subst IsRootOption e2 v.pool2)
            (λ x. omega (arith, ap (in_option x) e1, ap (in_option x) e2))))
  ]

-- `alloc` keeps the pools well-formed and hands out one free pointer: the free pointers before are
-- that one and the free pointers after, where those of a new page count as free before if no thread
-- left a pool with free pointers.
pub alloc_conserves :
    (node : ℕ) (r : Roots)
    → node < 2 ^ 64
    → IsRoots r
    → let s = alloc node r in
      IsRoots s.1
      × (((x : ℕ) → free_count x r ≡ one s.0 x + free_count x s.1)
          ⊎ ((r.global_pools ≡ [])
              × ((x : ℕ)
                  → free_count x r + occurs x (page_pointers node) ≡ one s.0 x + free_count x s.1)))
unfolding alloc occurs
alloc_conserves node r lt v = elim (alloc_pools-Allocated node lt r r.pool1 r.pool2 v refl refl) [
  | inl a ↦ (a.valid, inl (λ x. omega (arith, a.counts x)))
  | inr a ↦ elim (new_pointers_cases node r.global_pools) [
    | inl e ↦ (a.valid, inl (λ x. omega (arith, a.counts x, ap (occurs x) e)))
    | inr (e, n) ↦ (a.valid, inr (e, λ x. omega (arith, a.counts x, ap (occurs x) n)))
  ]
]
