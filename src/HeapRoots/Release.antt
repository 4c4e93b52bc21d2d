-- ===== src/HeapRoots/Release.antt =====
-- sgcl/priv/heap_roots_allocator.h, `free` and the destructor: no root pointer is lost.
use sgcl.Base.{
  ℕ, ◌+◌, ◌≡◌, refl, sym, ap, subst, arith, Bool-cases, inl, inr, true, false, Option, none, some,
  List, [], ◌∷◌,
}
use sgcl.PointerPool.{Pool, new_pool, is_empty, is_full}
use sgcl.PointerPool.Stack.{available, slice-none}
use sgcl.Base.Lists.{occurs}
use sgcl.HeapRoots.{
  Roots, fresh_pool, free_first, take_empty, retire_full, free_new, free_second, free_pools, free,
  give_back, destroy,
}
use sgcl.HeapRoots.Count.{
  in_pool, in_option, in_list, free_count, IsRootPool, IsRootOption, Globals, Empties, IsRoots, one,
  free-pool,
}

-- A step that takes `y` back.
record Freed (y : ℕ) (r s : Roots) : Type 0 where
  valid : IsRoots s
  counts : (x : ℕ) → free_count x s ≡ one y x + free_count x r

free_first-Freed :
    (y : ℕ) (r r0 : Roots) (p : Pool) (other : Option Pool)
    → IsRootPool p
    → is_full p ≡ false
    → IsRootOption other
    → Globals r0.global_pools
    → Empties r0.global_empty_pools
    → ((x : ℕ)
        → free_count x r
          ≡ in_pool x p
            + in_option x other
            + in_list x r0.global_pools
            + in_list x r0.global_empty_pools)
    → Freed y r (free_first y p other r0)
unfolding free_first free_count in_option IsRootOption
free_first-Freed y r r0 p other v nf w g e c = record {
  valid = record { pool1 = (free-pool y p v nf).0; pool2 = w; global = g; global_empty = e };
  counts = λ x. omega (arith, c x, (free-pool y p v nf).1 x);
}

IsFullOption : Option Pool → Type 0
IsFullOption none = Unit
IsFullOption (some p) = is_full p ≡ true

-- An empty pool of this size is not full, and a full one is not empty.
not_full : (p : Pool) → IsRootPool p → is_empty p ≡ true → is_full p ≡ false
unfolding is_empty is_full IsRootPool
not_full p v e = ground (arith, v.1)

not_empty : (p : Pool) → IsRootPool p → is_full p ≡ true → is_empty p ≡ false
unfolding is_empty is_full IsRootPool
not_empty p v e = ground (arith, v.1)

fresh_pool-IsRootPool :
    IsRootPool fresh_pool × (is_empty fresh_pool ≡ true) × ((x : ℕ) → in_pool x fresh_pool ≡ 0)
unfolding fresh_pool new_pool is_empty IsRootPool in_pool available occurs
fresh_pool-IsRootPool = (
  (record { position = omega arith; size = omega arith }, refl),
  refl,
  λ x. ap (occurs x) (slice-none _ 512 0 refl),
)

take_empty-valid :
    (es : List Pool) (r : Roots)
    → Empties es
    → r.global_empty_pools ≡ es
    → IsRootPool (take_empty es r).0
      × (is_empty (take_empty es r).0 ≡ true)
      × Empties (take_empty es r).1.global_empty_pools
      × ((take_empty es r).1.global_pools ≡ r.global_pools)
      × ((take_empty es r).1.pool2 ≡ r.pool2)
      × ((x : ℕ)
          → in_list x es
            ≡ in_pool x (take_empty es r).0 + in_list x (take_empty es r).1.global_empty_pools)
unfolding take_empty in_list
take_empty-valid [] r g e =
    let w = fresh_pool-IsRootPool in
    (w.0, w.1, rw e tt, refl, refl, λ x. rw e (omega (arith, w.2 x)))
take_empty-valid (p ∷ ps) r g e = (g.0.0, g.0.1, g.1, refl, refl, λ x. omega arith)

module _ (y : ℕ) where
  free_new-Freed :
      (r : Roots) (pool1 pool2 : Option Pool)
      → IsRoots r
      → r.pool1 ≡ pool1
      → r.pool2 ≡ pool2
      → IsFullOption pool2
      → Freed y r (free_new y pool1 pool2 r)
  unfolding free_new retire_full free_count in_option in_list IsRootOption IsFullOption
  free_new-Freed r none pool2 v e1 e2 f =
      let t = take_empty-valid r.global_empty_pools r v.global_empty refl in
      free_first-Freed y r _ _ _ t.0 (not_full _ t.0 t.1) (subst IsRootOption (sym t.4) v.pool2)
        (subst Globals (sym t.3) v.global) t.2
        (λ x. omega (arith, t.5 x, ap (in_option x) e1, ap (in_option x) t.4, ap (in_list x) t.3))
  free_new-Freed r (some p1) none v e1 e2 f =
      let t = take_empty-valid r.global_empty_pools r v.global_empty refl in
      free_first-Freed y r _ _ _ t.0 (not_full _ t.0 t.1) (subst IsRootOption e1 v.pool1)
        (subst Globals (sym t.3) v.global) t.2
        (λ x. omega (arith, t.5 x, ap (in_option x) e1, ap (in_option x) e2, ap (in_list x) t.3))
  free_new-Freed r (some p1) (some p2) v e1 e2 f =
      let t = take_empty-valid r.global_empty_pools r v.global_empty refl in
      let w : IsRootPool p2 = subst IsRootOption e2 v.pool2 in
      free_first-Freed y r _ _ _ t.0 (not_full _ t.0 t.1) (subst IsRootOption e1 v.pool1)
        ((w, not_empty p2 w f), subst Globals (sym t.3) v.global) t.2
        (λ x. omega (arith, t.5 x, ap (in_option x) e1, ap (in_option x) e2, ap (in_list x) t.3))

  own-Freed :
      (r : Roots) (p : Pool) (other : Option Pool)
      → IsRoots r
      → is_full p ≡ false
      → IsRootPool p
      → IsRootOption other
      → ((x : ℕ) → in_option x r.pool1 + in_option x r.pool2 ≡ in_pool x p + in_option x other)
      → Freed y r (free_first y p other r)
  unfolding free_count
  own-Freed r p other v nf w o c =
      free_first-Freed y r r p other w nf o v.global v.global_empty (λ x. omega (arith, c x))

  free_second-Freed :
      (r : Roots) (pool1 pool2 : Option Pool)
      → IsRoots r
      → r.pool1 ≡ pool1
      → r.pool2 ≡ pool2
      → Freed y r (free_second y pool1 pool2 r)
  unfolding free_second in_option IsRootOption IsFullOption
  free_second-Freed r pool1 none v e1 e2 = free_new-Freed r pool1 none v e1 e2 tt
  free_second-Freed r pool1 (some p2) v e1 e2 = elim (Bool-cases (is_full p2)) [
    | inl t ↦ rw t (free_new-Freed r pool1 (some p2) v e1 e2 t)
    | inr nf ↦ rw nf (
        own-Freed r p2 pool1 v nf (subst IsRootOption e2 v.pool2) (subst IsRootOption e1 v.pool1)
          (λ x. omega (arith, ap (in_option x) e1, ap (in_option x) e2)))
  ]

  free_pools-Freed :
      (r : Roots) (pool1 pool2 : Option Pool)
      → IsRoots r
      → r.pool1 ≡ pool1
      → r.pool2 ≡ pool2
      → Freed y r (free_pools y pool1 pool2 r)
  unfolding free_pools in_option IsRootOption
  free_pools-Freed r none pool2 v e1 e2 = free_second-Freed r none pool2 v e1 e2
  free_pools-Freed r (some p1) pool2 v e1 e2 = elim (Bool-cases (is_full p1)) [
    | inl t ↦ rw t (free_second-Freed r (some p1) pool2 v e1 e2)
    | inr nf ↦ rw nf (
        own-Freed r p1 pool2 v nf (subst IsRootOption e1 v.pool1) (subst IsRootOption e2 v.pool2)
          (λ x. omega (arith, ap (in_option x) e1, ap (in_option x) e2)))
  ]

-- `free` keeps the pools well-formed, and the free pointers after are the one that is given back and
-- those before.
pub free_conserves :
    (y : ℕ) (r : Roots)
    → IsRoots r
    → IsRoots (free y r) × ((x : ℕ) → free_count x (free y r) ≡ one y x + free_count x r)
unfolding free
free_conserves y r v =
    let f = free_pools-Freed y r r.pool1 r.pool2 v refl refl in (f.valid, f.counts)

give_back-shared :
    (o : Option Pool) (r : Roots)
    → IsRootOption o
    → Globals r.global_pools
    → Empties r.global_empty_pools
    → Globals (give_back o r).global_pools
      × Empties (give_back o r).global_empty_pools
      × ((x : ℕ)
          → in_list x (give_back o r).global_pools + in_list x (give_back o r).global_empty_pools
            ≡ in_option x o + in_list x r.global_pools + in_list x r.global_empty_pools)
unfolding give_back in_option in_list IsRootOption
give_back-shared none r o g e = (g, e, λ x. omega arith)
give_back-shared (some p) r o g e = elim (Bool-cases (is_empty p)) [
  | inl t ↦ rw t (g, ((o, t), e), λ x. omega arith)
  | inr ne ↦ rw ne (((o, ne), g), e, λ x. omega arith)
]

-- The destructor gives the thread's pools to the other threads: it keeps every free pointer and the
-- form of the shared pools, and leaves the thread without pools.
destroy_conserves :
    (r : Roots)
    → IsRoots r
    → IsRoots (destroy r)
      × ((x : ℕ) → free_count x (destroy r) ≡ free_count x r)
      × ((destroy r).pool1 ≡ none)
      × ((destroy r).pool2 ≡ none)
unfolding destroy free_count in_option IsRootOption
destroy_conserves r v =
    let a = give_back-shared r.pool1 r v.pool1 v.global v.global_empty in
    let b = give_back-shared r.pool2 (give_back r.pool1 r) v.pool2 a.0 a.1 in
    (
      record { pool1 = tt; pool2 = tt; global = b.0; global_empty = b.1 },
      λ x. omega (arith, a.2 x, b.2 x),
      refl,
      refl,
    )
