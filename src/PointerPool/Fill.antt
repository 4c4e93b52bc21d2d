-- ===== src/PointerPool/Fill.antt =====
-- sgcl/priv/pointer_pool_base.h: the two ways to fill a pool.
use sgcl.Base.{
  ℕ, zero, suc, ◌+◌, ◌*◌, ◌%◌, ◌^◌, ◌≤◌, ◌<◌, ◌≡◌, refl, sym, subst, ap, ap₂, ◌∙◌, arith, ◌==◌, ltb,
  ◌&&◌, Bool-cases, inl, inr, true, false, if◌then◌else◌, update, List, [], ◌∷◌, ◌++◌, for_range,
  for_range_inv,
}
use mathlib.Core.List.{append_assoc, append-nil}
use sgcl.Base.Lists.{length, length-append}
use sgcl.Page.{Page}
use sgcl.State
use sgcl.PointerPool.{Pool, fill, fill_index, free, fill_object, fill_down, fill_page, is_full}
use sgcl.PointerPool.Stack.{available, slice, slice-ext, IsPool, available-free}

-- What the loop of `fill` has done after `i` rounds.
record Filled (pool : Pool) (address : ℕ) (i : ℕ) (s : Pool × ℕ) : Type 0 where
  size : s.0.size ≡ pool.size
  offset : s.0.offset ≡ pool.offset
  next : s.1 ≡ (address + i * pool.offset) % 2 ^ 64
  indexes : (k : ℕ) → k < i → s.0.indexes k ≡ (address + k * pool.offset) % 2 ^ 64

Filled-step :
    (pool : Pool) (address i : ℕ) (s : Pool × ℕ)
    → Filled pool address i s
    → Filled pool address (i + 1) (fill_index i s)
unfolding fill_index
Filled-step pool address i s h = record {
  size = h.size;
  offset = h.offset;
  next = omega (arith, h.next, h.offset);
  indexes = λ k lt. ground (arith, h.indexes k, h.next);
}

pub size-fill :
    (address : ℕ) (pool : Pool) → address < 2 ^ 64 → (fill address pool).size ≡ pool.size
unfolding fill
size-fill address pool lt =
    (for_range_inv (Filled pool address) fill_index pool.size 0 pool.size (pool, address)
      (omega arith) (λ i s lo hi h. Filled-step pool address i s h)
      (record {
        size = refl;
        offset = refl;
        next = omega arith;
        indexes = λ k l. omega arith;
      })).size

-- `fill` makes every place of the pool free: they hold the addresses from `address` on, `offset`
-- bytes apart.
pub available-fill :
    (address : ℕ) (pool : Pool)
    → address < 2 ^ 64
    → pool.size < 2 ^ 32
    → (available (fill address pool)
        ≡ slice (λ k. (address + k * pool.offset) % 2 ^ 64) 0 pool.size)
      × IsPool (fill address pool)
      × (is_full (fill address pool) ≡ true)
unfolding fill available is_full
available-fill address pool lt small = (
  ap (slice _ 0) (omega (arith, done.size))
      ∙ slice-ext _ _ 0 pool.size (λ k lo hi. done.indexes k (omega arith)),
  record { position = omega arith; size = omega (arith, done.size) },
  refl,
)
  where
    done : Filled pool address pool.size (for_range pool.size 0 fill_index (pool, address))
    done =
        for_range_inv (Filled pool address) fill_index pool.size 0 pool.size (pool, address)
          (omega arith) (λ i s lo hi h. Filled-step pool address i s h)
          (record { size = refl; offset = refl; next = omega arith; indexes = λ k l. omega arith })

abbrev pub object_address : Page → ℕ → ℕ
object_address page i = (page.data_address + i * page.metadata.object_size) % 2 ^ 64

-- The addresses of the unused objects below object `n`.
unfoldable pub unused_below : Page → ℕ → List ℕ
unused_below page zero = []
unused_below page (suc n) =
    unused_below page n
    ++ (if page.states n == State.unused then object_address page n ∷ [] else [])

-- What of a page the list depends on.
unused_below-ext :
    (p q : Page) (n : ℕ)
    → p.data_address ≡ q.data_address
    → p.metadata ≡ q.metadata
    → ((k : ℕ) → k < n → p.states k ≡ q.states k)
    → unused_below p n ≡ unused_below q n
unfolding unused_below
unused_below-ext p q zero d m e = refl
unused_below-ext p q (suc n) d m e =
    ap₂ (λ xs ys. xs ++ ys) (unused_below-ext p q n d m (λ k lt. e k (omega arith)))
      (rw (d, m, e n (omega arith)) refl)

-- What the loop of `fill(Page*)` does below object `n`.
record Taken (n : ℕ) (pool : Pool) (page : Page) (s : Pool × Page) : Type 0 where
  free : available s.0 ≡ unused_below page n ++ available pool
  valid : IsPool s.0
  states :
      (k : ℕ)
      → s.1.states k
        ≡ (if ltb k n && (page.states k == State.unused) then State.reserved else page.states k)

abbrev take : ℕ → Page → Page
take n page = record page { states = update page.states n State.reserved }

module _ (n : ℕ) (pool : Pool) (page : Page) (v : IsPool pool)
    (room : length (unused_below page (suc n)) ≤ pool.position) where
  module _ (t : (page.states n == State.unused) ≡ true) where
    same : unused_below (take n page) n ≡ unused_below page n
    same = unused_below-ext _ _ n refl refl (λ k lt. ground arith)

    split : unused_below page (suc n) ≡ unused_below page n ++ object_address page n ∷ []
    unfolding unused_below
    split = rw t refl

    fits : length (unused_below page n) < pool.position
    fits = omega (
      arith,
      room,
      ap length split,
      length-append (unused_below page n) (object_address page n ∷ []),
    )

    pushed :
        (available (free (object_address page n) pool) ≡ object_address page n ∷ available pool)
        × IsPool (free (object_address page n) pool)
    unfolding is_full
    pushed = available-free (object_address page n) pool v (λ e. ground (arith, fits))

    room_left : length (unused_below (take n page) n) ≤ (free (object_address page n) pool).position
    unfolding free
    room_left = omega (arith, fits, ap length same, v.position, v.size)

    Taken-unused :
        (s : Pool × Page)
        → Taken n (free (object_address page n) pool) (take n page) s
        → Taken (suc n) pool page s
    Taken-unused s h = record {
      free =
          h.free
          ∙ ap₂ (λ xs ys. xs ++ ys) same pushed.0
          ∙ sym (
              ap (λ xs. xs ++ available pool) split
              ∙ append_assoc (unused_below page n) (object_address page n ∷ []) (available pool));
      valid = h.valid;
      states = λ k. ground (arith, h.states k);
    }

  module _ (f : (page.states n == State.unused) ≡ false) where
    none_here : unused_below page (suc n) ≡ unused_below page n
    unfolding unused_below
    none_here = rw f (append-nil (unused_below page n))

    Taken-other : (s : Pool × Page) → Taken n pool page s → Taken (suc n) pool page s
    Taken-other s h = record {
      free = h.free ∙ ap (λ xs. xs ++ available pool) (sym none_here);
      valid = h.valid;
      states = λ k. ground (arith, h.states k);
    }

fill_down-Taken :
    (n : ℕ) (pool : Pool) (page : Page)
    → IsPool pool
    → length (unused_below page n) ≤ pool.position
    → Taken n pool page (fill_down n (pool, page))
unfolding fill_down unused_below fill_object
fill_down-Taken zero pool page v room = record {
  free = refl;
  valid = v;
  states = λ k. ground arith;
}
fill_down-Taken (suc n) pool page v room = elim (Bool-cases (page.states n == State.unused)) [
  | inl t ↦ rw t (
      Taken-unused n pool page v room t _ (
        fill_down-Taken n _ (take n page) (pushed n pool page v room t).1
          (room_left n pool page v room t)))
  | inr f ↦ rw f (
      Taken-other n pool page v room f _ (
        fill_down-Taken n pool page v
          (subst (λ xs. length xs ≤ pool.position) (none_here n pool page v room f) room)))
]

-- On a page whose unused objects fit, `fill(Page*)` puts their addresses in front of the free
-- pointers, lowest first, reserves these objects, and leaves the states of the others.
available-fill_page :
    (page : Page) (pool : Pool)
    → IsPool pool
    → length (unused_below page page.metadata.object_count) ≤ pool.position
    → let s = fill_page page pool in
      (available s.0 ≡ unused_below page page.metadata.object_count ++ available pool)
      × IsPool s.0
      × ((k : ℕ)
          → s.1.states k ≡ (
              if ltb k page.metadata.object_count && (page.states k == State.unused)
              then State.reserved
              else page.states k))
unfolding fill_page
available-fill_page page pool v room =
    let h = fill_down-Taken page.metadata.object_count pool page v room in
    (h.free, h.valid, h.states)
