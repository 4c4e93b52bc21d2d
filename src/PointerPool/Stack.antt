-- ===== src/PointerPool/Stack.antt =====
-- sgcl/priv/pointer_pool_base.h: `alloc` and `free` are pop and push on the list of the free
-- pointers.
use sgcl.Base.{
  ℕ, zero, suc, ◌+◌, ◌-◌, ◌%◌, ◌^◌, ◌≤◌, ◌<◌, ◌≡◌, ◌≢◌, ◌↔◌, refl, ap, ap₂, ◌∙◌, arith, ◌==◌, true,
  update, List, [], ◌∷◌,
}
use sgcl.Base.Lists.{length}
use sgcl.PointerPool.{Pool, alloc, free, pointer_count, is_empty, is_full}

-- f i, f (i + 1), … , n places.
unfoldable pub slice {ℓ} : {A : Type ℓ} → (ℕ → A) → ℕ → ℕ → List A
slice f i zero = []
slice f i (suc n) = f i ∷ slice f (i + 1) n

-- The abstract view of a pool: its free pointers, the next one first.
unfoldable pub available : Pool → List ℕ
available pool = slice pool.indexes pool.position (pool.size - pool.position)

pub record IsPool (pool : Pool) : Type 0 where
  pub position : pool.position ≤ pool.size
  pub size : pool.size < 2 ^ 32

pub slice-ext {ℓ} :
    {A : Type ℓ} (f g : ℕ → A) (i n : ℕ)
    → ((k : ℕ) → i ≤ k → k < i + n → f k ≡ g k)
    → slice f i n ≡ slice g i n
unfolding slice
slice-ext f g i zero e = refl
slice-ext f g i (suc n) e =
    ap₂ (λ x xs. x ∷ xs) (e i (omega arith) (omega arith))
      (slice-ext f g (i + 1) n (λ k lo hi. e k (omega arith) (omega arith)))

length-slice {ℓ} : {A : Type ℓ} (f : ℕ → A) (i n : ℕ) → length (slice f i n) ≡ n
unfolding slice
length-slice f i zero = refl
length-slice f i (suc n) = omega (arith, length-slice f (i + 1) n)

slice-head {ℓ} :
    {A : Type ℓ} (f : ℕ → A) (i n m : ℕ) → n ≡ suc m → slice f i n ≡ f i ∷ slice f (i + 1) m
unfolding slice
slice-head f i n m e = ap (slice f i) e

pub slice-none {ℓ} : {A : Type ℓ} (f : ℕ → A) (i n : ℕ) → n ≡ 0 → slice f i n ≡ []
unfolding slice
slice-none f i n e = ap (slice f i) e

-- `pointer_count` is the number of free pointers, `is_empty` says that there is none, and `is_full`
-- that there are as many as the pool holds.
pointer_count_lem :
    (pool : Pool)
    → IsPool pool
    → (pointer_count pool ≡ length (available pool))
      × ((is_empty pool ≡ true) ↔ (available pool ≡ []))
      × ((is_full pool ≡ true) ↔ (length (available pool) ≡ pool.size))
unfolding pointer_count is_empty is_full available
pointer_count_lem pool v = (
  omega (arith, v.position, v.size, len),
  (λ e. none_left e, λ e. ground (arith, v.position, len, ap length e)),
  (λ e. ground (arith, v.position, v.size, len), λ e. ground (arith, v.position, v.size, len)),
)
  where
    none_left :
        (pool.position == pool.size) ≡ true
        → slice pool.indexes pool.position (pool.size - pool.position) ≡ []
    none_left e = slice-none _ _ _ (ground arith)

    len :
        length (slice pool.indexes pool.position (pool.size - pool.position))
        ≡ pool.size - pool.position
    len = length-slice pool.indexes pool.position (pool.size - pool.position)

-- From a pool that is not empty, `alloc` takes the first free pointer and leaves the others.
pub available-alloc :
    (pool : Pool)
    → IsPool pool
    → is_empty pool ≢ true
    → (available pool ≡ (alloc pool).0 ∷ available (alloc pool).1) × IsPool (alloc pool).1
unfolding available alloc is_empty
available-alloc pool v ne = (
  rw next (
      slice-head pool.indexes pool.position (pool.size - pool.position)
        (pool.size - (pool.position + 1)) (ground (arith, v.position))),
  record { position = ground (arith, v.position, v.size); size = v.size },
)
  where
    next : (pool.position + 1) % 2 ^ 32 ≡ pool.position + 1
    next = ground (arith, v.position, v.size)

-- To a pool that is not full, `free` adds a pointer in front of the free ones.
pub available-free :
    (p : ℕ) (pool : Pool)
    → IsPool pool
    → is_full pool ≢ true
    → (available (free p pool) ≡ p ∷ available pool) × IsPool (free p pool)
unfolding available free is_full
available-free p pool v nf = (
  rw prev (
      slice-head (update pool.indexes (pool.position - 1) p) (pool.position - 1)
        (pool.size - (pool.position - 1)) (pool.size - pool.position) (ground (arith, v.position))
      ∙ ap₂ (λ x xs. x ∷ xs) (ground arith) rest),
  record { position = ground (arith, v.position, v.size); size = v.size },
)
  where
    prev : (pool.position + 2 ^ 32 - 1) % 2 ^ 32 ≡ pool.position - 1
    prev = ground (arith, v.position, v.size)

    here : pool.position - 1 + 1 ≡ pool.position
    here = ground arith

    rest :
        slice
          (update pool.indexes (pool.position - 1) p)
          (pool.position - 1 + 1)
          (pool.size - pool.position)
        ≡ slice pool.indexes pool.position (pool.size - pool.position)
    rest =
        ap₂ (slice (update pool.indexes (pool.position - 1) p)) here refl
        ∙ slice-ext _ _ pool.position (pool.size - pool.position) (λ k lo hi. ground arith)
