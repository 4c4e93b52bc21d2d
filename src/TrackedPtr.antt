-- ===== src/TrackedPtr.antt =====
-- sgcl/priv/tracked_ptr.h and sgcl/atomic.h: reads and writes of pointers, which raise the state of the
-- object that is pointed to. Each access is one step; `memory_order` has no model.
pub mod Barrier
pub mod Compare
mod Tests
use sgcl.Base.{ℕ, Bool, true, false, ◌==◌, if◌then◌else◌, update}
use sgcl.Page.{Store, base_address_of, set_state, update_state}
use sgcl.State

-- The pages, and the word at each address; a `Tracked_ptr` is the address of its word.
pub record Memory : Type 0 where
  pub store : Store
  pub words : ℕ → ℕ

module _ (p : ℕ) (m : Memory) where
  unfoldable pub update_reachable : Memory
  update_reachable =
      if p == 0 then m else record m { store = update_state m.store p State.reachable }

  unfoldable pub force_update : Memory
  force_update = if p == 0 then m else record m { store = set_state m.store p State.reachable }

  unfoldable pub update_reachable_atomic : Memory
  update_reachable_atomic =
      if p == 0 then m else record m { store = set_state m.store p State.reachable_atomic }

-- The methods of the pointer whose word is at `this`.
module _ (this : ℕ) where
  unfoldable pub load : Memory → ℕ
  load m = m.words this

  pub load_atomic : Memory → ℕ × Memory
  load_atomic m = let p = load m in (p, update_reachable_atomic p m)

  pub update_atomic : Memory → Memory
  update_atomic m = update_reachable_atomic (load m) m

  unfoldable pub store_no_update : ℕ → Memory → Memory
  store_no_update p m = record m { words = update m.words this p }

  pub store : ℕ → Memory → Memory
  store p m = update_reachable p (store_no_update p m)

  pub store_atomic : ℕ → Memory → Memory
  store_atomic p m = update_reachable_atomic p (store_no_update p m)

  pub force_store : ℕ → Memory → Memory
  force_store p m = force_update p (store_no_update p m)

  pub exchange : ℕ → Memory → ℕ × Memory
  exchange p m = (load m, update_reachable p (store_no_update p m))

  -- The result, the value that `o` has afterwards, and the memory.
  pub compare_exchange_strong : ℕ → ℕ → Memory → Bool × ℕ × Memory
  compare_exchange_strong o n m =
      if load m == o
      then (true, o, update_reachable n (store_no_update n m))
      else (false, load m, update_reachable n m)

  pub base_address : Memory → ℕ
  base_address m = let p = load m in if p == 0 then 0 else base_address_of m.store p

-- sgcl::atomic whose `_val` has its word at `this`. The other pointers are named by the addresses of
-- their words.
module _ (this : ℕ) where
  pub atomic_load : ℕ → Memory → Memory
  atomic_load result m = let l = load_atomic this m in store_no_update result l.0 l.1

  pub atomic_store : ℕ → Memory → Memory
  atomic_store p m = let m' = update_atomic this m in store this (load p m') m'

  pub atomic_exchange : ℕ → Memory → Memory
  atomic_exchange p m =
      let m' = update_atomic this m in let l = exchange this (load p m') m' in store p l.0 l.1

  pub atomic_compare_exchange_strong : ℕ → ℕ → Memory → Bool × Memory
  atomic_compare_exchange_strong e n m =
      let m' = update_atomic this m in
      let r = compare_exchange_strong this (load e m') (load n m') m' in
      if r.0 then (true, r.2) else (false, store e r.1 r.2)
