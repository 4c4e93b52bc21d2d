-- ===== src/TrackedPtr/Compare.antt =====
-- sgcl/atomic.h: the compare-and-exchange of an atomic pointer.
use sgcl.Base.{ℕ, ◌≡◌, arith, ◌==◌, if◌then◌else◌}
use sgcl.TrackedPtr.{
  Memory, update_reachable, update_reachable_atomic, load, update_atomic, store,
  compare_exchange_strong, store_no_update, atomic_compare_exchange_strong, atomic_exchange,
  exchange,
}

-- The compare-and-exchange of the atomic pointer at `this` succeeds exactly if its word is that of
-- `e`, and then it has the word of `n`; if it fails, `e` gets the word of the atomic pointer, and no
-- other word changes in either case.
pub compare_exchange_words :
    (this e n : ℕ) (m : Memory) (x : ℕ)
    → let r = atomic_compare_exchange_strong this e n m in
      (r.0 ≡ (m.words this == m.words e))
      × (r.1.words x ≡ (
          if r.0
          then if this == x then m.words n else m.words x
          else if e == x
          then m.words this
          else m.words x))
unfolding atomic_compare_exchange_strong compare_exchange_strong load update_atomic update_reachable
    update_reachable_atomic store store_no_update
compare_exchange_words this e n m x = ground arith

-- The exchange of two pointers swaps their words and changes no other.
exchange_words :
    (this p : ℕ) (m : Memory) (x : ℕ)
    → (atomic_exchange this p m).words x
      ≡ (if p == x then m.words this else if this == x then m.words p else m.words x)
unfolding atomic_exchange exchange load update_atomic update_reachable update_reachable_atomic store
    store_no_update
exchange_words this p m x = ground arith
