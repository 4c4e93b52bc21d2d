-- ===== src/TrackedPtr/Barrier.antt =====
-- sgcl/priv/tracked_ptr.h: after a pointer was stored, the object that it points to is not seen as
-- garbage by the next collection.
use sgcl.Base.{ℕ, ◌≡◌, arith, Bool, ◌&&◌, not, ◌==◌, if◌then◌else◌, max}
use sgcl.Page.States.{points_into, states-update_state}
use sgcl.State
use sgcl.TrackedPtr.{Memory, update_reachable, store, store_no_update}

-- The state of object `k` of page `a`.
abbrev pub state_at : Memory → ℕ → ℕ → ℕ
state_at m a k = (m.store.page a).states k

abbrev pub points_to : Memory → ℕ → ℕ → ℕ → Bool
points_to m p a k = not (p == 0) && points_into m.store p a k

-- `store` writes the word and raises the state of the object that the new pointer points into to
-- `Reachable` where it is lower; a higher state, of a unique or a destroyed object or one that
-- was loaded atomically, is kept, and so are all the other words and states.
pub store_lem :
    (this p : ℕ) (m : Memory) (x a k : ℕ)
    → ((store this p m).words x ≡ (if this == x then p else m.words x))
      × (state_at (store this p m) a k
          ≡ (if points_to m p a k then max (state_at m a k) State.reachable else state_at m a k))
unfolding store update_reachable store_no_update
store_lem this p m x a k = ground (arith, states-update_state m.store p State.reachable a k)
