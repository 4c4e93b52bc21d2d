-- ===== src/Page/States.antt =====
-- sgcl/priv/page.h, `set_state`, `update_state` and `clear_flags`: what they change and what not.
use sgcl.Base.{ℕ, ◌+◌, max, ◌≡◌, refl, arith, Bool, ◌&&◌, ltb, ◌==◌, if◌then◌else◌, for_range_inv}
use sgcl.Page.{
  Page, Store, clear_flags, clear_flag, flags_count, index_of, page_of, state_of, set_state,
  update_state,
}

-- The test whether `p` points into object `k` of page `a`.
abbrev pub points_into : Store → ℕ → ℕ → ℕ → Bool
points_into s p a k = (page_of s p == a) && (index_of (s.page (page_of s p)) p == k)

-- `set_state` writes the state of the object that `p` points into, and of no other object.
pub states-set_state :
    (s : Store) (p v a k : ℕ)
    → ((set_state s p v).page a).states k ≡ (if points_into s p a k then v else (s.page a).states k)
unfolding set_state
states-set_state s p v a k = ground arith

-- `update_state` raises the state of the object that `p` points into to `v` where it is lower,
-- never lowers it, and leaves every other object's state.
pub states-update_state :
    (s : Store) (p v a k : ℕ)
    → ((update_state s p v).page a).states k
      ≡ (if points_into s p a k then max ((s.page a).states k) v else (s.page a).states k)
unfolding update_state state_of
states-update_state s p v a k = ground (arith, states-set_state s p v a k)

-- What the loop of `clear_flags` has done after `i` rounds.
record Cleared (p : Page) (i : ℕ) (q : Page) : Type 0 where
  flags :
      (k : ℕ)
      → q.flags k
        ≡ (if ltb k i then record (p.flags k) { reachable = 0; marked = 0 } else p.flags k)
  states : q.states ≡ p.states
  metadata : q.metadata ≡ p.metadata

Cleared-step : (p : Page) (i : ℕ) (q : Page) → Cleared p i q → Cleared p (i + 1) (clear_flag i q)
unfolding clear_flag
Cleared-step p i q h = record {
  flags = λ k. ground (arith, h.flags k);
  states = h.states;
  metadata = h.metadata;
}

Cleared-clear_flags : (p : Page) → Cleared p (flags_count p) (clear_flags p)
unfolding clear_flags
Cleared-clear_flags p =
    for_range_inv (Cleared p) clear_flag (flags_count p) 0 (flags_count p) p (omega arith)
      (λ i q _ _ h. Cleared-step p i q h)
      (record { flags = λ k. ground arith; states = refl; metadata = refl })

-- `clear_flags` clears the reachable and marked words of the page's groups, and keeps the
-- registered words, the states and the metadata.
pub clear_flags_lem :
    (p : Page) (k : ℕ)
    → ((clear_flags p).flags k ≡ (
        if ltb k (flags_count p)
        then record (p.flags k) { reachable = 0; marked = 0 }
        else p.flags k))
      × ((clear_flags p).states ≡ p.states)
      × ((clear_flags p).metadata ≡ p.metadata)
clear_flags_lem p k = let h = Cleared-clear_flags p in (h.flags k, h.states, h.metadata)
