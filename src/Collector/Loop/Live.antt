-- ===== src/Collector/Loop/Live.antt =====
-- sgcl/priv/collector.h, the counts of `_main_loop`: `_live_objects_number` is what was allocated less what
-- was removed.
use mathlib.Core.List.{Memᴰ}
use sgcl.Base.{
  ◌*◌, ◌≡◌, refl, sym, ap, subst, ◌∙◌, Bool, true, false, ◌||◌, ◌==◌, ltb, if◌then◌else◌, Option,
  none, some, List, [], ◌∷◌,
}
use sgcl.Base.Lists.{All, All-member}
use sgcl.Types.{max_sleep_time}
use sgcl.Counter.{Counter, word_add, word_sub, plus, minus, add_assign}
use sgcl.Counter.Laws.{IsWord, add_assign-minus, minus-plus-count}
use sgcl.Collector.Loop.{
  poll, act, Poll, Waiting, recount, wait, Loop, Input, shift_removed, count_turn, end_turn, turn,
}

-- A result, if there is one, is as `P` says.
abbrev Holds : {A : Type 0} → (A → Type 0) → Option A → Type 0
Holds P none = Unit
Holds P (some x) = P x

Holds-map :
    {A : Type 0} (P Q : A → Type 0) → ((x : A) → P x → Q x) → (r : Option A) → Holds P r → Holds Q r
Holds-map P Q f none p = tt
Holds-map P Q f (some x) p = f x p

Holds-if :
    {A : Type 0} (P : A → Type 0) (b c : Bool) (x y : A) (rest : Option A)
    → P x
    → Holds P rest
    → P y
    → Holds P (if b then some x else if c then rest else some y)
Holds-if P true c x y rest p q r = p
Holds-if P false true x y rest p q r = q
Holds-if P false false x y rest p q r = r

-- The counts that `_alloc_counter` gave in a turn.
unfoldable pub poll_counts : List Poll → List Counter
poll_counts [] = []
poll_counts (p ∷ polls) = p.allocated ∷ poll_counts polls

-- What the loop that waits leaves of the counts of the turn.
record Counted (allocated : Counter) (counts : List Counter) (w w' : Waiting) : Type 0 where
  last_removed : w'.turn.last_removed ≡ w.turn.last_removed
  last_allocated : (n : Counter) × Memᴰ n counts × (w'.turn.last_allocated ≡ minus n allocated)

wait-Counted :
    (allocated removed : Counter) (polls : List Poll) (n : Counter) (w : Waiting)
    → w.turn.last_allocated ≡ minus n allocated
    → Holds (Counted allocated (n ∷ poll_counts polls) w) (wait allocated removed polls w)
unfolding wait recount poll_counts
wait-Counted allocated removed [] n w e = tt
wait-Counted allocated removed (p ∷ polls) n w e =
    let r = poll p.duration w.turn (act p.before w.control) in
    let t = recount allocated removed p.allocated w.turn in
    Holds-if (Counted allocated (n ∷ p.allocated ∷ poll_counts polls) w) r.0
      ((t.live.count == 0) || ltb p.later (max_sleep_time * 1000)) (record w { control = r.1 })
      (record { turn = t; control = r.1 })
      (wait allocated removed polls (record { turn = t; control = r.1 }))
      (record { last_removed = refl; last_allocated = (n, Memᴰ.head refl, e) })
      (Holds-map _ _
        (λ w' v.
          let q = v.last_allocated in
          record { last_removed = v.last_removed; last_allocated = (q.0, Memᴰ.tail q.1, q.2) })
        (wait allocated removed polls (record { turn = t; control = r.1 }))
        (wait-Counted allocated removed polls p.allocated (record { turn = t; control = r.1 })
          refl))
      (record {
        last_removed = refl;
        last_allocated = (p.allocated, Memᴰ.tail (Memᴰ.head refl), refl);
      })

Holds-then :
    {A B : Type 0} (P : A → Type 0) (Q : B → Type 0) (f : A → B)
    → ((x : A) → P x → Q (f x))
    → (r : Option A) → Holds P r
    → Holds Q (elim r [ some x ↦ some (f x) | none ↦ none ])
Holds-then P Q f g none p = tt
Holds-then P Q f g (some x) p = g x p

-- The counts that `_alloc_counter` gives from the passes of the turn on.
unfoldable pub counts_of : Input → List Counter
counts_of i = i.now ∷ poll_counts (i.first ∷ i.polls)

-- What a turn leaves in the counts of the loop.
abbrev Balanced : Input → Loop → Loop → Type 0
Balanced i s s' =
    (s'.live_objects_number ≡ word_sub i.now.count (word_add s.removed.count i.last_removed.count))
    × (s'.removed ≡ add_assign s.removed i.last_removed)
    × Memᴰ s'.allocated (counts_of i)

end_turn-Balanced :
    (i : Input) (s : Loop) (w : Waiting)
    → All IsWord (counts_of i)
    → IsWord s.allocated
    → Counted s.allocated (counts_of i) (record { turn = count_turn i s; control = s.control }) w
    → Balanced i s (
        end_turn
          (record (shift_removed i.last_removed s) {
            live_objects_number = (count_turn i s).live.count;
          })
          w)
unfolding end_turn shift_removed count_turn recount plus counts_of
end_turn-Balanced i s w v a c =
    let q = c.last_allocated in
    let e =
      ap (add_assign s.allocated) q.2
      ∙ add_assign-minus s.allocated q.0 (All-member IsWord (counts_of i) q.1 v) a in
    (
      minus-plus-count s.allocated i.now _ v.0 a,
      ap (add_assign s.removed) c.last_removed,
      subst (λ n. Memᴰ n (counts_of i)) (sym e) q.1,
    )

turn-Balanced :
    (i : Input) (s : Loop)
    → All IsWord (counts_of i)
    → IsWord s.allocated
    → Holds (Balanced i s) (turn i s)
unfolding turn counts_of count_turn recount
turn-Balanced i s v a =
    Holds-then
      (Counted s.allocated (counts_of i) (record { turn = count_turn i s; control = s.control }))
      (Balanced i s)
      (end_turn (record (shift_removed i.last_removed s) {
        live_objects_number = (count_turn i s).live.count;
      }))
      (λ w c. end_turn-Balanced i s w v a c)
      (wait s.allocated s.removed (i.first ∷ i.polls)
        (record { turn = count_turn i s; control = s.control }))
      (wait-Counted s.allocated s.removed (i.first ∷ i.polls) i.now
        (record { turn = count_turn i s; control = s.control }) refl)

-- When a turn is over, `_live_objects_number` is the count of all allocations at the end of its passes
-- less all that was removed till then, in words of 64 bits; what the turn removed was added to `removed`,
-- and `allocated` is one of the counts that were read since.
pub turn_lem :
    (i : Input) (s s' : Loop)
    → All IsWord (counts_of i)
    → IsWord s.allocated
    → turn i s ≡ some s'
    → (s'.live_objects_number
        ≡ word_sub i.now.count (word_add s.removed.count i.last_removed.count))
      × (s'.removed ≡ add_assign s.removed i.last_removed)
      × Memᴰ s'.allocated (counts_of i)
turn_lem i s s' v a e = subst (Holds (Balanced i s)) e (turn-Balanced i s v a)
