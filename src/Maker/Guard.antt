-- ===== src/Maker/Guard.antt =====
-- sgcl/priv/maker.h and `Thread::Range_guard`: how making an object ends, with objects that are made in its
-- constructor.
use sgcl.Base.{
  ℕ, ◌+◌, ◌-◌, ◌^◌, ◌≡◌, ◌∙◌, refl, sym, ap, subst, arith, Bool, true, false, if◌then◌else◌, ◌==◌,
  Bool-cases, inl, inr, Option, none, some,
}
use sgcl.State
use sgcl.Page.{Store, state_of, set_state, page_of, index_of}
use sgcl.Counter.{Counter}
use sgcl.Maker.{
  Making, Outcome, returned, thrown, invalid, Body, done, throws, member, makes, register,
  construct_pointer, fill, use_child_pointers, set_place, catch_all, leave_first, update_allocated,
  construct, make_first, make_later, make, run,
}
use sgcl.Maker.Ends.{
  returned-thrown, invalid-thrown, Counted, Ends, has_map, counted, thrown-Ends, returned-Ends,
  invalid-Ends, catch_all-Ends, leave_first-Ends, update_allocated-Ends, and_then-Ends,
}

-- What a constructor is meant to do: whether it returns, how many objects it makes, and their bytes. An
-- exception ends all the constructors that run, and the objects that were made before it stay.
unfoldable pub returns : Body → Bool
returns done = true
returns throws = false
returns (member x b) = returns b
returns (makes t mem size inner b) = if returns inner then returns b else false

unfoldable pub made_count : Body → ℕ
made_count done = 0
made_count throws = 0
made_count (member x b) = made_count b
made_count (makes t mem size inner b) =
    if returns inner then made_count inner + 1 + made_count b else made_count inner

unfoldable pub made_bytes : Body → ℕ
made_bytes done = 0
made_bytes throws = 0
made_bytes (member x b) = made_bytes b
made_bytes (makes t mem size inner b) =
    if returns inner then made_bytes inner + size + made_bytes b else made_bytes inner

same-Ends :
    (m s : Making) (n k : ℕ) (ret : Bool) (r : Outcome × Making)
    → s.child_base ≡ m.child_base
    → s.child_map ≡ m.child_map
    → s.allocated ≡ m.allocated
    → Ends s n k ret r
    → Ends m n k ret r
same-Ends m s n k ret r eb em ea h = record {
  base = h.base ∙ eb;
  map = h.map ∙ em;
  valid = λ v. h.valid (ap has_map em ∙ v);
  on_return = λ e. let c = h.on_return e in (c.0, counted s r.1 n k m r.1 (sym ea) refl c.1);
  on_throw = λ e. let c = h.on_throw e in (c.0, counted s r.1 n k m r.1 (sym ea) refl c.1);
}

-- A constructor of which this is known makes objects of which this is known.
module _ (ctor : Making → Outcome × Making) (n k : ℕ) (ret : Bool)
    (h : (m : Making) → Ends m n k ret (ctor m)) where
  construct-Ends : (p : ℕ) (m : Making) → Ends m n k ret (construct ctor p m)
  unfolding construct
  construct-Ends p m =
      catch_all-Ends m n k ret p _
        (same-Ends m (set_place p State.unique_lock m) n k ret _ refl refl refl (h _))

  make-Ends :
      (t mem size : ℕ) (m : Making)
      → Ends m (if ret then n + 1 else n) (if ret then k + size else k) ret (make t mem size ctor m)
  unfolding make make_first make_later fill use_child_pointers has_map
  make-Ends t mem size m =
      update_allocated-Ends m n k ret size _ (elim (Bool-cases (m.tables t).final) [
        | inl e ↦
            rw e (same-Ends m _ n k ret _ refl refl refl (construct-Ends mem (fill mem size 0 m)))
        | inr e ↦ rw e (
            leave_first-Ends m n k ret t
              (use_child_pointers mem (some t) (fill mem size (2 ^ 64 - 1) m)) _ refl refl
              (construct-Ends mem _))
      ])

nothing-Counted : (m m1 : Making) → m1.allocated ≡ m.allocated → Counted m 0 0 m1
nothing-Counted m m1 e = record {
  counted = omega (arith, ap (λ (x : Counter). x.count) e);
  sized = omega (arith, ap (λ (x : Counter). x.size) e);
}

register-Ends :
    (c : Option ℕ) (x : ℕ) (m : Making) → m.child_map ≡ c → Ends m 0 0 true (register c x m)
unfolding register has_map
register-Ends none x m e =
    invalid-Ends m 0 0 true m refl refl
      (λ v. let f : has_map m.child_map ≡ false = ap has_map e in ground arith)
register-Ends (some t) x m e = returned-Ends m 0 0 true _ refl refl (refl, nothing-Counted m _ refl)

-- A pointer is constructed without an exception.
construct_pointer-Ends : (x : ℕ) (m : Making) → Ends m 0 0 true (construct_pointer x m)
unfolding construct_pointer
construct_pointer-Ends x m = elim (Bool-cases (m.words x == 0)) [
  | inl e ↦ rw e (returned-Ends m 0 0 true m refl refl (refl, nothing-Counted m m refl))
  | inr e ↦ rw e (register-Ends m.child_map x m refl)
]

adjust :
    (m : Making) (n n' k k' : ℕ) (ret : Bool) (r : Outcome × Making)
    → n ≡ n'
    → k ≡ k'
    → Ends m n k ret r
    → Ends m n' k' ret r
adjust m n n' k k' ret r en ek h =
    subst (λ (x : ℕ). Ends m x k' ret r) en (subst (λ (y : ℕ). Ends m n y ret r) ek h)

-- A constructor leaves the thread's `child_pointers` as they were, also after an exception and with other
-- objects made in it. It returns or throws as it is meant to, and the thread's counters go up by the number
-- and the bytes of the objects whose constructors returned, modulo 2^64.
run_lem : (b : Body) (m : Making) → Ends m (made_count b) (made_bytes b) (returns b) (run b m)
unfolding run returns made_count made_bytes
run_lem done m = returned-Ends m 0 0 true m refl refl (refl, nothing-Counted m m refl)
run_lem throws m = thrown-Ends m 0 0 false m refl refl (refl, nothing-Counted m m refl)
run_lem (member x b) m = adjust m _ _ _ _ _ _ (omega arith) (omega arith) (
    and_then-Ends m 0 0 true (made_count b) (made_bytes b) (returns b) (construct_pointer x m)
      (run b) (construct_pointer-Ends x m) (run_lem b))
run_lem (makes t mem size inner b) m = adjust m _ _ _ _ _ _ (ground arith) (ground arith) (
    and_then-Ends m _ _ (returns inner) (made_count b) (made_bytes b) (returns b)
      (make t mem size (run inner) m) (run b)
      (make-Ends (run inner) (made_count inner) (made_bytes inner) (returns inner) (run_lem inner) t
        mem size m)
      (run_lem b))

state_of-set_state : (s : Store) (p v : ℕ) → state_of (set_state s p v) p ≡ v
unfolding state_of set_state page_of index_of
state_of-set_state s p v = ground arith

-- A place that was left by an exception.
IsBad : ℕ → Outcome × Making → Type 0
IsBad p r = r.0 ≡ thrown → state_of r.1.store p ≡ State.bad_alloc

catch_all-IsBad : (p : ℕ) (r : Outcome × Making) → IsBad p (catch_all p r)
unfolding catch_all IsBad
catch_all-IsBad p (returned, m) = λ e. absurd (returned-thrown e)
catch_all-IsBad p (thrown, m) = λ e. state_of-set_state m.store p State.bad_alloc
catch_all-IsBad p (invalid, m) = λ e. absurd (invalid-thrown e)

leave_first-IsBad :
    (p t : ℕ) (old : Making) (r : Outcome × Making) → IsBad p r → IsBad p (leave_first t old r)
unfolding leave_first use_child_pointers IsBad
leave_first-IsBad p t old (returned, m) h = h
leave_first-IsBad p t old (thrown, m) h = h
leave_first-IsBad p t old (invalid, m) h = h

update_allocated-IsBad :
    (p size : ℕ) (r : Outcome × Making) → IsBad p r → IsBad p (update_allocated size r)
unfolding update_allocated IsBad
update_allocated-IsBad p size (returned, m) h = h
update_allocated-IsBad p size (thrown, m) h = h
update_allocated-IsBad p size (invalid, m) h = h

-- Making an object leaves the thread's `child_pointers` as they were, also after an exception and with other
-- objects made in its constructor. If the constructors are meant to return, it returns and counts the
-- object; else the exception goes on, the object is not counted, and its place has the state `BadAlloc`.
-- The counters go up by the number and the bytes of the objects whose constructors returned, modulo 2^64.
-- The outcome is stated unless a pointer is constructed on a word that is not null without a map.
pub make_lem :
    (t mem size : ℕ) (b : Body) (m : Making)
    → let r = make t mem size (run b) m in
      Ends m
        (made_count (makes t mem size b done))
        (made_bytes (makes t mem size b done))
        (returns b)
        r
      × (r.0 ≡ thrown → state_of r.1.store mem ≡ State.bad_alloc)
unfolding returns made_count made_bytes IsBad make make_first make_later construct
make_lem t mem size b m = (
  adjust m _ _ _ _ _ _ (ground arith) (ground arith)
      (make-Ends (run b) (made_count b) (made_bytes b) (returns b) (run_lem b) t mem size m),
  update_allocated-IsBad mem size _ (elim (Bool-cases (m.tables t).final) [
    | inl e ↦ rw e (catch_all-IsBad mem _)
    | inr e ↦ rw e (leave_first-IsBad mem t m _ (catch_all-IsBad mem _))
  ]),
)
