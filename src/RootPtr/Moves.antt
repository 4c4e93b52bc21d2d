-- ===== src/RootPtr/Moves.antt =====
-- sgcl/root_ptr.h: a move outside the stack hands the word on and leaves a root pointer without one, which
-- is fit for the destructor only.
use sgcl.Base.{
  ℕ, ◌<◌, ◌≡◌, ◌≢◌, ◌∙◌, refl, sym, ap, subst, arith, false, Bool-cases, ==→eq, inl, inr, ◌==◌,
  none, some, List, ◌∷◌, update,
}
use sgcl.Base.Lists.{occurs}
use sgcl.RootPtr.{
  Thread, Call, set_ref, remove_flags, stack_detected, is_heap_root, ptr, get, assign, move,
  move_from, destroy,
}
use sgcl.RootPtr.Words.{held, held-update}
use sgcl.RootPtr.Valid.{IsHeapRef, IsThread, get-word, get-same}

-- A move from `that` to `this`, where neither is on the stack.
module _ (c : Call) (this that : ℕ) (s : Thread) (live : List ℕ) (v : IsThread s (that ∷ live))
    (out : occurs this (that ∷ live) ≡ 0) (off : stack_detected c this ≡ false) where
  abbrev moved : Thread
  moved = set_ref that 0 (set_ref this (s.refs that) s)

  apart : that ≢ this
  unfolding occurs
  apart e = ground arith

  absent : occurs that live ≡ 0
  unfolding occurs
  absent = ground (arith, v.places that)

  mine : IsHeapRef (s.refs that)
  unfolding occurs
  mine = v.refs that (ground arith)

  new_ref : moved.refs this ≡ s.refs that
  new_ref = ground (arith, apart)

  other_ref : (b : ℕ) → that ≢ b → this ≢ b → moved.refs b ≡ s.refs b
  other_ref b n n' = ground arith

  held-moved : held moved.refs live ≡ held s.refs live
  unfolding occurs
  held-moved =
      held-update (update s.refs this (s.refs that)) that 0 live absent
      ∙ held-update s.refs this (s.refs that) live (ground arith)

  moved-IsThread : IsThread moved (this ∷ live)
  unfolding occurs held
  moved-IsThread = record {
    roots = v.roots;
    spare = record {
      word = v.spare.word;
      null = v.spare.null;
      once = λ x ev.
          ground (arith, v.spare.once x ev, ap remove_flags new_ref, ap (occurs x) held-moved);
    };
    refs = λ a lt. elim (Bool-cases (this == a)) [
      | inl t ↦
          subst (λ b. IsHeapRef (moved.refs b)) (==→eq _ _ t) (subst IsHeapRef (sym new_ref) mine)
      | inr t ↦
          subst IsHeapRef (sym (other_ref a (λ e. ground (arith, absent, e)) (ground arith)))
            (v.refs a (ground arith))
    ];
    places = λ a. ground (arith, v.places a);
  }

  ptr-moved : ptr this moved ≡ ptr that s
  unfolding ptr
  ptr-moved = ap remove_flags new_ref

  get-that : get that s ≡ some (s.memory.words (ptr that s))
  unfolding ptr
  get-that = get-word that s (ptr that s) refl mine.word.not_null

  move-moved : move c this that s ≡ some moved
  unfolding move move_from is_heap_root
  move-moved = rw (get-that, move, move_from, off, mine.flag) refl

  without_word : moved.refs that ≡ 0
  without_word = ground arith

  null-ptr : ptr that moved ≡ 0
  unfolding ptr remove_flags
  null-ptr = rw without_word refl

  -- For a heap root `that` and a place `this` outside the stack that has no root pointer: the move gives
  -- `this` what `that` held, writes no word, and changes no other root pointer. Afterwards the destructor
  -- of `that` does nothing, and to read it or to assign to it is an access through null.
  pub move_lem :
      (s' : Thread) × (move c this that s ≡ some s')
      × IsThread s' (this ∷ live)
      × (get this s' ≡ get that s)
      × (s'.memory ≡ s.memory)
      × ((b : ℕ) → 0 < occurs b live → get b s' ≡ get b s)
      × (destroy that s' ≡ s')
      × (get that s' ≡ none)
      × ((q : ℕ) → assign that q s' ≡ none)
  unfolding get assign destroy ptr occurs
  move_lem = (
    moved,
    move-moved,
    moved-IsThread,
    get-word this moved (ptr that s) ptr-moved mine.word.not_null ∙ sym get-that,
    refl,
    λ b lt.
        get-same b s moved
          (ap remove_flags (other_ref b (λ e. ground (arith, absent, e)) (λ e. ground (arith, e))))
          refl,
    rw without_word refl,
    rw null-ptr refl,
    λ q. rw null-ptr refl,
  )
