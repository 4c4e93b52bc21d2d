-- ===== src/RootPtr/Variable.antt =====
-- sgcl/root_ptr.h: root pointers outside the stack are variables of their own. Each has a word that no
-- other one has and that is not free, and what is stored in one is not seen by another.
use sgcl.Base.{
  ℕ, ◌+◌, ◌%◌, ◌<◌, ◌≡◌, ◌≢◌, ◌∙◌, refl, sym, ap, subst, arith, false, Bool-cases, ==→eq, inl, inr,
  ◌==◌, if◌then◌else◌, some, List, ◌∷◌,
}
use sgcl.Base.Lists.{occurs}
use sgcl.HeapRoots.{Roots}
use sgcl.HeapRoots
use sgcl.HeapRoots.Count.{free_count, IsRoots, one}
use sgcl.HeapRoots.Release.{free_conserves}
use sgcl.TrackedPtr.{Memory, store}
use sgcl.TrackedPtr.Barrier.{store_lem}
use sgcl.RootPtr.{
  Thread, Call, stack_detected, is_heap_root, ptr, construct, get, assign, from_pointer, destroy,
}
use sgcl.RootPtr.Words.{IsWord, untagged, held, occurs-held, held-distinct}
use sgcl.RootPtr.Valid.{IsHeapRef, IsThread, IsNew, Holds, get-word, get-same}
use sgcl.RootPtr.Construct.{construct-IsThread, get-construct}

-- The word of a free address is not held.
not_held :
    (s : Thread) (live : List ℕ)
    → IsThread s live
    → (x : ℕ) → 0 < free_count x s.heap_roots
    → (w : ℕ) → 0 < occurs w (held s.refs live)
    → w ≢ untagged x
not_held s live v x lt w h e =
    let o = v.spare.once (untagged x) (omega arith) in
    let h' : 0 < occurs (untagged x) (held s.refs live) =
      subst (λ (y : ℕ). 0 < occurs y (held s.refs live)) e h in
    elim (Bool-cases (x % 2 == 0)) [
      | inl ev ↦
          let q : untagged x ≡ x = ground arith in
          omega (arith, o, h', ap (λ y. free_count y s.heap_roots) q)
      | inr od ↦
          let q : untagged x + 1 ≡ x = ground arith in
          omega (arith, o, h', ap (λ y. free_count y s.heap_roots) q)
    ]

-- Writing `p` to the word of `this`.
module _ (this p : ℕ) (m : Memory) (s : Thread) (live : List ℕ) (v : IsThread s live)
    (on : 0 < occurs this live)
    (w : (x : ℕ) → m.words x ≡ (if ptr this s == x then p else s.memory.words x)) where
  written-IsThread : IsThread (record s { memory = m }) live
  unfolding ptr
  written-IsThread = record {
    roots = v.roots;
    spare = record {
      word = v.spare.word;
      null = λ x lt. ground (
        arith,
        w (untagged x),
        v.spare.null x lt,
        not_held s live v x lt (ptr this s) (occurs-held s.refs this live on),
      );
      once = v.spare.once;
    };
    refs = v.refs;
    places = v.places;
  }

  written-Holds : Holds this p live s (record s { memory = m })
  unfolding ptr
  written-Holds = record {
    value =
        get-word this (record s { memory = m }) (ptr this s) refl (v.refs this on).word.not_null
        ∙ ap some (ground (arith, w (ptr this s)));
    others = λ b ne lt.
        get-same b s (record s { memory = m }) refl
          (w (ptr b s)
            ∙ ground (
              arith,
              v.spare.once (ptr this s) (v.refs this on).word.even,
              held-distinct s.refs this b (ptr this s) live ne on lt refl,
            ));
  }

-- Assigning to a root pointer that exists gives it the pointer, and changes no other one.
pub assign_lem :
    (this p : ℕ) (s : Thread) (live : List ℕ)
    → IsThread s live
    → 0 < occurs this live
    → (s' : Thread) × (assign this p s ≡ some s') × IsThread s' live × Holds this p live s s'
unfolding assign ptr
assign_lem this p s live v on =
    let z : (ptr this s == 0) ≡ false = ground (arith, (v.refs this on).word.not_null) in
    let m = store (ptr this s) p s.memory in
    let w = λ (x : ℕ). (store_lem (ptr this s) p s.memory x 0 0).0 in
    (
      record s { memory = m },
      rw z refl,
      written-IsThread this p m s live v on w,
      written-Holds this p m s live v on w,
    )

-- A root pointer that is made outside the stack from the pointer `p` holds `p`, and the root pointers that
-- exist hold what they held, where `new` returns an unused page of null words.
pub from_pointer_lem :
    (c : Call) (this p : ℕ) (s : Thread) (live : List ℕ)
    → IsThread s live
    → IsNew c.node s live
    → occurs this live ≡ 0
    → stack_detected c this ≡ false
    → (s' : Thread) × (from_pointer c this p s ≡ some s')
      × IsThread s' (this ∷ live)
      × Holds this p live s s'
unfolding from_pointer occurs
from_pointer_lem c this p s live v n out off =
    let v' = construct-IsThread c this s off live v n out in
    let a = assign_lem this p (construct c this s) (this ∷ live) v' (ground arith) in
    (
      a.0,
      a.1,
      a.2,
      record {
        value = a.3.value;
        others = λ b ne lt. a.3.others b ne (omega arith) ∙ get-construct c this s off b ne;
      },
    )

-- The state after the destructor.
abbrev freed : ℕ → Thread → Thread
freed this s = record s {
  memory = store (ptr this s) 0 s.memory;
  heap_roots = HeapRoots.free (s.refs this) s.heap_roots;
}

destroy-freed :
    (this : ℕ) (s : Thread)
    → IsHeapRef (s.refs this)
    → s.terminated ≡ false
    → destroy this s ≡ freed this s
unfolding destroy is_heap_root
destroy-freed this s r t =
    let z : (s.refs this == 0) ≡ false = ground (arith, r.not_null) in rw (z, r.flag, t) refl

-- The destructor of a root pointer outside the stack, while the collector runs, sets its word to null and
-- gives its address back to the free ones with the flag in bit 0; the free addresses stay those of words
-- that no root pointer has, and the other root pointers hold what they held.
pub destroy_lem :
    (this : ℕ) (s : Thread) (live : List ℕ)
    → IsThread s (this ∷ live)
    → s.terminated ≡ false
    → IsThread (destroy this s) live
      × ((b : ℕ) → 0 < occurs b live → get b (destroy this s) ≡ get b s)
      × ((x : ℕ)
          → free_count x (destroy this s).heap_roots
            ≡ one (s.refs this) x + free_count x s.heap_roots)
unfolding occurs held one ptr
destroy_lem this s live v t =
    subst
      (λ s'.
        IsThread s' live
        × ((b : ℕ) → 0 < occurs b live → get b s' ≡ get b s)
        × ((x : ℕ) → free_count x s'.heap_roots ≡ one (s.refs this) x + free_count x s.heap_roots))
      (sym (destroy-freed this s mine t))
      (
        record {
          roots = f.0;
          spare = record {
            word = λ x lt. elim (Bool-cases (s.refs this == x)) [
              | inl e ↦
                  subst IsWord (omega (arith, ==→eq _ _ e, mine.tag, mine.word.even)) mine.word
              | inr e ↦ v.spare.word x (ground (arith, f.1 x))
            ];
            null = λ x lt.
                ground (arith, w (untagged x), f.1 x, v.spare.null x, mine.tag, mine.word.even);
            once = λ x ev.
                ground (arith, f.1 x, f.1 (x + 1), v.spare.once x ev, mine.tag, mine.word.even);
          };
          refs = λ a lt. v.refs a (omega arith);
          places = λ a. omega (arith, v.places a);
        },
        λ b lt. get-same b s (freed this s) refl (
            w (ptr b s)
            ∙ ground (
              arith,
              v.spare.once (ptr b s) (v.refs b (omega (arith, lt))).word.even,
              occurs-held s.refs b live lt,
            )),
        f.1,
      )
  where
    mine : IsHeapRef (s.refs this)
    mine = v.refs this (ground arith)

    f :
        IsRoots (HeapRoots.free (s.refs this) s.heap_roots)
        × ((x : ℕ)
            → free_count x (HeapRoots.free (s.refs this) s.heap_roots)
              ≡ one (s.refs this) x + free_count x s.heap_roots)
    f = free_conserves (s.refs this) s.heap_roots v.roots

    w :
        (x : ℕ)
        → (store (ptr this s) 0 s.memory).words x
          ≡ (if ptr this s == x then 0 else s.memory.words x)
    w x = (store_lem (ptr this s) 0 s.memory x 0 0).0
