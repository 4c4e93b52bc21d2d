-- ===== src/RootPtr/Construct.antt =====
-- sgcl/root_ptr.h: the constructor outside the stack takes a word that no other root pointer has.
use sgcl.Base.{
  ℕ, ◌+◌, ◌%◌, ◌<◌, ◌≡◌, ◌≢◌, ◌⊎◌, ◌∙◌, refl, sym, ap, subst, arith, false, Bool-cases, ==→eq, inl,
  inr, ◌==◌, List, ◌∷◌, update,
}
use sgcl.Base.Lists.{occurs}
use sgcl.Types.{page_size}
use sgcl.HeapRoots.{Roots}
use sgcl.HeapRoots
use sgcl.HeapRoots.Count.{free_count, page_pointers, IsRoots, one}
use sgcl.HeapRoots.Conserve.{alloc_conserves}
use sgcl.TrackedPtr.{Memory}
use sgcl.RootPtr.{
  Thread, Call, heap_root_flag, set_flag, remove_flags, stack_detected, ptr, construct, get,
}
use sgcl.RootPtr.Words.{
  IsWord, held, held-update, remove_flags-set_flag, has-set_flag, set_flag-untagged, untagged,
  page_pointers-IsWord, page_pointers-in_page, page_pointers_once,
}
use sgcl.RootPtr.Valid.{IsHeapRef, IsSpare, IsThread, IsNew, get-same}

-- With a new page, its words are spare too.
new-IsSpare :
    (node : ℕ) (s : Thread) (live : List ℕ)
    → IsThread s live
    → IsNew node s live
    → IsSpare (λ x. free_count x s.heap_roots + occurs x (page_pointers node)) s live
new-IsSpare node s live v n = record {
  word = λ x lt. elim (cases x) [
    | inl e ↦ v.spare.word x (omega arith)
    | inr h ↦ subst IsWord (whole x h) (page_pointers-IsWord node x n.page h)
  ];
  null = λ x lt. elim (cases x) [
    | inl e ↦ v.spare.null x (omega arith)
    | inr h ↦
        let i = page_pointers-in_page node x n.page h in
        ap s.memory.words (sym (whole x h)) ∙ n.null x i.0 i.1
  ];
  once = λ x ev. elim (cases (x + 1)) [
    | inl e ↦ elim (cases x) [
      | inl e' ↦ omega (arith, v.spare.once x ev)
      | inr h ↦
          let i = page_pointers-in_page node x n.page h in
          omega (
            arith,
            n.unused x i.0 i.1,
            n.unused (x + 1) (omega (arith, i.0)) (next x ev i.1),
            page_pointers_once node x n.page,
            e,
          )
    ]
    | inr h ↦ absurd (omega (arith, (page_pointers-IsWord node (x + 1) n.page h).even))
  ];
}
  where
    cases : (x : ℕ) → (occurs x (page_pointers node) ≡ 0) ⊎ (0 < occurs x (page_pointers node))
    cases x = elim (Bool-cases (occurs x (page_pointers node) == 0)) [
      | inl e ↦ inl (ground arith)
      | inr e ↦ inr (ground arith)
    ]

    whole : (x : ℕ) → 0 < occurs x (page_pointers node) → x ≡ untagged x
    whole x h = omega (arith, (page_pointers-IsWord node x n.page h).even)

    next : (x : ℕ) → x % 2 ≡ 0 → x < node + page_size → x + 1 < node + page_size
    next x ev lt = omega (arith, n.page.aligned)

-- Taking a spare address `w` for `this`, which leaves the words counted by `count'`.
module _ (this w : ℕ) (count count' : ℕ → ℕ) (s : Thread) (live : List ℕ) (p : IsSpare count s live)
    (e : (x : ℕ) → count x ≡ one w x + count' x) (out : occurs this live ≡ 0) where
  taken : 0 < count w
  unfolding one
  taken = ground (arith, e w)

  taken-IsHeapRef : IsHeapRef (set_flag w heap_root_flag)
  taken-IsHeapRef =
      let i = p.word w taken in
      record {
        word = subst IsWord (sym (remove_flags-set_flag w i)) i;
        flag = has-set_flag w;
        not_null = λ z. omega (arith, set_flag-untagged w);
        tag = set_flag-untagged w ∙ ap (λ x. x + 1) (sym (remove_flags-set_flag w i));
      }

  taken-IsSpare :
      (s' : Thread)
      → s'.refs ≡ update s.refs this (set_flag w heap_root_flag)
      → s'.memory ≡ s.memory
      → IsSpare count' s' (this ∷ live)
  unfolding one held occurs
  taken-IsSpare s' er em = record {
    word = λ x lt. p.word x (omega (arith, e x));
    null = λ x lt. ap (λ (m : Memory). m.words (untagged x)) em ∙ p.null x (omega (arith, e x));
    once = λ x ev. ground (arith, p.once x ev, e x, e (x + 1), same x, mine);
  }
    where
      set : update s.refs this (set_flag w heap_root_flag) this ≡ set_flag w heap_root_flag
      set = ground arith

      mine : remove_flags (s'.refs this) ≡ untagged w
      mine =
          ap (λ (f : ℕ → ℕ). remove_flags (f this)) er
          ∙ ap remove_flags set
          ∙ remove_flags-set_flag w (p.word w taken)

      same : (x : ℕ) → occurs x (held s'.refs live) ≡ occurs x (held s.refs live)
      same x =
          ap (λ f. occurs x (held f live)) er
          ∙ ap (occurs x) (held-update s.refs this (set_flag w heap_root_flag) live out)

update_self : {A : Type 0} (f : ℕ → A) (a : ℕ) (v : A) → update f a v a ≡ v
update_self f a v = ground arith

update_other : {A : Type 0} (f : ℕ → A) (a b : ℕ) (v : A) → a ≢ b → update f a v b ≡ f b
update_other f a b v ne = ground arith

-- The constructor, outside the stack.
module _ (c : Call) (this : ℕ) (s : Thread) (off : stack_detected c this ≡ false) where
  abbrev word : ℕ
  word = (HeapRoots.alloc c.node s.heap_roots).0

  refs-construct : (construct c this s).refs ≡ update s.refs this (set_flag word heap_root_flag)
  unfolding construct
  refs-construct = rw off refl

  roots-construct : (construct c this s).heap_roots ≡ (HeapRoots.alloc c.node s.heap_roots).1
  unfolding construct
  roots-construct = rw off refl

  memory-construct : (construct c this s).memory ≡ s.memory
  unfolding construct
  memory-construct = rw off refl

  ref-other : (b : ℕ) → this ≢ b → (construct c this s).refs b ≡ s.refs b
  ref-other b ne =
      ap (λ (f : ℕ → ℕ). f b) refs-construct
      ∙ update_other s.refs this b (set_flag word heap_root_flag) ne

  constructed :
      (live : List ℕ) (count : ℕ → ℕ)
      → IsThread s live
      → occurs this live ≡ 0
      → IsSpare count s live
      → IsRoots (HeapRoots.alloc c.node s.heap_roots).1
      → ((x : ℕ) → count x ≡ one word x + free_count x (HeapRoots.alloc c.node s.heap_roots).1)
      → IsThread (construct c this s) (this ∷ live)
  unfolding occurs
  constructed live count v out p r e = record {
    roots = subst IsRoots (sym roots-construct) r;
    spare =
        taken-IsSpare this word count (λ x. free_count x (construct c this s).heap_roots) s live p
          (λ x. e x ∙ ap (λ n. one word x + n) (ap (free_count x) (sym roots-construct))) out
          (construct c this s) refs-construct memory-construct;
    refs = λ a lt. elim (Bool-cases (this == a)) [
      | inl t ↦
          subst (λ b. IsHeapRef ((construct c this s).refs b)) (==→eq _ _ t)
            (subst IsHeapRef
              (sym (
                ap (λ (f : ℕ → ℕ). f this) refs-construct
                ∙ update_self s.refs this (set_flag word heap_root_flag)))
              (taken-IsHeapRef this word count _ s live p e out))
      | inr t ↦ subst IsHeapRef (sym (ref-other a (ground arith))) (v.refs a (ground arith))
    ];
    places = λ a. ground (arith, v.places a, out);
  }

  -- The new pointer is a root pointer too, and the others are as they were.
  pub construct-IsThread :
      (live : List ℕ)
      → IsThread s live
      → IsNew c.node s live
      → occurs this live ≡ 0
      → IsThread (construct c this s) (this ∷ live)
  construct-IsThread live v n out =
      let h = alloc_conserves c.node s.heap_roots (omega (arith, n.page.bound)) v.roots in
      elim h.1 [
        | inl e ↦ constructed live _ v out v.spare h.0 e
        | inr (none_left, e) ↦ constructed live _ v out (new-IsSpare c.node s live v n) h.0 e
      ]

  pub get-construct : (b : ℕ) → this ≢ b → get b (construct c this s) ≡ get b s
  unfolding ptr
  get-construct b ne =
      get-same b s (construct c this s) (ap remove_flags (ref-other b ne))
        (ap (λ (m : Memory). m.words (ptr b s)) memory-construct)
