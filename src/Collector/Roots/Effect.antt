-- ===== src/Collector/Roots/Effect.antt =====
-- sgcl/priv/collector.h, `_mark_stack_roots` and `_mark_heap_roots`: the passes mark the words of one list,
-- and what they reach.
use mathlib.Core.List.{Memᴰ}
use sgcl.Base.{
  ℕ, zero, suc, ◌+◌, ◌/◌, ◌%◌, ◌≡◌, refl, sym, ap, subst, ◌∙◌, arith, true, ◌==◌, Bool-cases, inl,
  inr, ◌⊎◌, if◌then◌else◌, List, [], ◌∷◌, for_range, for_each, for_each-append,
}
use sgcl.Base.Bits.{testbit}
use sgcl.Base.Lists.{All, All-map}
use sgcl.Heap.{Heap, flag_at}
use sgcl.StackRoots.{Stack, page_count}
use sgcl.Threads.{Data}
use sgcl.Collector.Bits.{is_registered, is_reachable, is_marked}
use sgcl.Collector.Frame.{Frame}
use sgcl.Collector.Measure.{is_registered-Frame}
use sgcl.Collector.Mark.Effect.{points_at, covered, is_reachable-mark, flag_at-mark}
use sgcl.Collector.Mark.Cover.{
  Step, Step-refl, Step-trans, mark-Step, covered-Step, mark_covers, points_at-Frame,
}
use sgcl.Collector.Roots.{
  page_pointers, root_at, mark_root, mark_page, mark_stack, mark_stack_roots, mark_heap_roots,
  mark_roots, page_roots, stack_roots, threads_roots, heap_roots, root_words,
}

mark_page-from :
    (page n i : ℕ) (h : Heap)
    → for_range n i (λ i s. mark_root (root_at page i) s) h
      ≡ for_each mark_root (page_roots page n i) h
unfolding for_range for_each page_roots
mark_page-from page zero i h = refl
mark_page-from page (suc n) i h = mark_page-from page n (i + 1) (mark_root (root_at page i) h)

mark_page-words :
    (page : ℕ) (h : Heap)
    → mark_page page h ≡ for_each mark_root (page_roots page page_pointers 0) h
unfolding mark_page
mark_page-words page h = mark_page-from page page_pointers 0 h

mark_stack-from :
    (stack : Stack) (n i : ℕ) (h : Heap)
    → for_range n i (λ i s. if stack.pages i == 0 then s else mark_page (stack.pages i) s) h
      ≡ for_each mark_root (stack_roots stack n i) h
unfolding for_range for_each stack_roots
mark_stack-from stack zero i h = refl
mark_stack-from stack (suc n) i h = elim (Bool-cases (stack.pages i == 0)) [
  | inl z ↦ rw z (mark_stack-from stack n (i + 1) h)
  | inr p ↦ rw p (
      mark_stack-from stack n (i + 1) (mark_page (stack.pages i) h)
      ∙ ap (for_each mark_root (stack_roots stack n (i + 1))) (mark_page-words (stack.pages i) h)
      ∙ sym (
          for_each-append mark_root (page_roots (stack.pages i) page_pointers 0)
            (stack_roots stack n (i + 1)) h))
]

mark_stack_roots-words :
    (threads : List Data) (h : Heap)
    → mark_stack_roots threads h ≡ for_each mark_root (threads_roots threads) h
unfolding mark_stack_roots for_each threads_roots mark_stack
mark_stack_roots-words [] h = refl
mark_stack_roots-words (d ∷ threads) h =
    mark_stack_roots-words threads (mark_stack d.stack_roots h)
    ∙ ap (for_each mark_root (threads_roots threads)) (mark_stack-from d.stack_roots page_count 0 h)
    ∙ sym (
        for_each-append mark_root (stack_roots d.stack_roots page_count 0) (threads_roots threads)
          h)

mark_heap_roots-words :
    (nodes : List ℕ) (h : Heap) → mark_heap_roots nodes h ≡ for_each mark_root (heap_roots nodes) h
unfolding mark_heap_roots for_each heap_roots
mark_heap_roots-words [] h = refl
mark_heap_roots-words (node ∷ nodes) h =
    mark_heap_roots-words nodes (mark_page node h)
    ∙ ap (for_each mark_root (heap_roots nodes)) (mark_page-words node h)
    ∙ sym (for_each-append mark_root (page_roots node page_pointers 0) (heap_roots nodes) h)

-- The passes over the roots mark the words of the pages of every thread's stack and of the pages of
-- heap roots, in that order, and no others; a page of a stack that was never made is passed over.
pub mark_roots_words :
    (threads : List Data) (nodes : List ℕ) (h : Heap)
    → mark_roots threads nodes h ≡ for_each mark_root (root_words threads nodes) h
unfolding mark_roots root_words
mark_roots_words threads nodes h =
    mark_heap_roots-words nodes (mark_stack_roots threads h)
    ∙ ap (for_each mark_root (heap_roots nodes)) (mark_stack_roots-words threads h)
    ∙ sym (for_each-append mark_root (threads_roots threads) (heap_roots nodes) h)

-- A root points into the object, which is registered.
abbrev pub IsRoot : Heap → List ℕ → ℕ → ℕ → Type 0
IsRoot h words a k =
    (x : ℕ) × Memᴰ x words × (points_at h (h.memory x) a k ≡ true) × (is_registered h a k ≡ true)

-- What marking the words of a list leaves.
pub record Rooted (words : List ℕ) (h h' : Heap) : Type 0 where
  pub step : Step h h'
  pub kept : (a i : ℕ) → (flag_at h' a i).marked ≡ (flag_at h a i).marked
  pub sound :
      (a k : ℕ) → is_reachable h' a k ≡ true → (is_reachable h a k ≡ true) ⊎ IsRoot h words a k
  pub fresh :
      (a k : ℕ) → is_reachable h' a k ≡ true → is_marked h a k ≡ true → is_reachable h a k ≡ true
  pub cover : All (λ x. covered h' (h.memory x) ≡ true) words

mark_root-Step : (x : ℕ) (h : Heap) → Step h (mark_root x h)
unfolding mark_root
mark_root-Step x h = mark-Step (h.memory x) h

pub memory_at : {h h' : Heap} (x : ℕ) → Frame h h' → h'.memory x ≡ h.memory x
memory_at x f = ap (λ (m : ℕ → ℕ). m x) f.memory

IsRoot-after :
    (x : ℕ) (xs : List ℕ) {h h' : Heap} (a k : ℕ)
    → Frame h h'
    → IsRoot h' xs a k
    → IsRoot h (x ∷ xs) a k
IsRoot-after x xs {h} {h'} a k f (y, m, p, r) = (
  y,
  Memᴰ.tail m,
  sym (ap (λ q. points_at h' q a k) (memory_at y f) ∙ points_at-Frame (h.memory y) a k f) ∙ p,
  sym (is_registered-Frame a k f) ∙ r,
)

mark_root-kept :
    (x : ℕ) (h : Heap) (a i : ℕ) → (flag_at (mark_root x h) a i).marked ≡ (flag_at h a i).marked
unfolding mark_root
mark_root-kept x h a i = (flag_at-mark (h.memory x) h a i).0

mark_root_sound :
    (x : ℕ) (xs : List ℕ) (h : Heap) (a k : ℕ)
    → is_reachable (mark_root x h) a k ≡ true
    → (is_reachable h a k ≡ true) ⊎ IsRoot h (x ∷ xs) a k
unfolding mark_root
mark_root_sound x xs h a k r = elim (Bool-cases (is_reachable h a k)) [
  | inl old ↦ inl old
  | inr new ↦ inr (
    x,
    Memᴰ.head refl,
    ground (arith, is_reachable-mark (h.memory x) h a k),
    ground (arith, is_reachable-mark (h.memory x) h a k),
  )
]

mark_root-fresh :
    (x : ℕ) (h : Heap) (a k : ℕ)
    → is_reachable (mark_root x h) a k ≡ true
    → is_marked h a k ≡ true
    → is_reachable h a k ≡ true
unfolding mark_root
mark_root-fresh x h a k r m = ground (arith, is_reachable-mark (h.memory x) h a k)

mark_root_covers : (x : ℕ) (h : Heap) → covered (mark_root x h) (h.memory x) ≡ true
unfolding mark_root
mark_root_covers x h = mark_covers (h.memory x) h

pub for_each-Rooted : (words : List ℕ) (h : Heap) → Rooted words h (for_each mark_root words h)
unfolding for_each
for_each-Rooted [] h = record {
  step = Step-refl h;
  kept = λ a i. refl;
  sound = λ a k r. inl r;
  fresh = λ a k r m. r;
  cover = tt;
}
for_each-Rooted (x ∷ xs) h =
    let first = mark_root-Step x h in
    let rest = for_each-Rooted xs (mark_root x h) in
    record {
      step = Step-trans first rest.step;
      kept = λ a i. rest.kept a i ∙ mark_root-kept x h a i;
      sound = λ a k r. elim (rest.sound a k r) [
        | inl r' ↦ mark_root_sound x xs h a k r'
        | inr root ↦ inr (IsRoot-after x xs a k first.frame root)
      ];
      fresh = λ a k r m.
          mark_root-fresh x h a k
            (rest.fresh a k r (ap (λ w. testbit w (k % 64)) (mark_root-kept x h a (k / 64)) ∙ m)) m;
      cover = (
        covered-Step (h.memory x) rest.step (mark_root_covers x h),
        All-map
            (λ y c.
              subst (λ q. covered (for_each mark_root xs (mark_root x h)) q ≡ true)
                (memory_at y first.frame) c)
            xs rest.cover,
      );
    }
