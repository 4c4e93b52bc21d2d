-- ===== src/Collector/Roots/Marks.antt =====
-- sgcl/priv/collector.h, `_mark_stack_roots` and `_mark_heap_roots`: which objects are marked as reachable.
use mathlib.Core.List.{Memᴰ}
use mathlib.Core.List.Memᴰ
use sgcl.Base.{
  ℕ, zero, suc, ◌+◌, ◌*◌, ◌/◌, ◌%◌, ◌^◌, ◌≤◌, ◌<◌, ◌≡◌, ◌≢◌, ◌⊎◌, ◌↔◌, ◌∙◌, refl, sym, ap, subst,
  arith, Bool, true, false, ◌==◌, Bool-cases, ==→eq, inl, inr, if◌then◌else◌, List, [], ◌∷◌,
  for_each,
}
use sgcl.Base.Bits.{testbit}
use sgcl.Base.Lists.{All-member}
use sgcl.Heap.{Heap}
use sgcl.StackRoots.{Stack, page_count}
use sgcl.Threads.{Data}
use sgcl.Collector.Bits.{is_registered, is_reachable, is_marked}
use sgcl.Collector.Measure.{is_registered-Frame}
use sgcl.Collector.Mark.Effect.{points_at, covered, is_reachable-mark}
use sgcl.Collector.Mark.Cover.{covered-reached, points_at-Frame}
use sgcl.Collector.Roots.{
  page_pointers, root_at, mark_root, mark_roots, page_roots, stack_roots, threads_roots, heap_roots,
  root_words,
}
use sgcl.Collector.Roots.Effect.{Rooted, mark_roots_words, for_each-Rooted}

-- A word of a page that was made for a thread's stack, and a word of a page of heap roots.
abbrev pub IsStackRoot : List Data → ℕ → Type 0
IsStackRoot threads x =
    (d : Data) × (i : ℕ) × (j : ℕ) × Memᴰ d threads
    × (i < 256)
    × (j < 512)
    × (d.stack_roots.pages i ≢ 0)
    × (x ≡ (d.stack_roots.pages i + j * 8) % 2 ^ 64)

abbrev pub IsHeapRoot : List ℕ → ℕ → Type 0
IsHeapRoot nodes x =
    (node : ℕ) × (j : ℕ) × Memᴰ node nodes × (j < 512) × (x ≡ (node + j * 8) % 2 ^ 64)

page_roots_to :
    (page n i x : ℕ)
    → Memᴰ x (page_roots page n i)
    → (j : ℕ) × (i ≤ j) × (j < i + n) × (x ≡ root_at page j)
unfolding page_roots
page_roots_to page zero i x m = absurd (Memᴰ.not-nil m)
page_roots_to page (suc n) i x (Memᴰ.head e) = (i, omega arith, omega arith, e)
page_roots_to page (suc n) i x (Memᴰ.tail m) =
    let r = page_roots_to page n (i + 1) x m in (r.0, omega (arith, r.1), omega (arith, r.2), r.3)

page_roots_from : (page n i j : ℕ) → i ≤ j → j < i + n → Memᴰ (root_at page j) (page_roots page n i)
unfolding page_roots
page_roots_from page zero i j lo hi = absurd (omega arith)
page_roots_from page (suc n) i j lo hi = elim (Bool-cases (i == j)) [
  | inl e ↦ Memᴰ.head (ap (root_at page) (sym (==→eq i j e)))
  | inr e ↦ Memᴰ.tail (page_roots_from page n (i + 1) j (ground arith) (omega arith))
]

unless_to : (b : Bool) (x : ℕ) (l : List ℕ) → Memᴰ x (if b then [] else l) → (b ≡ false) × Memᴰ x l
unless_to true x l m = absurd (Memᴰ.not-nil m)
unless_to false x l m = (refl, m)

unless_from : (b : Bool) (x : ℕ) (l : List ℕ) → b ≡ false → Memᴰ x l → Memᴰ x (if b then [] else l)
unless_from b x l e m = rw e m

stack_roots_to :
    (s : Stack) (n i x : ℕ)
    → Memᴰ x (stack_roots s n i)
    → (k : ℕ) × (j : ℕ) × (k < i + n) × (j < 512) × (s.pages k ≢ 0) × (x ≡ root_at (s.pages k) j)
unfolding stack_roots
stack_roots_to s zero i x m = absurd (Memᴰ.not-nil m)
stack_roots_to s (suc n) i x m =
    elim (Memᴰ.append_cases (if s.pages i == 0 then [] else page_roots (s.pages i) page_pointers 0)
      m) [
        | inl here ↦
            let u = unless_to (s.pages i == 0) x _ here in
            let r = page_roots_to (s.pages i) 512 0 x u.1 in
            (i, r.0, omega arith, omega (arith, r.2), λ e. ground (arith, u.0), r.3)
        | inr later ↦
            let r = stack_roots_to s n (i + 1) x later in
            (r.0, r.1, omega (arith, r.2), r.3, r.4, r.5)
      ]

stack_roots_from :
    (s : Stack) (n i k j : ℕ)
    → i ≤ k
    → k < i + n
    → j < 512
    → s.pages k ≢ 0
    → Memᴰ (root_at (s.pages k) j) (stack_roots s n i)
unfolding stack_roots
stack_roots_from s zero i k j lo hi lt ne = absurd (omega arith)
stack_roots_from s (suc n) i k j lo hi lt ne = elim (Bool-cases (i == k)) [
  | inl e ↦
      let q : k ≡ i = sym (==→eq i k e) in
      Memᴰ.append_left _ (
        subst
          (λ (p : ℕ).
            Memᴰ (root_at (s.pages p) j)
              (if s.pages i == 0 then [] else page_roots (s.pages i) page_pointers 0))
          (sym q)
          (unless_from (s.pages i == 0) _ _ (ground (arith, ap s.pages q))
            (page_roots_from (s.pages i) 512 0 j (omega arith) (omega arith))))
  | inr e ↦
      Memᴰ.append_right _ (stack_roots_from s n (i + 1) k j (ground arith) (omega arith) lt ne)
]

threads_roots_to :
    (threads : List Data) (x : ℕ) → Memᴰ x (threads_roots threads) → IsStackRoot threads x
unfolding threads_roots
threads_roots_to [] x m = absurd (Memᴰ.not-nil m)
threads_roots_to (d ∷ threads) x m =
    elim (Memᴰ.append_cases (stack_roots d.stack_roots page_count 0) m) [
      | inl here ↦
          let r = stack_roots_to d.stack_roots 256 0 x here in
          (d, r.0, r.1, Memᴰ.head refl, omega (arith, r.2), r.3, r.4, r.5)
      | inr later ↦
          let r = threads_roots_to threads x later in
          (r.0, r.1, r.2, Memᴰ.tail r.3, r.4, r.5, r.6, r.7)
    ]

threads_roots_from :
    (threads : List Data) (d : Data) (i j : ℕ)
    → Memᴰ d threads
    → i < 256
    → j < 512
    → d.stack_roots.pages i ≢ 0
    → Memᴰ (root_at (d.stack_roots.pages i) j) (threads_roots threads)
unfolding threads_roots
threads_roots_from [] d i j m li lj ne = absurd (Memᴰ.not-nil m)
threads_roots_from (e ∷ threads) d i j (Memᴰ.head q) li lj ne = Memᴰ.append_left _ (
    subst (λ (f : Data). Memᴰ (root_at (d.stack_roots.pages i) j) (stack_roots f.stack_roots 256 0))
      q (stack_roots_from d.stack_roots 256 0 i j (omega arith) (omega (arith, li)) lj ne))
threads_roots_from (e ∷ threads) d i j (Memᴰ.tail m) li lj ne =
    Memᴰ.append_right _ (threads_roots_from threads d i j m li lj ne)

heap_roots_to : (nodes : List ℕ) (x : ℕ) → Memᴰ x (heap_roots nodes) → IsHeapRoot nodes x
unfolding heap_roots
heap_roots_to [] x m = absurd (Memᴰ.not-nil m)
heap_roots_to (node ∷ nodes) x m = elim (Memᴰ.append_cases (page_roots node page_pointers 0) m) [
  | inl here ↦
      let r = page_roots_to node 512 0 x here in
      (node, r.0, Memᴰ.head refl, omega (arith, r.2), r.3)
  | inr later ↦ let r = heap_roots_to nodes x later in (r.0, r.1, Memᴰ.tail r.2, r.3, r.4)
]

heap_roots_from :
    (nodes : List ℕ) (node j : ℕ)
    → Memᴰ node nodes
    → j < 512
    → Memᴰ (root_at node j) (heap_roots nodes)
unfolding heap_roots
heap_roots_from [] node j m lt = absurd (Memᴰ.not-nil m)
heap_roots_from (n ∷ nodes) node j (Memᴰ.head q) lt = Memᴰ.append_left _ (
    subst (λ (p : ℕ). Memᴰ (root_at node j) (page_roots p 512 0)) q
      (page_roots_from node 512 0 j (omega arith) (omega (arith, lt))))
heap_roots_from (n ∷ nodes) node j (Memᴰ.tail m) lt =
    Memᴰ.append_right _ (heap_roots_from nodes node j m lt)

-- The words that the passes mark.
root_words_to :
    (threads : List Data) (nodes : List ℕ) (x : ℕ)
    → Memᴰ x (root_words threads nodes)
    → IsStackRoot threads x ⊎ IsHeapRoot nodes x
unfolding root_words
root_words_to threads nodes x m = elim (Memᴰ.append_cases (threads_roots threads) m) [
  | inl s ↦ inl (threads_roots_to threads x s)
  | inr h ↦ inr (heap_roots_to nodes x h)
]

root_words_from :
    (threads : List Data) (nodes : List ℕ) (x : ℕ)
    → IsStackRoot threads x ⊎ IsHeapRoot nodes x
    → Memᴰ x (root_words threads nodes)
unfolding root_words
root_words_from threads nodes x (inl (d, i, j, m, li, lj, ne, e)) = Memᴰ.append_left _ (
    subst (λ (y : ℕ). Memᴰ y (threads_roots threads)) (sym e)
      (threads_roots_from threads d i j m li lj ne))
root_words_from threads nodes x (inr (node, j, m, lt, e)) =
    Memᴰ.append_right _
      (subst (λ (y : ℕ). Memᴰ y (heap_roots nodes)) (sym e) (heap_roots_from nodes node j m lt))

-- Marking roots clears no flag.
still_reachable :
    (words : List ℕ) (h : Heap) (a k : ℕ)
    → is_reachable h a k ≡ true
    → is_reachable (for_each mark_root words h) a k ≡ true
unfolding for_each mark_root
still_reachable [] h a k r = r
still_reachable (x ∷ xs) h a k r =
    still_reachable xs (mark_root x h) a k (ground (arith, is_reachable-mark (h.memory x) h a k))

-- A root points into an object that is registered and not marked.
abbrev pub IsFound : List Data → List ℕ → Heap → ℕ → ℕ → Type 0
IsFound threads nodes h a k =
    ((x : ℕ) × (IsStackRoot threads x ⊎ IsHeapRoot nodes x) × (points_at h (h.memory x) a k ≡ true))
    × (is_registered h a k ≡ true)
    × (is_marked h a k ≡ false)

found_reachable :
    (words : List ℕ) (h h' : Heap) (x a k : ℕ)
    → Rooted words h h'
    → Memᴰ x words
    → points_at h (h.memory x) a k ≡ true
    → is_registered h a k ≡ true
    → is_marked h a k ≡ false
    → is_reachable h' a k ≡ true
found_reachable words h h' x a k v m p r n =
    let f = v.step.frame in
    let c = All-member (λ y. covered h' (h.memory y) ≡ true) words m v.cover in
    let e =
      covered-reached (h.memory x) h' a k c (points_at-Frame (h.memory x) a k f ∙ p)
        (is_registered-Frame a k f ∙ r) in
    ground (arith, e, ap (λ w. testbit w (k % 64)) (v.kept a (k / 64)), n)

-- The passes over the roots mark an object as reachable exactly if it was so before, or if it is registered
-- and not marked and a word of the roots points into it: one of the 512 words of a page that was made for
-- the stack of a thread, or of a page of heap roots. They leave the marked flags.
pub mark_roots_lem :
    (threads : List Data) (nodes : List ℕ) (h : Heap) (a k : ℕ)
    → let h' = mark_roots threads nodes h in
      ((is_reachable h' a k ≡ true) ↔ ((is_reachable h a k ≡ true) ⊎ IsFound threads nodes h a k))
      × (is_marked h' a k ≡ is_marked h a k)
mark_roots_lem threads nodes h a k =
    rw (mark_roots_words threads nodes h)
      ((there, back), ap (λ w. testbit w (k % 64)) (v.kept a (k / 64)))
  where
    words : List ℕ
    words = root_words threads nodes

    v : Rooted words h (for_each mark_root words h)
    v = for_each-Rooted words h

    there :
        is_reachable (for_each mark_root words h) a k ≡ true
        → (is_reachable h a k ≡ true) ⊎ IsFound threads nodes h a k
    there r = elim (Bool-cases (is_reachable h a k)) [
      | inl old ↦ inl old
      | inr new ↦ elim (v.sound a k r) [
        | inl old ↦ inl old
        | inr (x, m, p, reg) ↦ elim (Bool-cases (is_marked h a k)) [
          | inl marked ↦ inl (v.fresh a k r marked)
          | inr n ↦ inr ((x, root_words_to threads nodes x m, p), reg, n)
        ]
      ]
    ]

    back :
        (is_reachable h a k ≡ true) ⊎ IsFound threads nodes h a k
        → is_reachable (for_each mark_root words h) a k ≡ true
    back (inl old) = still_reachable words h a k old
    back (inr ((x, w, p), reg, n)) =
        found_reachable words h _ x a k v (root_words_from threads nodes x w) p reg n
