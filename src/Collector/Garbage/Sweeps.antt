-- ===== src/Collector/Garbage/Sweeps.antt =====
-- sgcl/priv/collector.h, `_remove_garbage`: exactly the objects that are registered and not marked are
-- removed.
use Prim.Native.Nat.{bit_and}
use mathlib.Core.List.{Memᴰ}
use mathlib.Core.List.Memᴰ
use sgcl.Base.{
  ℕ, ◌+◌, ◌*◌, ◌/◌, ◌%◌, ◌^◌, ◌≤◌, ◌<◌, ◌≡◌, refl, sym, ap, ◌∙◌, arith, Bool, true, false, not,
  ◌==◌, ◌||◌, ◌&&◌, ltb, if◌then◌else◌, Bool-cases, inl, inr, List, [], ◌∷◌, for_each,
}
use sgcl.Base.Bits.{testbit, has, has-pow, complement, testbit-bit_and, testbit-zero}
use sgcl.State
use sgcl.Page.{Flags, flags_count}
use sgcl.Heap.{Heap, page_at, flag_at}
use sgcl.Collector.Bits.{is_registered, is_marked, testbit-drop, flag_at-put_flag}
use sgcl.Collector.Groups.{for_groups_inv}
use sgcl.Collector.Mark.{update_childs}
use sgcl.Collector.Garbage.{
  Sweep, release, unmarked_word, unregister, sweep_groups, sweep_page, remove_garbage,
}
use sgcl.Collector.Garbage.Effect.{garbage, release-states, release-flags, release-metadata}

-- The page `a` of `h` after its groups below `i` and the first `j` bits of group `i` were swept.
record Swept (a : ℕ) (h : Heap) (i j : ℕ) (s : Sweep) : Type 0 where
  states :
      (b k : ℕ)
      → (page_at s.heap b).states k ≡ (
          if (a == b) && ltb k (i * 64 + j) && garbage h a k
          then State.unused
          else (page_at h b).states k)
  registered :
      (b k : ℕ)
      → is_registered s.heap b k ≡ (
          if (a == b) && ltb k (i * 64)
          then is_registered h b k && is_marked h b k
          else is_registered h b k)
  marked : (b g : ℕ) → (flag_at s.heap b g).marked ≡ (flag_at h b g).marked
  metadata : (b : ℕ) → (page_at s.heap b).metadata ≡ (page_at h b).metadata
  rest : (g : ℕ) → i ≤ g → (flag_at s.heap a g).registered ≡ (flag_at h a g).registered

-- The word of a group, as it is before the page is swept.
unfoldable pub word_at : ℕ → Heap → ℕ → ℕ
word_at a h i = bit_and (flag_at h a i).registered (complement 64 (flag_at h a i).marked)

pub testbit-word_at :
    (a : ℕ) (h : Heap) (i j : ℕ) → j < 64 → has (word_at a h i) (2 ^ j) ≡ garbage h a (i * 64 + j)
unfolding word_at
testbit-word_at a h i j lt =
    has-pow _ j ∙ testbit-drop (flag_at h a i).registered (flag_at h a i).marked j lt ∙ here
  where
    here :
        (testbit (flag_at h a i).registered j && not (testbit (flag_at h a i).marked j))
        ≡ garbage h a (i * 64 + j)
    here = λ t.
        let e1 : i ≡ (i * 64 + j) / 64 = omega arith in
        let e2 : j ≡ (i * 64 + j) % 64 = omega arith in
        testbit (flag_at h a (e1 t)).registered (e2 t)
        && not (testbit (flag_at h a (e1 t)).marked (e2 t))

module _ (a : ℕ) (h : Heap) where
  start : (i : ℕ) (s : Sweep) → Swept a h i 0 s → unmarked_word a i s ≡ word_at a h i
  unfolding unmarked_word word_at
  start i s v = rw (v.rest i (omega arith), v.marked a i) refl

  bit_clear :
      (i j : ℕ) (s : Sweep)
      → garbage h a (i * 64 + j) ≡ false
      → Swept a h i j s
      → Swept a h i (j + 1) s
  bit_clear i j s n v = record {
    states = λ b k. ground (arith, v.states b k, λ (e : k ≡ i * 64 + j). ap (garbage h a) e ∙ n);
    registered = v.registered;
    marked = v.marked;
    metadata = v.metadata;
    rest = v.rest;
  }

  bit_set :
      (i j : ℕ) (s : Sweep)
      → garbage h a (i * 64 + j) ≡ true
      → Swept a h i j s
      → Swept a h i (j + 1) (release a i j s)
  bit_set i j s n v = record {
    states = λ b k. ground (
      arith,
      v.states b k,
      release-states a i j s b k,
      λ (e : k ≡ i * 64 + j). ap (garbage h a) e ∙ n,
    );
    registered = λ b k.
        ap (λ (f : Flags). testbit f.registered (k % 64)) (release-flags a i j s b (k / 64))
        ∙ v.registered b k;
    marked = λ b g. ap (λ (f : Flags). f.marked) (release-flags a i j s b g) ∙ v.marked b g;
    metadata = λ b. release-metadata a i j s b ∙ v.metadata b;
    rest = λ g lo. ap (λ (f : Flags). f.registered) (release-flags a i j s a g) ∙ v.rest g lo;
  }

  finish : (i : ℕ) (s : Sweep) → Swept a h i 64 s → Swept a h (i + 1) 0 (unregister a i s)
  unfolding unregister
  finish i s v = record {
    states = λ b k. ground (arith, v.states b k);
    registered = λ b k. registered_after b k;
    marked = λ b g. ground (arith, v.marked b g);
    metadata = λ b. ground (arith, v.metadata b);
    rest = λ g lo. ground (arith, v.rest g);
  }
    where
      registered_after :
          (b k : ℕ)
          → is_registered (unregister a i s).heap b k ≡ (
              if (a == b) && ltb k ((i + 1) * 64)
              then is_registered h b k && is_marked h b k
              else is_registered h b k)
      registered_after b k =
          rw
            (flag_at-put_flag a i
              (record (flag_at s.heap a i) {
                registered = bit_and (flag_at s.heap a i).registered (flag_at s.heap a i).marked;
              })
              s.heap b (k / 64))
            (ground (
              arith,
              testbit-bit_and (flag_at s.heap a i).registered (flag_at s.heap a i).marked (k % 64),
              v.registered b k,
              ap (λ m. testbit m (k % 64)) (v.marked b (k / 64)),
            ))

  skip : (i : ℕ) (s : Sweep) → word_at a h i ≡ 0 → Swept a h i 0 s → Swept a h (i + 1) 0 s
  skip i s z v = record {
    states = λ b k. ground (arith, v.states b k, clear k);
    registered = λ b k. ground (arith, v.registered b k, clear k);
    marked = v.marked;
    metadata = v.metadata;
    rest = λ g lo. v.rest g (omega arith);
  }
    where
      clear : (k : ℕ) → i ≡ k / 64 → garbage h a k ≡ false
      clear k e =
          ap (garbage h a) (let d : k ≡ i * 64 + k % 64 = omega arith in d)
          ∙ sym (testbit-word_at a h i (k % 64) (omega arith))
          ∙ ap (λ w. has w (2 ^ (k % 64))) z
          ∙ has-pow 0 (k % 64)
          ∙ testbit-zero (k % 64)

sweep_groups-Swept : (a count : ℕ) (s : Sweep) → Swept a s.heap count 0 (sweep_groups count a s)
unfolding sweep_groups
sweep_groups-Swept a count s =
    for_groups_inv (unmarked_word a) (release a) (unregister a) (λ i t. Swept a s.heap i 0 t)
      (λ i j t. Swept a s.heap i j t) (word_at a s.heap) count s
      (λ i t lo v. (start a s.heap i t v, v))
      (λ i j t lo hi v. elim (Bool-cases (has (word_at a s.heap i) (2 ^ j))) [
        | inl b ↦ rw b (bit_set a s.heap i j t (sym (testbit-word_at a s.heap i j hi) ∙ b) v)
        | inr b ↦ rw b (bit_clear a s.heap i j t (sym (testbit-word_at a s.heap i j hi) ∙ b) v)
      ])
      (λ i t nz v. finish a s.heap i t v) (λ i t z v. skip a s.heap i t z v)
      (record {
        states = λ b k. ground arith;
        registered = λ b k. ground arith;
        marked = λ b g. refl;
        metadata = λ b. refl;
        rest = λ g lo. refl;
      })

-- Object `k` of page `a` lies in one of the page's groups.
abbrev pub in_groups : Heap → ℕ → ℕ → Bool
in_groups h a k = ltb k (flags_count (page_at h a) * 64)

abbrev pub elem : ℕ → List ℕ → Bool
elem a [] = false
elem a (x ∷ xs) = x == a || elem a xs

pub Memᴰ-elem : (a : ℕ) (list : List ℕ) → Memᴰ a list → elem a list ≡ true
Memᴰ-elem a [] m = absurd (Memᴰ.not-nil m)
Memᴰ-elem a (x ∷ xs) (Memᴰ.head e) = ground (arith, e)
Memᴰ-elem a (x ∷ xs) (Memᴰ.tail m) = ground (arith, Memᴰ-elem a xs m)

-- The pages of `list` were swept.
record Removed (list : List ℕ) (h h' : Heap) : Type 0 where
  states :
      (b k : ℕ)
      → (page_at h' b).states k ≡ (
          if elem b list && in_groups h b k && garbage h b k
          then State.unused
          else (page_at h b).states k)
  registered :
      (b k : ℕ)
      → is_registered h' b k ≡ (
          if elem b list && in_groups h b k
          then is_registered h b k && is_marked h b k
          else is_registered h b k)
  marked : (b g : ℕ) → (flag_at h' b g).marked ≡ (flag_at h b g).marked
  metadata : (b : ℕ) → (page_at h' b).metadata ≡ (page_at h b).metadata

sweep_page-Removed : (a : ℕ) (s : Sweep) → Removed (a ∷ []) s.heap (sweep_page a s).heap
unfolding sweep_page update_childs
sweep_page-Removed a s = record {
  states = λ b k. ground (arith, v.states b k);
  registered = λ b k. ground (arith, v.registered b k);
  marked = λ b g. ground (arith, v.marked b g);
  metadata = λ b. ground (arith, v.metadata b);
}
  where
    filled : Sweep
    filled = record s { heap = update_childs (page_at s.heap a).metadata.child_pointers s.heap }

    v :
        Swept a filled.heap
          (flags_count (page_at s.heap a))
          0
          (sweep_groups (flags_count (page_at s.heap a)) a filled)
    v = sweep_groups-Swept a (flags_count (page_at s.heap a)) filled

Removed-cons :
    (a : ℕ) (list : List ℕ) (h h1 h2 : Heap)
    → Removed (a ∷ []) h h1
    → Removed list h1 h2
    → Removed (a ∷ list) h h2
unfolding flags_count
Removed-cons a list h h1 h2 v w = record {
  states =
      λ b k. ground (arith, v.states b k, w.states b k, v.registered b k, mark b k, v.metadata b);
  registered = λ b k. ground (arith, v.registered b k, w.registered b k, mark b k, v.metadata b);
  marked = λ b g. w.marked b g ∙ v.marked b g;
  metadata = λ b. w.metadata b ∙ v.metadata b;
}
  where
    mark : (b k : ℕ) → is_marked h1 b k ≡ is_marked h b k
    mark b k = ap (λ m. testbit m (k % 64)) (v.marked b (k / 64))

for_each-Removed :
    (list : List ℕ) (s : Sweep) → Removed list s.heap (for_each sweep_page list s).heap
unfolding for_each
for_each-Removed [] s = record {
  states = λ b k. refl;
  registered = λ b k. refl;
  marked = λ b g. refl;
  metadata = λ b. refl;
}
for_each-Removed (a ∷ list) s =
    Removed-cons a list s.heap (sweep_page a s).heap _ (sweep_page-Removed a s)
      (for_each-Removed list (sweep_page a s))

-- `_remove_garbage` makes unused exactly the objects of the unreachable pages that are registered and
-- not marked, and takes away their registered bits: it keeps the state and the registered bit of every
-- other object, and every marked bit.
pub remove_garbage_lem :
    (h : Heap) (a k : ℕ)
    → let h' = (remove_garbage h).heap in
      ((page_at h' a).states k ≡ (
        if elem a h.unreachable_pages && in_groups h a k && garbage h a k
        then State.unused
        else (page_at h a).states k))
      × (is_registered h' a k ≡ (
          if elem a h.unreachable_pages && in_groups h a k
          then is_registered h a k && is_marked h a k
          else is_registered h a k))
      × (is_marked h' a k ≡ is_marked h a k)
unfolding remove_garbage
remove_garbage_lem h a k =
    let v = for_each-Removed h.unreachable_pages (record {
      heap = record h { unreachable_pages = [] };
      released = record { count = 0; size = 0 };
    }) in
    (v.states a k, v.registered a k, ap (λ m. testbit m (k % 64)) (v.marked a (k / 64)))
