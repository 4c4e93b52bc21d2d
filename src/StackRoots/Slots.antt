-- ===== src/StackRoots/Slots.antt =====
-- sgcl/priv/stack_roots_allocator.h: roots at different places of a stack have different words.
use sgcl.Base.{
  ℕ, ◌+◌, ◌*◌, ◌/◌, ◌%◌, ◌^◌, ◌≤◌, ◌<◌, ◌≡◌, ◌≢◌, ◌⊎◌, ◌↔◌, inl, inr, sym, ap, ◌∙◌, arith, ◌==◌,
  Bool-cases, ==→eq, ◌&&◌, if◌then◌else◌,
}
use sgcl.Types.{word_size, page_size, max_stack_size}
use sgcl.StackRoots.{Stack, page_index, alloc}

-- Two pages that share no byte.
abbrev pub Apart : ℕ → ℕ → Type 0
Apart a b = (a + page_size ≤ b) ⊎ (b + page_size ≤ a)

-- The pages that were made lie in the address space and apart.
pub record IsStack (s : Stack) : Type 0 where
  pub bound : (i : ℕ) → s.pages i + page_size ≤ 2 ^ 64
  pub apart : (i j : ℕ) → i ≢ j → s.pages i ≢ 0 → s.pages j ≢ 0 → Apart (s.pages i) (s.pages j)

-- What `new` may return.
pub record IsFresh (a : ℕ) (s : Stack) : Type 0 where
  pub not_null : a ≢ 0
  pub bound : a + page_size ≤ 2 ^ 64
  pub apart : (i : ℕ) → s.pages i ≢ 0 → Apart a (s.pages i)

-- The page of a place after `alloc`.
made :
    (fresh p : ℕ) (s : Stack) (j : ℕ)
    → (alloc fresh p s).1.pages j
      ≡ (if (s.pages (page_index p) == 0) && (page_index p == j) then fresh else s.pages j)
unfolding alloc
made fresh p s j = ground arith

-- `alloc` keeps the pages apart, whether it makes one or not.
pub alloc-IsStack :
    (fresh p : ℕ) (s : Stack) → IsFresh fresh s → IsStack s → IsStack (alloc fresh p s).1
alloc-IsStack fresh p s f v = record {
  bound = λ j. ground (arith, made fresh p s j, f.bound, v.bound j);
  apart = λ i j ne ni nj.
      ground
        (arith, made fresh p s i, made fresh p s j, f.apart i, f.apart j, v.apart i j, ne, ni, nj);
}

-- The word of a root.
slot-alloc :
    (fresh p : ℕ) (s : Stack)
    → IsFresh fresh s
    → IsStack s
    → ((alloc fresh p s).0
        ≡ (alloc fresh p s).1.pages (page_index p) + p % page_size / word_size * word_size)
      × ((alloc fresh p s).1.pages (page_index p) ≢ 0)
unfolding alloc
slot-alloc fresh p s f v =
    (ground (arith, f.bound, v.bound (page_index p)), λ e. ground (arith, f.not_null))

-- Aligned places that are less than a stack apart are the same if they have the same page and offset.
same_place :
    (p q : ℕ)
    → p % word_size ≡ 0
    → q % word_size ≡ 0
    → p < q + max_stack_size
    → q < p + max_stack_size
    → page_index p ≡ page_index q
    → p % page_size / word_size ≡ q % page_size / word_size
    → p ≡ q
same_place p q ap aq l r i o = omega arith

-- A second call keeps the page of the first one.
kept : (fresh q : ℕ) (s : Stack) (j : ℕ) → s.pages j ≢ 0 → (alloc fresh q s).1.pages j ≡ s.pages j
kept fresh q s j n = ground (arith, made fresh q s j)

-- Two roots, whose places are whole words less than a stack apart, get the same word exactly if they
-- are at the same place, where each page that `new` returns is in the address space and apart from
-- the thread's others.
pub alloc_distinct :
    (fresh fresh' p q : ℕ) (s : Stack)
    → IsStack s
    → IsFresh fresh s
    → IsFresh fresh' (alloc fresh p s).1
    → p % word_size ≡ 0
    → q % word_size ≡ 0
    → p < q + max_stack_size
    → q < p + max_stack_size
    → ((alloc fresh p s).0 ≡ (alloc fresh' q (alloc fresh p s).1).0) ↔ (p ≡ q)
alloc_distinct fresh fresh' p q s v f f' wp wq l r = (there, back)
  where
    s1 : Stack
    s1 = (alloc fresh p s).1

    s2 : Stack
    s2 = (alloc fresh' q s1).1

    v1 : IsStack s1
    v1 = alloc-IsStack fresh p s f v

    v2 : IsStack s2
    v2 = alloc-IsStack fresh' q s1 f' v1

    -- Both words, by the pages at the end.
    first : (alloc fresh p s).0 ≡ s2.pages (page_index p) + p % page_size / word_size * word_size
    first =
        (slot-alloc fresh p s f v).0
        ∙ ap (λ n. n + p % page_size / word_size * word_size)
            (sym (kept fresh' q s1 (page_index p) (slot-alloc fresh p s f v).1))

    second : (alloc fresh' q s1).0 ≡ s2.pages (page_index q) + q % page_size / word_size * word_size
    second = (slot-alloc fresh' q s1 f' v1).0

    used : s2.pages (page_index p) ≢ 0
    used e =
        (slot-alloc fresh p s f v).1
          (sym (kept fresh' q s1 (page_index p) (slot-alloc fresh p s f v).1) ∙ e)

    clash :
        Apart (s2.pages (page_index p)) (s2.pages (page_index q))
        → s2.pages (page_index p) + p % page_size / word_size * word_size
          ≡ s2.pages (page_index q) + q % page_size / word_size * word_size
        → p ≡ q
    clash (inl h) c = omega arith
    clash (inr h) c = omega arith

    there : (alloc fresh p s).0 ≡ (alloc fresh' q s1).0 → p ≡ q
    there e = elim (Bool-cases (page_index p == page_index q)) [
      | inl t ↦
          same_place p q wp wq l r (==→eq _ _ t)
            (omega (arith, first, second, e, ap s2.pages (==→eq _ _ t)))
      | inr n ↦
          clash
            (v2.apart (page_index p) (page_index q) (λ d. ground arith) used
              (slot-alloc fresh' q s1 f' v1).1)
            (omega (arith, first, second, e))
    ]

    back : p ≡ q → (alloc fresh p s).0 ≡ (alloc fresh' q s1).0
    back e =
        first
        ∙ ap (λ n. s2.pages (page_index n) + n % page_size / word_size * word_size) e
        ∙ sym second
