-- ===== src/SmallObjects/Empty.antt =====
-- sgcl/priv/small_object_allocator_base.h, `_remove_empty` and `_free`: which pages are given back.
use sgcl.Base.{
  ℕ, ◌+◌, ◌≤◌, ◌<◌, ◌≡◌, ◌↔◌, refl, ap, ◌∙◌, arith, true, ◌==◌, if◌then◌else◌, Bool-cases, inl, inr,
  List, [], ◌∷◌, for_range, for_range_inv, ==→eq,
}
use sgcl.Base.Lists.{occurs}
use sgcl.State
use sgcl.Page.{Page}
use sgcl.SmallObjects.{unused_count, is_empty_page, remove_empty}

-- The count after `n` objects: it is `n` exactly if all of them are unused.
record Counted (p : Page) (n count : ℕ) : Type 0 where
  bound : count ≤ n
  all : count ≡ n → (k : ℕ) → k < n → p.states k ≡ State.unused
  full : ((k : ℕ) → k < n → p.states k ≡ State.unused) → count ≡ n

Counted-step :
    (p : Page) (n count : ℕ)
    → Counted p n count
    → Counted p (n + 1) (if p.states n == State.unused then count + 1 else count)
Counted-step p n count c = elim (Bool-cases (p.states n == State.unused)) [
  | inl t ↦ rw t (record {
    bound = omega (arith, c.bound);
    all = λ e k lt. elim (Bool-cases (k == n)) [
      | inl q ↦ ap p.states (==→eq _ _ q) ∙ ==→eq _ _ t
      | inr q ↦ c.all (omega arith) k (ground arith)
    ];
    full = λ f. omega (arith, c.full (λ k lt. f k (omega arith)));
  })
  | inr t ↦ rw t (record {
    bound = omega (arith, c.bound);
    all = λ e. absurd (omega (arith, c.bound));
    full = λ f. absurd (ground (arith, f n (omega arith)));
  })
]

-- `_remove_empty` counts a page as empty exactly if each of its objects is unused.
pub is_empty_page_lem :
    (p : Page)
    → (is_empty_page p ≡ true) ↔ ((k : ℕ) → k < p.metadata.object_count → p.states k ≡ State.unused)
unfolding is_empty_page unused_count
is_empty_page_lem p = (λ e. c.all (==→eq _ _ e), λ f. ground (arith, c.full f))
  where
    c : Counted p p.metadata.object_count (
        for_range p.metadata.object_count 0
          (λ i count. if p.states i == State.unused then count + 1 else count)
          0)
    c =
        for_range_inv (Counted p) _ p.metadata.object_count 0 p.metadata.object_count 0
          (omega arith) (λ i count lo hi h. Counted-step p i count h)
          (record { bound = omega arith; all = λ e k lt. absurd (omega arith); full = λ f. refl })

-- The pages that are not empty.
pub used_pages : (ℕ → Page) → List ℕ → List ℕ
used_pages page [] = []
used_pages page (a ∷ pages) =
    if is_empty_page (page a) then used_pages page pages else a ∷ used_pages page pages

-- `_remove_empty` keeps the pages that are not empty, in order, and moves the others.
pub remove_empty_lem :
    (page : ℕ → Page) (pages empty_pages : List ℕ) (x : ℕ)
    → ((remove_empty page pages empty_pages).0 ≡ used_pages page pages)
      × (occurs x (remove_empty page pages empty_pages).1
          ≡ (if is_empty_page (page x) then occurs x pages else 0) + occurs x empty_pages)
unfolding remove_empty used_pages occurs
remove_empty_lem page [] empty_pages x = (refl, ground arith)
remove_empty_lem page (a ∷ pages) empty_pages x = elim (Bool-cases (is_empty_page (page a))) [
  | inl t ↦
      rw (t, remove_empty)
        (
          (remove_empty_lem page pages (a ∷ empty_pages) x).0,
          ground (
            arith,
            (remove_empty_lem page pages (a ∷ empty_pages) x).1,
            λ (e : a ≡ x). ap (λ b. is_empty_page (page b)) e,
          ),
        )
  | inr f ↦
      rw (f, remove_empty)
        (
          ap (λ xs. a ∷ xs) (remove_empty_lem page pages empty_pages x).0,
          ground (
            arith,
            (remove_empty_lem page pages empty_pages x).1,
            λ (e : a ≡ x). ap (λ b. is_empty_page (page b)) e,
          ),
        )
]
