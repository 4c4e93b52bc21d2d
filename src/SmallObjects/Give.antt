-- ===== src/SmallObjects/Give.antt =====
-- sgcl/priv/small_object_allocator_base.h, `_free`: the buffer and the pages that are given back.
use sgcl.Base.{
  ℕ, ◌+◌, ◌≡◌, refl, ap₂, ◌∙◌, arith, false, not, ◌==◌, ◌&&◌, if◌then◌else◌, List, [], ◌∷◌, ◌++◌,
  for_each,
}
use sgcl.Base.Lists.{occurs}
use sgcl.SmallObjects.{
  Small, is_empty_page, remove_empty, free_round, free_data_page, free_data_pages, free,
}
use sgcl.SmallObjects.Empty.{used_pages, remove_empty_lem}

-- What giving back the pages of `xs` does.
record Given (xs : List ℕ) (s t : Small) : Type 0 where
  is_used : (x : ℕ) → (t.page x).is_used ≡ (if occurs x xs == 0 then (s.page x).is_used else false)
  states : (x : ℕ) → (t.page x).states ≡ (s.page x).states
  buffer : t.pages_buffer ≡ s.pages_buffer
  pool : t.pool ≡ s.pool

given : (xs empty : List ℕ) (s : Small) → Given xs s (for_each free_data_page xs (empty, s)).1
unfolding for_each free_data_page occurs
given [] empty s = record {
  is_used = λ x. ground arith;
  states = λ x. refl;
  buffer = refl;
  pool = refl;
}
given (a ∷ xs) empty s =
    let g = given xs _ (free_data_page a (empty, s)).1 in
    record {
      is_used = λ x. ground (arith, g.is_used x);
      states = λ x. g.states x ∙ ground arith;
      buffer = g.buffer;
      pool = g.pool;
    }

Given-free_data_pages : (xs : List ℕ) (s : Small) → Given xs s (free_data_pages xs s)
unfolding free_data_pages occurs
Given-free_data_pages [] s = record {
  is_used = λ x. ground arith;
  states = λ x. refl;
  buffer = refl;
  pool = refl;
}
Given-free_data_pages (a ∷ xs) s =
    let g = given (a ∷ xs) [] s in
    record { is_used = g.is_used; states = g.states; buffer = g.buffer; pool = g.pool }

-- `_free` leaves in the buffer the pages of the list and of the buffer that have an object in use, in
-- this order; a page of either whose objects are all unused is not in use afterwards, and no other
-- page's mark of use changes, nor any state.
pub pages_buffer-free :
    (pages : List ℕ) (s : Small) (x : ℕ)
    → ((free pages s).pages_buffer ≡ used_pages s.page pages ++ used_pages s.page s.pages_buffer)
      × (((free pages s).page x).is_used ≡ (
          if is_empty_page (s.page x) && not (occurs x pages + occurs x s.pages_buffer == 0)
          then false
          else (s.page x).is_used))
      × (((free pages s).page x).states ≡ (s.page x).states)
unfolding free free_round occurs
pages_buffer-free pages s x = (
  g.buffer ∙ ap₂ (λ xs ys. xs ++ ys) first.0 second.0,
  g.is_used x ∙ ground (arith, first.1, second.1),
  g.states x,
)
  where
    e1 : List ℕ
    e1 = (remove_empty s.page pages []).1

    first :
        ((remove_empty s.page pages []).0 ≡ used_pages s.page pages)
        × (occurs x e1 ≡ (if is_empty_page (s.page x) then occurs x pages else 0) + 0)
    first = remove_empty_lem s.page pages [] x

    second :
        ((remove_empty s.page s.pages_buffer e1).0 ≡ used_pages s.page s.pages_buffer)
        × (occurs x (remove_empty s.page s.pages_buffer e1).1
            ≡ (if is_empty_page (s.page x) then occurs x s.pages_buffer else 0) + occurs x e1)
    second = remove_empty_lem s.page s.pages_buffer e1 x

    left : Small
    left = record s {
      pages_buffer = (remove_empty s.page pages []).0 ++ (remove_empty s.page s.pages_buffer e1).0;
    }

    g :
        Given
          (remove_empty s.page s.pages_buffer e1).1
          left
          (free_data_pages (remove_empty s.page s.pages_buffer e1).1 left)
    g = Given-free_data_pages (remove_empty s.page s.pages_buffer e1).1 left
