-- ===== src/SmallObjects/Tests.antt =====
-- Page 1 has an object in use, page 2 has none.
use sgcl.Base.{ℕ, ◌+◌, ◌<◌, ◌≡◌, ◌↔◌, true, false, not, ◌==◌, ◌&&◌, if◌then◌else◌, [], ◌∷◌, ◌++◌}
use sgcl.Base.Lists.{occurs}
use sgcl.State
use sgcl.Page.{Page, no_flags}
use sgcl.SmallObjects.{Small, is_empty_page, free}
use sgcl.SmallObjects.Empty.{used_pages, is_empty_page_lem}
use sgcl.SmallObjects.Give.{pages_buffer-free}

abbrev unused_page : Page
unused_page = record {
  metadata = record {
    address = 1;
    child_pointers = 2;
    has_destroy = true;
    object_size = 2000;
    object_count = 2;
    is_array = false;
  };
  block = 0;
  data_address = 4104;
  multiplier = 2147516;
  reachable = false;
  unreachable = false;
  registered = false;
  is_used = true;
  on_empty_list = true;
  states = λ _. State.unused;
  flags = λ _. no_flags;
}

abbrev two_pages : Small
two_pages = record {
  page = λ a.
      if a == 1
      then record unused_page { states = λ i. if i == 0 then State.used else State.unused }
      else unused_page;
  pages = 1 ∷ 2 ∷ [];
  pages_buffer = 2 ∷ [];
  pool = record { indexes = λ _. 0; size = 2; offset = 2000; position = 2 };
  current_page = 1;
  blocks = record {
    block = λ _. 0;
    page_count = λ _. 0;
    empty_pages = [];
    deleted = [];
    pool = record { indexes = λ _. 0; size = 15; offset = 4096; position = 15 };
  };
}

is_empty_page_lem_example :
    (is_empty_page unused_page ≡ true) ↔ ((k : ℕ) → k < 2 → unused_page.states k ≡ State.unused)
is_empty_page_lem_example = is_empty_page_lem unused_page

pages_buffer-free_example :
    ((free (1 ∷ []) two_pages).pages_buffer
      ≡ used_pages two_pages.page (1 ∷ []) ++ used_pages two_pages.page (2 ∷ []))
    × (((free (1 ∷ []) two_pages).page 2).is_used ≡ (
        if is_empty_page (two_pages.page 2) && not (occurs 2 (1 ∷ []) + occurs 2 (2 ∷ []) == 0)
        then false
        else (two_pages.page 2).is_used))
    × (((free (1 ∷ []) two_pages).page 2).states ≡ (two_pages.page 2).states)
pages_buffer-free_example = pages_buffer-free (1 ∷ []) two_pages 2
