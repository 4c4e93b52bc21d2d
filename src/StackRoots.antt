-- ===== src/StackRoots.antt =====
-- sgcl/priv/stack_roots_allocator.h: a root pointer on a thread's stack is kept in a word that mirrors
-- its place on the stack, in pages that are made on the first use.
pub mod Slots
mod Tests
use sgcl.Base.{ℕ, ◌+◌, ◌*◌, ◌/◌, ◌%◌, ◌^◌, ◌==◌, if◌then◌else◌, update}
use sgcl.Types.{word_size, page_size, max_stack_size}

-- PageCount
abbrev pub page_count : ℕ
page_count = max_stack_size / page_size

-- The addresses of the pages; a null pointer is 0.
pub record Stack : Type 0 where
  pub pages : ℕ → ℕ

abbrev pub page_index : ℕ → ℕ
page_index p = p / page_size % page_count

-- The address of the word for a root at `p`; `new Page{}` gives `fresh`, if a page is made.
unfoldable pub alloc : ℕ → ℕ → Stack → ℕ × Stack
alloc fresh p s =
    let index = page_index p in
    let page = if s.pages index == 0 then fresh else s.pages index in
    let s' = if s.pages index == 0 then record s { pages = update s.pages index fresh } else s in
    let offset = p % page_size / word_size in ((page + offset * word_size) % 2 ^ 64, s')
