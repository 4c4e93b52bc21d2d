-- ===== src/LargeObjects.antt =====
-- sgcl/priv/large_object_allocator.h: an object that does not fit a data page has memory of its own, with
-- the address of its page in the word before it.
pub mod Pointers
mod Tests
use sgcl.Base.{ℕ, ◌+◌, ◌%◌, ◌^◌, List, [], ◌∷◌, false, for_each, update}
use sgcl.Types.{word_size}
use sgcl.Page.{Metadata, Page, Store, create}

-- The pages, and `Object_allocator::pages`.
pub record Large : Type 0 where
  pub store : Store
  pub pages : List ℕ

-- `new` gives `mem` for the object and `hmem` for its page.
unfoldable pub alloc : Metadata → ℕ → ℕ → Large → ℕ × Large
alloc metadata mem hmem s =
    let data_address = (mem + word_size) % 2 ^ 64 in
    (
      data_address,
      record {
        store = record {
          page = update s.store.page hmem (create metadata 0 data_address);
          header = update s.store.header mem hmem;
        };
        pages = hmem ∷ s.pages;
      },
    )

abbrev retire : ℕ → Large → Large
retire a s = record s {
  store = record s.store {
    page = update s.store.page a (record (s.store.page a) { is_used = false });
  };
}

-- The pages of the list are not used any more, and their objects' memory is given back.
pub free : List ℕ → Large → Large
free list s = for_each retire list s
