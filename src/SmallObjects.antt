-- ===== src/SmallObjects.antt =====
-- sgcl/priv/small_object_allocator_base.h and sgcl/priv/small_object_allocator.h: the pages of one type,
-- the pool of places that a thread allocates from, and the list of the pages with unused places.
-- A stretch under the lock is one step.
pub mod Empty
pub mod Give
mod Tests
use sgcl.Base.{
  ℕ, zero, suc, ◌+◌, ◌-◌, ◌%◌, ◌^◌, Bool, true, false, ◌==◌, if◌then◌else◌, update, List, [], ◌∷◌,
  ◌++◌, for_range, for_each,
}
use sgcl.State
use sgcl.Types.{word_size}
use sgcl.Page.{Page}
use sgcl.PointerPool.{Pool, fill, fill_page, is_empty}
use sgcl.PointerPool
use sgcl.BlockAllocator.{Blocks}
use sgcl.BlockAllocator

-- `page` holds the pages by address, `pages` is Object_allocator::pages, and `blocks` the allocator of
-- the data pages.
pub record Small : Type 0 where
  pub page : ℕ → Page
  pub pages : List ℕ
  pub pages_buffer : List ℕ
  pub pool : Pool
  pub current_page : ℕ
  pub blocks : Blocks

-- A page of the buffer: its unused places go to the pool.
pub refill : ℕ → List ℕ → Small → Small
refill a pages s =
    let r = fill_page (s.page a) s.pool in
    record s {
      pages_buffer = pages;
      pool = r.0;
      page = update s.page a (record r.1 { on_empty_list = false });
      current_page = a;
    }

-- A new page with its header at `a`, which `_create_page_parameters` makes from the data page.
pub refill_new : ℕ → (ℕ → Page) → ℕ → Small → Small
refill_new a create mem s =
    let b = BlockAllocator.alloc mem s.blocks in
    let page = create b.0 in
    record s {
      blocks = record b.1 { block = update b.1.block b.0 a };
      page = update s.page a page;
      pool = fill page.data_address s.pool;
      pages = a ∷ s.pages;
      current_page = a;
    }

pub refill_pool : ℕ → (ℕ → Page) → ℕ → List ℕ → Small → Small
refill_pool a create mem (p ∷ pages) s = refill p pages s
refill_pool a create mem [] s = refill_new a create mem s

pub alloc : ℕ → (ℕ → Page) → ℕ → Small → ℕ × Small
alloc a create mem s =
    let s' = if is_empty s.pool then refill_pool a create mem s.pages_buffer s else s in
    let p = PointerPool.alloc s'.pool in (p.0, record s' { pool = p.1 })

-- The loop of `_remove_empty` over the states of a page.
pub unused_count : Page → ℕ
unused_count p =
    for_range p.metadata.object_count 0
      (λ i count. if p.states i == State.unused then count + 1 else count) 0

pub is_empty_page : Page → Bool
is_empty_page p = unused_count p == p.metadata.object_count

-- The pages that stay, and the empty ones in front of those that were found before.
pub remove_empty : (ℕ → Page) → List ℕ → List ℕ → List ℕ × List ℕ
remove_empty page [] empty_pages = ([], empty_pages)
remove_empty page (a ∷ pages) empty_pages = elim (is_empty_page (page a)) [
  | true ↦ remove_empty page pages (a ∷ empty_pages)
  | false ↦ let rest = remove_empty page pages empty_pages in (a ∷ rest.0, rest.1)
]

-- One round of the loop of `_free(pages, buffer, lock)`, which ends with the swap.
pub record Freeing : Type 0 where
  pub pages : List ℕ
  pub empty_pages : List ℕ
  pub buffer : List ℕ

pub free_round : (ℕ → Page) → Freeing → Freeing
free_round page f =
    let r = remove_empty page f.pages f.empty_pages in
    record { pages = f.buffer; empty_pages = r.1; buffer = r.0 }

-- One round of the loop of `_free(pages)`, with its list of data pages.
pub free_data_page : ℕ → List ℕ × Small → List ℕ × Small
free_data_page a (empty, s) =
    let data_page = ((s.page a).data_address + 2 ^ 64 - word_size) % 2 ^ 64 in
    (
      data_page ∷ empty,
      record s {
        blocks = record s.blocks { block = update s.blocks.block data_page (s.page a).block };
        page = update s.page a (record (s.page a) { is_used = false });
      },
    )

pub free_data_pages : List ℕ → Small → Small
free_data_pages [] s = s
free_data_pages (a ∷ pages) s =
    let r = for_each free_data_page (a ∷ pages) ([], s) in
    record r.1 { blocks = BlockAllocator.free r.0 r.1.blocks }

-- `_free(pages, buffer, lock)`
pub free : List ℕ → Small → Small
free pages s =
    let f =
      free_round s.page
        (free_round s.page (record { pages = pages; empty_pages = []; buffer = s.pages_buffer })) in
    free_data_pages f.empty_pages (record s { pages_buffer = f.pages ++ f.buffer })
