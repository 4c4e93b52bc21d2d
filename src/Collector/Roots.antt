-- ===== src/Collector/Roots.antt =====
-- sgcl/priv/collector.h, `_mark_stack_roots` and `_mark_heap_roots`: the words of the roots are marked,
-- those that mirror the threads' stacks and those of the pages of heap roots.
pub mod Effect
pub mod Marks
mod Tests
use sgcl.Base.{
  ℕ, zero, suc, ◌+◌, ◌*◌, ◌/◌, ◌%◌, ◌^◌, ◌==◌, if◌then◌else◌, List, [], ◌∷◌, ◌++◌, for_range,
  for_each,
}
use sgcl.Types.{word_size, page_size}
use sgcl.Heap.{Heap}
use sgcl.StackRoots.{Stack, page_count}
use sgcl.Threads.{Data, Threads}
use sgcl.Collector.Mark.{mark}

-- The number of pointers of a page of either kind.
abbrev pub page_pointers : ℕ
page_pointers = page_size / word_size

-- Word `i` of the page at `page`.
abbrev pub root_at : ℕ → ℕ → ℕ
root_at page i = (page + i * word_size) % 2 ^ 64

-- _mark(p.load()) for the word at `x`
unfoldable pub mark_root : ℕ → Heap → Heap
mark_root x h = mark (h.memory x) h

pub mark_page : ℕ → Heap → Heap
mark_page page h = for_range page_pointers 0 (λ i s. mark_root (root_at page i) s) h

pub mark_stack : Stack → Heap → Heap
mark_stack stack h =
    for_range page_count 0 (λ i s. if stack.pages i == 0 then s else mark_page (stack.pages i) s) h

pub mark_stack_roots : List Data → Heap → Heap
mark_stack_roots threads h = for_each (λ (d : Data) s. mark_stack d.stack_roots s) threads h

-- The pages of heap roots are given by the addresses of their pointers.
pub mark_heap_roots : List ℕ → Heap → Heap
mark_heap_roots nodes h = for_each mark_page nodes h

pub mark_roots : List Data → List ℕ → Heap → Heap
mark_roots threads nodes h = mark_heap_roots nodes (mark_stack_roots threads h)

-- The addresses of the roots.
pub page_roots : ℕ → ℕ → ℕ → List ℕ
page_roots page zero i = []
page_roots page (suc n) i = root_at page i ∷ page_roots page n (i + 1)

pub stack_roots : Stack → ℕ → ℕ → List ℕ
stack_roots stack zero i = []
stack_roots stack (suc n) i =
    (if stack.pages i == 0 then [] else page_roots (stack.pages i) page_pointers 0)
    ++ stack_roots stack n (i + 1)

pub threads_roots : List Data → List ℕ
threads_roots [] = []
threads_roots (d ∷ threads) = stack_roots d.stack_roots page_count 0 ++ threads_roots threads

pub heap_roots : List ℕ → List ℕ
heap_roots [] = []
heap_roots (node ∷ nodes) = page_roots node page_pointers 0 ++ heap_roots nodes

pub root_words : List Data → List ℕ → List ℕ
root_words threads nodes = threads_roots threads ++ heap_roots nodes
