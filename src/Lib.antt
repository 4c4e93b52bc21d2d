-- ===== src/Lib.antt =====
-- SGCL, a concurrent mark-and-sweep garbage collector for C++ in headers.
--
-- A program's threads allocate objects in pages of objects of one size. A page has a state byte for
-- each object, which the threads write, and three words of flag bits for each 64 objects, which only
-- the collector's thread reads and writes. A thread's pointers are roots, in words that mirror its
-- stack or come from pools, or they lie in objects, where the first construction of a type records
-- their offsets. A store of a pointer raises the state of the object that it points to. A cycle of the
-- collector lowers the states, registers the objects, marks from the roots and from the objects whose
-- states were raised, follows the pointers, and removes what is registered and not marked.
--
-- Files and code, with paths from the repository's root:
--   State, Types            sgcl/priv/types.h, sgcl/priv/data_page.h, sgcl/configuration.h
--   Page                    sgcl/priv/page.h, sgcl/priv/page_info.h, sgcl/priv/metadata.h: the fields of
--                           Page, its address arithmetic on 64-bit words, states and flags. The page
--                           headers and the words at the start of the data pages form a Store.
--   ChildPointers           sgcl/priv/child_pointers.h and `_update_child_offsets`
--   Counter                 sgcl/priv/counter.h
--   PointerPool             sgcl/priv/pointer_pool_base.h, sgcl/priv/pointer_pool.h
--   BlockAllocator          sgcl/priv/block.h, sgcl/priv/block_allocator.h
--   SmallObjects            sgcl/priv/small_object_allocator_base.h, sgcl/priv/small_object_allocator.h
--   LargeObjects            sgcl/priv/large_object_allocator.h
--   HeapRoots               sgcl/priv/heap_roots_allocator.h
--   StackRoots              sgcl/priv/stack_roots_allocator.h
--   TrackedPtr              sgcl/priv/tracked_ptr.h, sgcl/atomic.h
--   RootPtr                 sgcl/root_ptr.h, for one thread
--   Maker                   sgcl/priv/maker.h, `Construct` and `Maker::_make`, with `Range_guard` of
--                           sgcl/priv/thread.h and the constructor of sgcl/priv/tracked_ptr.h
--   ArrayMaker              sgcl/priv/maker.h, `_make_array`, and sgcl/priv/array.h
--   Threads                 sgcl/priv/thread.h: the list of the threads' data and their counters, with
--                           `_alloc_counter` and `_check_threads`
--   Heap                    the data members of sgcl/priv/collector.h, with the memory it works on
--   Collector               sgcl/priv/collector.h: Mark is `_mark` to `_mark_array_childs`, Scan is
--                           `_mark_reachable`, Register is `_register_objects`, Ages is
--                           `_update_states`, Updated is `_mark_updated`, Garbage is `_clear_childs`
--                           to `_remove_garbage`, Unique is `Delete_unique`, Roots is
--                           `_mark_stack_roots` and `_mark_heap_roots`, Cycle is the marking part of
--                           a pass of `_main_loop` with the removal, Unused is
--                           `_release_unused_pages`, Loop is the waiting and the requests of
--                           `_main_loop` with `force_collect`, `live_objects` and `terminate`
--   Base                    shared names, loops, bits, counting
--
-- A state is a record that each operation takes and returns. The intrusive lists of pages are lists of
-- page addresses. Each access to shared memory is one step and the passes of the collector are
-- sequential: memory orders and the interleaving of the threads with a pass are not modelled. A loop
-- around a compare-and-exchange is the step at which it succeeds. `new` is a parameter, the address that
-- it returns; the effects of a user's destructor are not modelled, only that it is called. The words of
-- the memory are those at whole addresses: a store at an odd one, which a root pointer that is moved from
-- the stack can do, is a word of its own here. Signed overflow of a counter wraps around.
--
-- The nested loops of `_mark_reachable` and its walk along the pages run on fuel. The rounds on a page
-- each mark an object that was not, so that a number above that of the page's registered unmarked
-- objects is enough; the pages of the walk are at most the registered objects and the registered pages.
-- The loop of marking turns takes two: after the first, no object is left to mark. The recursion of
-- `_make_array` is on the template's argument, which grows by at least one up to a page: its fuel, the
-- size of a page, is enough. The main loop and its waiting are recursions on a list of the events that
-- the other threads and the clock bring, one entry for each turn.
--
-- Not modelled: a whole pass as one function, since the requests of the main loop, the counters and
-- the passes over the heap are separate definitions with the removed and the allocated counts as what
-- they share; the load, decrement and store of the count of forced collections as separate steps; the
-- construction of the elements of arrays, and what a user's constructor does besides the construction
-- of pointers and objects; the table of a thread's allocators; the log; and the typed members of the
-- pointer classes, which forward to the private ones.
pub mod Base
pub mod State
pub mod Types
pub mod Page
pub mod ChildPointers
pub mod Counter
pub mod PointerPool
pub mod BlockAllocator
pub mod SmallObjects
pub mod LargeObjects
pub mod HeapRoots
pub mod StackRoots
pub mod Threads
pub mod TrackedPtr
pub mod RootPtr
pub mod Heap
pub mod Collector
pub mod Maker
pub mod ArrayMaker
