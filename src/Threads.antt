-- ===== src/Threads.antt =====
-- sgcl/priv/thread.h, the data that a thread leaves for the collector, and what sgcl/priv/collector.h does
-- with it: the list of the threads, their counts, and the threads that ended. The loops around
-- `compare_exchange_weak` push a thread at the moment at which they succeed, and no thread comes while the
-- collector takes ended ones off the list.
pub mod Counts
mod Tests
use sgcl.Base.{ℕ, zero, suc, ◌+◌, ◌%◌, ◌^◌, Bool, true, false, ◌||◌, List, [], ◌∷◌}
use sgcl.Counter.{Counter, plus, add_assign}
use sgcl.StackRoots.{Stack}

-- `Thread::Data`; the list that `next` links is a list of these.
pub record Data : Type 0 where
  pub stack_roots : Stack
  pub is_used : Bool
  pub alloc_count : ℕ
  pub alloc_size : ℕ

-- `Thread::threads_data`, the collector's `_allocated_rest`, and whether `Terminate_collector` was called.
pub record Threads : Type 0 where
  pub threads_data : List Data
  pub allocated_rest : Counter
  pub is_terminated : Bool

-- The constructor puts the data of a new thread in front.
pub start : Stack → Threads → Threads
start stack t = record t {
  threads_data =
      (record { stack_roots = stack; is_used = true; alloc_count = 0; alloc_size = 0 })
      ∷ t.threads_data;
}

-- A change of the data at place `i` of the list.
pub change : (Data → Data) → ℕ → List Data → List Data
change f i [] = []
change f zero (d ∷ list) = f d ∷ list
change f (suc i) (d ∷ list) = d ∷ change f i list

-- The destructor; that of the main thread ends the collector.
pub stop : Bool → ℕ → Threads → Threads
stop is_main i t = record t {
  threads_data = change (λ d. record d { is_used = false }) i t.threads_data;
  is_terminated = t.is_terminated || is_main;
}

pub count_allocated : ℕ → Data → Data
count_allocated s d = record d {
  alloc_count = (d.alloc_count + 1) % 2 ^ 64;
  alloc_size = (d.alloc_size + s) % 2 ^ 64;
}

pub update_allocated : ℕ → ℕ → Threads → Threads
update_allocated i s t = record t { threads_data = change (count_allocated s) i t.threads_data }

abbrev pub counter_of : Data → Counter
counter_of d = record { count = d.alloc_count; size = d.alloc_size }

-- The loop of `_alloc_counter`.
pub sum_counters : List Data → Counter → Counter
sum_counters [] allocated = allocated
sum_counters (d ∷ list) allocated = sum_counters list (add_assign allocated (counter_of d))

pub alloc_counter : Threads → Counter
alloc_counter t =
    plus (sum_counters t.threads_data (record { count = 0; size = 0 })) t.allocated_rest

-- The walk of `_check_threads`: the threads that are kept, and the counts of the others.
pub check_list : List Data → Counter → List Data × Counter
check_list [] rest = ([], rest)
check_list (d ∷ list) rest = elim d.is_used [
  | true ↦ let r = check_list list rest in (d ∷ r.0, r.1)
  | false ↦ check_list list (add_assign rest (counter_of d))
]

pub check_threads : Threads → Threads
check_threads t =
    let r = check_list t.threads_data t.allocated_rest in
    record t { threads_data = r.0; allocated_rest = r.1 }
