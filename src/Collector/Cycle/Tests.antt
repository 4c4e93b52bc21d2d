-- ===== src/Collector/Cycle/Tests.antt =====
-- A cycle over one page of three objects: a stack root points to the first, which points to the second.
use mathlib.Core.List.{Memᴰ}
use sgcl.Base.{
  ℕ, ◌/◌, ◌%◌, ◌≡◌, ◌↔◌, refl, arith, true, false, not, ◌&&◌, ◌==◌, if◌then◌else◌, none, List, [],
  ◌∷◌, Bool-cases, inl, inr,
}
use sgcl.Base.Bits.{testbit, testbit-zero}
use sgcl.Base.Count.{count_below, count_in}
use sgcl.State
use sgcl.Page.{Page, no_flags, flags_count}
use sgcl.Heap.{Heap, page_at}
use sgcl.Threads.{Data}
use sgcl.Collector.Bits.{is_registered}
use sgcl.Collector.Measure.{unmarked}
use sgcl.Collector.Tests.{empty_page}
use sgcl.Collector.Roots.{root_words}
use sgcl.Collector.Cycle.{collect}
use sgcl.Collector.Cycle.Live.{Live, IsIdle}
use sgcl.Collector.Cycle.Collect.{collect_lem}

abbrev triple_page : Page
triple_page = record empty_page {
  registered = true;
  states = λ i.
      if i == 0
      then State.used
      else if i == 1
      then State.used
      else if i == 2
      then State.used
      else State.unused;
  flags = λ i. if i == 0 then record { registered = 7; reachable = 0; marked = 0 } else no_flags;
}

abbrev triple_heap : Heap
triple_heap = record {
  store = record { header = λ _. 1000; page = λ a. if a == 1000 then triple_page else empty_page };
  memory = λ x. if x == 9000 then 4104 else if x == 4104 then 4120 else 0;
  childs = λ _. record { offsets = none; map = λ i. if i == 0 then 1 else 0; final = true };
  array_metadata = λ _. record {
    child_pointers = 0;
    has_destroy = false;
    object_size = 0;
    tracked_ptrs_only = false;
  };
  pages = 1000 ∷ [];
  registered_pages = 1000 ∷ [];
  reachable_pages = [];
  unreachable_pages = [];
  live_objects = [];
  live_objects_request = false;
  destroyed = [];
}

abbrev one_thread : List Data
one_thread =
    (record {
      stack_roots = record { pages = λ i. if i == 3 then 9000 else 0 };
      is_used = true;
      alloc_count = 3;
      alloc_size = 48;
    })
    ∷ []

abbrev sizes : ℕ → ℕ
sizes _ = 64

triple_heap-registered :
    (a k : ℕ) → is_registered triple_heap a k ≡ true → (a ≡ 1000) × (k / 64 ≡ 0)
triple_heap-registered a k r = elim (Bool-cases (a == 1000)) [
  | inr n ↦ absurd (ground (arith, testbit-zero (k % 64)))
  | inl e ↦ elim (Bool-cases (k / 64 == 0)) [
    | inl z ↦ (ground arith, ground arith)
    | inr n ↦ absurd (ground (arith, testbit-zero (k % 64)))
  ]
]

triple_heap-unmarked : unmarked sizes (1000 ∷ []) triple_heap ≡ 3
unfolding testbit count_in count_below
triple_heap-unmarked = refl

triple_heap-IsIdle : IsIdle sizes (1000 ∷ []) triple_heap
unfolding flags_count
triple_heap-IsIdle = record {
  cache = λ c os e. ground arith;
  marked = λ a i. ground arith;
  reachable = λ a i. ground arith;
  waiting = λ a. ground arith;
  sweeping = λ a. ground arith;
  no_waiting = refl;
  no_sweeping = refl;
  listed = λ a k r. Memᴰ.head (triple_heap-registered a k r).0;
  within = λ a k r. let p = triple_heap-registered a k r in (Memᴰ.head p.0, omega (arith, p.1));
  grouped = λ a k r. let p = triple_heap-registered a k r in ground (arith, p.0, p.1);
}

collect_lem_example :
    let h' = (collect 5 5 2 one_thread [] triple_heap).heap in
    ((is_registered h' 1000 2 ≡ true) ↔ Live (root_words one_thread []) triple_heap 1000 2)
    × ((page_at h' 1000).states 2 ≡ (
        if is_registered triple_heap 1000 2 && not (is_registered h' 1000 2)
        then State.unused
        else (page_at triple_heap 1000).states 2))
collect_lem_example =
    collect_lem sizes (1000 ∷ []) 5 5 1 one_thread [] triple_heap triple_heap-IsIdle
      (omega (arith, triple_heap-unmarked)) (omega (arith, triple_heap-unmarked)) 1000 2
