-- ===== src/Threads/Counts.antt =====
-- sgcl/priv/collector.h, `_check_threads` and `_alloc_counter`: no allocation is forgotten when a thread
-- ends.
use sgcl.Base.{
  ℕ, zero, suc, ◌<◌, ◌≡◌, refl, sym, ap, ◌∙◌, arith, true, Bool-cases, inl, inr, Bool, false, List,
  [], ◌∷◌, ◌++◌, if◌then◌else◌,
}
use sgcl.Base.Lists.{length}
use sgcl.Counter.{Counter, plus, add_assign}
use sgcl.Counter.Laws.{
  Counter-ext, plus-add_assign, plus-add_assign_right, add_assign-plus, plus-plus,
}
use sgcl.Threads.{
  Data, Threads, change, count_allocated, update_allocated, counter_of, sum_counters, alloc_counter,
  check_list, check_threads,
}

abbrev zero_counter : Counter
zero_counter = record { count = 0; size = 0 }

-- A counter may be added before the sum or after it.
sum_counters_from :
    (list : List Data) (a b : Counter) → plus (sum_counters list a) b ≡ sum_counters list (plus a b)
unfolding sum_counters
sum_counters_from [] a b = refl
sum_counters_from (d ∷ list) a b =
    sum_counters_from list (add_assign a (counter_of d)) b
    ∙ ap (sum_counters list) (plus-add_assign a b (counter_of d))

-- The counts of the threads that leave the list go to the rest.
check_list-sum_counters :
    (list : List Data) (a rest : Counter)
    → let r = check_list list rest in
      plus (sum_counters r.0 a) r.1 ≡ plus (sum_counters list a) rest
unfolding sum_counters check_list
check_list-sum_counters [] a rest = refl
check_list-sum_counters (d ∷ list) a rest = elim (Bool-cases d.is_used) [
  | inl t ↦ rw t (check_list-sum_counters list (add_assign a (counter_of d)) rest)
  | inr f ↦ rw f (
      check_list-sum_counters list a (add_assign rest (counter_of d))
      ∙ sum_counters_from list a (add_assign rest (counter_of d))
      ∙ ap (sum_counters list) (plus-add_assign_right a rest (counter_of d))
      ∙ sym (sum_counters_from list (add_assign a (counter_of d)) rest))
]

-- The threads of a list that have not ended, in order.
pub still_used : List Data → List Data
still_used [] = []
still_used (d ∷ list) = (if d.is_used then d ∷ [] else []) ++ still_used list

-- One step, by whether the thread has ended.
kept_step :
    (b : Bool) (d : Data) (list : List Data) (kept taken : List Data × Counter)
    → kept.0 ≡ still_used list
    → taken.0 ≡ still_used list
    → (elim b as (λ _. List Data × Counter) [ true ↦ (d ∷ kept.0, kept.1) | false ↦ taken ]).0
      ≡ (if b then d ∷ [] else []) ++ still_used list
kept_step true d list kept taken k t = ap (λ l. d ∷ l) k
kept_step false d list kept taken k t = t

kept_used : (list : List Data) (rest : Counter) → (check_list list rest).0 ≡ still_used list
unfolding check_list still_used
kept_used [] rest = refl
kept_used (d ∷ list) rest =
    kept_step d.is_used d list (check_list list rest)
      (check_list list (add_assign rest (counter_of d))) (kept_used list rest)
      (kept_used list (add_assign rest (counter_of d)))

-- `_check_threads` leaves the counts that `_alloc_counter` gives as they were, keeps on the list, in
-- order, the threads that have not ended, and takes the others off it.
pub alloc_counter-check_threads :
    (t : Threads)
    → (alloc_counter (check_threads t) ≡ alloc_counter t)
      × ((check_threads t).threads_data ≡ still_used t.threads_data)
unfolding alloc_counter check_threads
alloc_counter-check_threads t = (
  check_list-sum_counters t.threads_data zero_counter t.allocated_rest,
  kept_used t.threads_data t.allocated_rest,
)

abbrev one_object : ℕ → Counter
one_object s = record { count = 1; size = s }

sum_counters-change :
    (s i : ℕ) (list : List Data) (a : Counter)
    → i < length list
    → sum_counters (change (count_allocated s) i list) a
      ≡ sum_counters list (add_assign a (one_object s))
unfolding sum_counters change count_allocated add_assign
sum_counters-change s i [] a lt = absurd (omega arith)
sum_counters-change s zero (d ∷ list) a lt =
    ap (sum_counters list) (Counter-ext _ _ (omega arith) (omega arith))
sum_counters-change s (suc i) (d ∷ list) a lt =
    sum_counters-change s i list (add_assign a (counter_of d)) (omega (arith, lt))
    ∙ ap (sum_counters list) (Counter-ext _ _ (omega arith) (omega arith))

-- An allocation of `s` bytes by the thread at place `i` of the list adds one object and `s` bytes to what
-- `_alloc_counter` gives.
alloc_counter-update_allocated :
    (i s : ℕ) (t : Threads)
    → i < length t.threads_data
    → alloc_counter (update_allocated i s t)
      ≡ add_assign (alloc_counter t) (record { count = 1; size = s })
unfolding alloc_counter update_allocated
alloc_counter-update_allocated i s t lt =
    ap (λ c. plus c t.allocated_rest)
      (sum_counters-change s i t.threads_data zero_counter lt
        ∙ ap (sum_counters t.threads_data) (add_assign-plus zero_counter (one_object s))
        ∙ sym (sum_counters_from t.threads_data zero_counter (one_object s)))
    ∙ plus-plus (sum_counters t.threads_data zero_counter) (one_object s) t.allocated_rest
