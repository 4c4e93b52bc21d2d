-- ===== src/Threads/Tests.antt =====
-- Two threads, of which one has ended.
use sgcl.Base.{ℕ, ◌≡◌, refl, true, false, [], ◌∷◌}
use sgcl.Threads.{Data, Threads, start, stop, alloc_counter, check_threads, change}
use sgcl.Threads.Counts.{still_used, alloc_counter-check_threads}

abbrev worked : ℕ → ℕ → Data
worked n s = record {
  stack_roots = record { pages = λ i. 0 };
  is_used = true;
  alloc_count = n;
  alloc_size = s;
}

abbrev two_threads : Threads
two_threads = record {
  threads_data = worked 3 48 ∷ record (worked 2 32) { is_used = false } ∷ [];
  allocated_rest = record { count = 10; size = 160 };
  is_terminated = false;
}

-- A thread that starts is in front, and one that stops stays on the list until it is looked for.
stop-start :
    stop true 1
      (start (record { pages = λ i. 0 }) (record two_threads { threads_data = worked 2 32 ∷ [] }))
    ≡ record two_threads {
      is_terminated = true;
      threads_data = worked 0 0 ∷ record (worked 2 32) { is_used = false } ∷ [];
    }
unfolding start stop change
stop-start = refl

alloc_counter-check_threads_example :
    (alloc_counter (check_threads two_threads) ≡ alloc_counter two_threads)
    × ((check_threads two_threads).threads_data ≡ still_used two_threads.threads_data)
alloc_counter-check_threads_example = alloc_counter-check_threads two_threads
