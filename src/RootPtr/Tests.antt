-- ===== src/RootPtr/Tests.antt =====
-- A thread without root pointers, and one with a root pointer at 64 whose word is at 4104.
use sgcl.Base.{ℕ, ◌+◌, ◌<◌, ◌≡◌, refl, arith, false, none, some, [], ◌∷◌}
use sgcl.Base.Lists.{occurs}
use sgcl.Page.{Metadata, create}
use sgcl.HeapRoots.{Roots}
use sgcl.HeapRoots.Count.{free_count, in_option, in_list, IsRootOption, one}
use sgcl.TrackedPtr.{Memory}
use sgcl.RootPtr.{
  Thread, Call, stack_detected, remove_flags, get, assign, from_pointer, move, destroy,
}
use sgcl.RootPtr.Words.{held}
use sgcl.RootPtr.Valid.{IsHeapRef, IsThread, IsNew, Holds}
use sgcl.RootPtr.Variable.{from_pointer_lem, destroy_lem}
use sgcl.RootPtr.Moves.{move_lem}

abbrev metadata : Metadata
metadata = record {
  address = 64;
  child_pointers = 0;
  has_destroy = false;
  object_size = 8;
  object_count = 511;
  is_array = false;
}

-- One page with its data at 65544.
abbrev memory : Memory
memory = record {
  store = record { header = λ _. 512; page = λ _. create metadata 0 65544 };
  words = λ _. 0;
}

abbrev no_roots : Roots
no_roots = record {
  pool1 = none;
  pool2 = none;
  global_pools = [];
  global_empty_pools = [];
  pages = [];
}

abbrev thread : Thread
thread = record {
  memory = memory;
  heap_roots = no_roots;
  stack_roots = record { pages = λ _. 0 };
  refs = λ _. 4105;
  terminated = false;
}

-- A call whose stack is far from the root pointers.
abbrev call : Call
call = record { stack_address = 2000000; node = 8192; fresh = 16384 }

not_detected : (stack_detected call 64 ≡ false) × (stack_detected call 72 ≡ false)
unfolding stack_detected
not_detected = (refl, refl)

thread-IsHeapRef : IsHeapRef 4105
unfolding remove_flags
thread-IsHeapRef = record {
  word = record { not_null = omega arith; even = refl; bound = omega arith };
  flag = refl;
  not_null = omega arith;
  tag = refl;
}

none_free : (x : ℕ) → free_count x no_roots ≡ 0
unfolding free_count in_option in_list
none_free x = refl

thread-IsThread : IsThread thread []
unfolding held occurs IsRootOption
thread-IsThread = record {
  roots = record { pool1 = tt; pool2 = tt; global = tt; global_empty = tt };
  spare = record {
    word = λ x lt. absurd (omega (arith, none_free x));
    null = λ x lt. refl;
    once = λ x ev. omega (arith, none_free x, none_free (x + 1));
  };
  refs = λ a lt. thread-IsHeapRef;
  places = λ a. omega arith;
}

one-IsThread : IsThread thread (64 ∷ [])
unfolding held occurs
one-IsThread = record {
  roots = thread-IsThread.roots;
  spare = record {
    word = thread-IsThread.spare.word;
    null = λ x lt. refl;
    once = λ x ev. ground (arith, none_free x, none_free (x + 1));
  };
  refs = λ a lt. thread-IsHeapRef;
  places = λ a. ground arith;
}

thread-IsNew : IsNew 8192 thread (64 ∷ [])
unfolding held occurs remove_flags
thread-IsNew = record {
  page = record { not_null = omega arith; aligned = refl; bound = omega arith };
  unused = λ x lo hi. ground (arith, none_free x);
  null = λ x lo hi. refl;
}

from_pointer_lem_example :
    (s' : Thread) × (from_pointer call 72 65560 thread ≡ some s')
    × IsThread s' (72 ∷ 64 ∷ [])
    × Holds 72 65560 (64 ∷ []) thread s'
unfolding occurs
from_pointer_lem_example =
    from_pointer_lem call 72 65560 thread (64 ∷ []) one-IsThread thread-IsNew refl not_detected.1

destroy_lem_example :
    IsThread (destroy 64 thread) []
    × ((b : ℕ) → 0 < occurs b [] → get b (destroy 64 thread) ≡ get b thread)
    × ((x : ℕ)
        → free_count x (destroy 64 thread).heap_roots
          ≡ one (thread.refs 64) x + free_count x thread.heap_roots)
destroy_lem_example = destroy_lem 64 thread [] one-IsThread refl

move_lem_example :
    (s' : Thread) × (move call 72 64 thread ≡ some s')
    × IsThread s' (72 ∷ [])
    × (get 72 s' ≡ get 64 thread)
    × (s'.memory ≡ thread.memory)
    × ((b : ℕ) → 0 < occurs b [] → get b s' ≡ get b thread)
    × (destroy 64 s' ≡ s')
    × (get 64 s' ≡ none)
    × ((q : ℕ) → assign 64 q s' ≡ none)
unfolding occurs
move_lem_example = move_lem call 72 64 thread [] one-IsThread refl not_detected.1
