-- ===== src/Collector/Loop/Tests.antt =====
-- A loop that waits, with two threads that ask it for something.
use mathlib.Core.List.{Memᴰ}
use sgcl.Base.{ℕ, ◌≡◌, ◌≤◌, ◌<◌, refl, some, arith, true, false, some, [], ◌∷◌}
use sgcl.Base.Lists.{All}
use sgcl.Counter.{plus, minus, max_counter, Counter, word_add, word_sub, add_assign}
use sgcl.Counter.Laws.{IsWord}
use sgcl.Collector.Loop.{
  Control, poll, nothing, Poll, Loop, Input, turn, run, wait, take_forced, act, end_turn,
  shift_removed, count_turn, recount, max_removed_of, is_triggered, is_due, answer,
}
use sgcl.Collector.Loop.Ends.{quiet_turns, run_ends, run_wakes_nobody}
use sgcl.Collector.Loop.Live.{poll_counts, counts_of, turn_lem}

abbrev idle_control : Control
idle_control = record {
  terminating = false;
  forced_collect_count = 0;
  live_objects_ref = 0;
  live_objects_request = false;
  live_objects = [];
  answers = [];
  notified = 0;
}

abbrev of : ℕ → ℕ → Counter
of n s = record { count = n; size = s }

abbrev at_rest : Poll
at_rest = record { before = nothing; duration = 0; allocated = of 5 80; later = 30000 }

abbrev quiet_input : Input
quiet_input = record { last_removed = of 0 0; now = of 5 80; first = at_rest; polls = [] }

abbrev ending_loop : Loop
ending_loop = record {
  control = record idle_control { terminating = true; forced_collect_count = 3 };
  finalization_counter = 2;
  allocated = of 5 80;
  removed = of 2 32;
  last3_removed0 = of 0 0;
  last3_removed1 = of 0 0;
  last3_removed2 = of 0 0;
  live_objects_number = 3;
}

abbrev idle_loop : Loop
idle_loop = record ending_loop { control = idle_control }

quiet : 2 ≤ quiet_turns (quiet_input ∷ quiet_input ∷ [])
unfolding quiet_turns
quiet = omega arith

run_ends_example : (run (quiet_input ∷ quiet_input ∷ []) ending_loop).0 ≡ true
run_ends_example =
    run_ends (quiet_input ∷ quiet_input ∷ []) ending_loop refl (λ e. ground arith) quiet

run_wakes_nobody_example : (run (quiet_input ∷ quiet_input ∷ []) ending_loop).1.control.notified ≡ 0
run_wakes_nobody_example = run_wakes_nobody (quiet_input ∷ quiet_input ∷ []) ending_loop refl

abbrev busy_loop : Loop
busy_loop = record ending_loop { control = idle_control; allocated = of 1 16 }

abbrev busy_input : Input
busy_input = record { last_removed = of 1 16; now = of 5 80; first = at_rest; polls = [] }

abbrev busy_after : Loop
busy_after = record busy_loop {
  allocated = of 5 80;
  removed = of 3 48;
  last3_removed2 = of 1 16;
  live_objects_number = 2;
}

busy_turn : turn busy_input busy_loop ≡ some busy_after
unfolding turn wait poll take_forced act end_turn shift_removed count_turn recount max_removed_of
    is_triggered is_due answer plus minus max_counter add_assign
busy_turn = refl

words : (n s : ℕ) → n < 100 → s < 100 → IsWord (of n s)
words n s p q = record { count = omega arith; size = omega arith }

busy_words : All IsWord (counts_of busy_input)
unfolding counts_of poll_counts
busy_words = (words 5 80 (omega arith) (omega arith), (words 5 80 (omega arith) (omega arith), tt))

turn_lem_example :
    (2 ≡ word_sub 5 (word_add 2 1))
    × (of 3 48 ≡ add_assign (of 2 32) (of 1 16))
    × Memᴰ (of 5 80) (counts_of busy_input)
turn_lem_example =
    turn_lem busy_input busy_loop busy_after busy_words (words 1 16 (omega arith) (omega arith))
      busy_turn
