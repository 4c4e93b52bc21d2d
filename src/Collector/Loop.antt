-- ===== src/Collector/Loop.antt =====
-- sgcl/priv/collector.h, `_main_loop` after the passes of a turn, and the functions by which other threads
-- ask for a collection or the end: what wakes the collector, whom it wakes, and the counts it keeps. The
-- clock and `_alloc_counter` are inputs; the other threads act before each test of the loop that waits.
pub mod Polls
pub mod Forced
pub mod Ends
pub mod Live
mod Tests
use sgcl.Base.{
  ℕ, ◌+◌, ◌-◌, ◌*◌, ◌/◌, Bool, true, false, not, ◌&&◌, ◌||◌, ltb, leb, ◌==◌, if◌then◌else◌, Option,
  none, some, List, [], ◌∷◌,
}
use sgcl.State
use sgcl.Types.{word_size, page_size, deletion_delay, trigger_percentage, max_sleep_time}
use sgcl.Counter.{
  Counter, word_add, word_mul, word_div, word_max, signed_ltb, plus, minus, add_assign, max_counter,
}
use sgcl.Collector.Mark.{is_nil}

abbrev pub min_live_size : ℕ
min_live_size = page_size

abbrev pub min_live_count : ℕ
min_live_count = min_live_size / word_size * 2

-- What the collector shares with the other threads. `notified` counts the calls of
-- `_forced_collect_cv.notify_all`, and `answers` holds the arrays of live objects, each with the reference
-- that it was moved to.
pub record Control : Type 0 where
  pub terminating : Bool
  pub forced_collect_count : ℕ
  pub live_objects_ref : ℕ
  pub live_objects_request : Bool
  pub live_objects : List ℕ
  pub answers : List (ℕ × List ℕ)
  pub notified : ℕ

-- `force_collect`, up to its wait.
pub force_collect : Bool → Control → Control
force_collect wait c = if wait && c.terminating then c else record c { forced_collect_count = 3 }

-- `live_objects`, up to its wait.
pub ask_live_objects : ℕ → Control → Control
ask_live_objects ref c =
    if c.terminating then c else record c { live_objects_ref = ref; forced_collect_count = 3 }

-- `live_objects`, after its wait.
pub take_live_objects : Control → Control
take_live_objects c = record c { live_objects_ref = 0 }

-- `_terminate`, up to its wait.
pub terminate : Control → Control
terminate c = record c { terminating = true }

-- The lock is held: the live objects are handed over, if they were asked for.
pub answer : Control → Control
answer c =
    if c.live_objects_request
    then record (if is_nil c.live_objects
        then c
        else record c { answers = (c.live_objects_ref, c.live_objects) ∷ c.answers }) {
          live_objects = [];
          live_objects_request = false;
        }
    else c

abbrev pub notify : Control → Control
notify c = record c { notified = c.notified + 1 }

-- The live objects are collected in the turn that comes.
abbrev pub request : Control → Control
request c = record c { live_objects = []; live_objects_request = true }

-- The test of `_forced_collect_count`: whether the loop is left, and what is shared then.
pub take_forced : Control → Bool × Control
take_forced c =
    let count = c.forced_collect_count - 1 in
    let c' = record c { forced_collect_count = count } in
    if c.forced_collect_count == 0
    then (false, c)
    else if count == 0
    then (false, notify (answer c'))
    else (true, if (count == 1) && not (c.live_objects_ref == 0) then request c' else c')

-- The counts of a turn.
pub record Turn : Type 0 where
  pub last_allocated : Counter
  pub last_removed : Counter
  pub max_removed : Counter
  pub live : Counter

-- Much was allocated or removed, in terms of what is live.
pub is_triggered : Turn → Bool
is_triggered t =
    not (
      signed_ltb
        (word_div (word_mul (word_max t.last_allocated.count t.last_removed.count) 100)
          trigger_percentage)
        (word_add t.live.count min_live_count))
    || not (
        signed_ltb
          (word_div (word_mul (word_max t.last_allocated.size t.last_removed.size) 100)
            trigger_percentage)
          (word_add t.live.size min_live_size))

-- Much was removed lately, and states may have fallen since.
pub is_due : ℕ → Turn → Bool
is_due duration t =
    signed_ltb (word_mul t.last_allocated.count 2) t.max_removed.count
    && signed_ltb min_live_count t.max_removed.count
    && leb (deletion_delay / (State.reachable_atomic - 1)) duration

-- One test of the loop that waits, `duration` milliseconds after it began: whether it is left.
pub poll : ℕ → Turn → Control → Bool × Control
poll duration t c =
    let forced = take_forced c in
    if c.terminating
    then (true, c)
    else if forced.0
    then forced
    else (is_triggered t || is_due duration t, forced.1)

-- What another thread does.
pub data Act : Type 0 where
  nothing : Act
  force : Bool → Act
  ask : ℕ → Act
  take : Act
  stop : Act

pub act : Act → Control → Control
act nothing c = c
act (force wait) c = force_collect wait c
act (ask ref) c = ask_live_objects ref c
act take c = take_live_objects c
act stop c = terminate c

-- What happens around one test: what another thread does before it, the clock at the test and at the
-- loop's condition, and the counts after the sleep.
pub record Poll : Type 0 where
  pub before : Act
  pub duration : ℕ
  pub allocated : Counter
  pub later : ℕ

-- The counts and what is shared, around the loop that waits.
pub record Waiting : Type 0 where
  pub turn : Turn
  pub control : Control

pub recount : Counter → Counter → Counter → Turn → Turn
recount allocated removed now t =
    let last_allocated = minus now allocated in
    record t {
      last_allocated = last_allocated;
      live = minus (plus allocated last_allocated) (plus removed t.last_removed);
    }

-- The loop that waits. It gives nothing if the inputs end while it still waits.
pub wait : Counter → Counter → List Poll → Waiting → Option Waiting
wait allocated removed [] w = none
wait allocated removed (p ∷ polls) w =
    let r = poll p.duration w.turn (act p.before w.control) in
    let t = recount allocated removed p.allocated w.turn in
    let rest = wait allocated removed polls (record { turn = t; control = r.1 }) in
    if r.0
    then some (record w { control = r.1 })
    else if (t.live.count == 0) || ltb p.later (max_sleep_time * 1000)
    then rest
    else some (record { turn = t; control = r.1 })

-- The locals of `_main_loop`, `_live_objects_number` and what is shared.
pub record Loop : Type 0 where
  pub control : Control
  pub finalization_counter : ℕ
  pub allocated : Counter
  pub removed : Counter
  pub last3_removed0 : Counter
  pub last3_removed1 : Counter
  pub last3_removed2 : Counter
  pub live_objects_number : ℕ

-- What the passes of a turn removed, the counts of the threads after them, and the tests that
-- follow, of which there is one at least.
pub record Input : Type 0 where
  pub last_removed : Counter
  pub now : Counter
  pub first : Poll
  pub polls : List Poll

-- `last3_removed`, and `_live_objects_number`, after the passes.
pub shift_removed : Counter → Loop → Loop
shift_removed last_removed s = record s {
  last3_removed0 = s.last3_removed1;
  last3_removed1 = s.last3_removed2;
  last3_removed2 = last_removed;
}

pub max_removed_of : Loop → Counter
max_removed_of s = max_counter s.last3_removed0 (max_counter s.last3_removed1 s.last3_removed2)

abbrev zero_counter : Counter
zero_counter = record { count = 0; size = 0 }

pub count_turn : Input → Loop → Turn
count_turn i s = recount s.allocated s.removed i.now (record {
  last_allocated = zero_counter;
  last_removed = i.last_removed;
  max_removed = max_removed_of (shift_removed i.last_removed s);
  live = zero_counter;
})

-- The end of a turn, after the loop that waits.
pub end_turn : Loop → Waiting → Loop
end_turn s w = record s {
  control = w.control;
  allocated = add_assign s.allocated w.turn.last_allocated;
  removed = add_assign s.removed w.turn.last_removed;
  finalization_counter =
      if (w.turn.last_removed.count == 0) && w.control.terminating
      then if w.turn.live.count == 0 then 0 else s.finalization_counter - 1
      else s.finalization_counter;
}

pub turn : Input → Loop → Option Loop
turn i s =
    let t = count_turn i s in
    let s' = record (shift_removed i.last_removed s) { live_objects_number = t.live.count } in
    elim (wait s.allocated s.removed (i.first ∷ i.polls)
      (record { turn = t; control = s.control })) [ some w ↦ some (end_turn s' w) | none ↦ none ]

-- `do … while (finalization_counter)`: whether the loop was left, and the state.
pub run : List Input → Loop → Bool × Loop
run [] s = (false, s)
run (i ∷ inputs) s = elim (turn i s) [
  | none ↦ (false, s)
  | some s' ↦ let rest = run inputs s' in if s'.finalization_counter == 0 then (true, s') else rest
]
