-- ===== src/Collector/Loop/Ends.antt =====
-- sgcl/priv/collector.h, `_main_loop` once it was told to end: it is left after so many turns that remove
-- nothing, and wakes none of the threads that wait for a collection.
use sgcl.Base.{
  ℕ, suc, ◌-◌, ◌*◌, ltb, ◌≤◌, ◌≡◌, ◌≢◌, refl, ap, ◌∙◌, arith, Bool, true, ◌||◌, ◌==◌, if◌then◌else◌,
  Bool-cases, inl, inr, Option, none, some, List, [], ◌∷◌,
}
use sgcl.Types.{max_sleep_time}
use sgcl.Counter.{Counter}
use sgcl.Collector.Loop.{
  Control, force_collect, ask_live_objects, take_live_objects, terminate, take_forced, Turn, poll,
  Act, nothing, force, ask, take, stop, act, Poll, Waiting, recount, wait, Loop, Input,
  is_triggered, is_due, shift_removed, count_turn, end_turn, turn, run,
}

-- The threads do not take the order to end back, and do not wake each other.
act_keeps :
    (a : Act) (c : Control)
    → c.terminating ≡ true
    → ((act a c).terminating ≡ true) × ((act a c).notified ≡ c.notified)
unfolding act force_collect ask_live_objects take_live_objects terminate
act_keeps nothing c t = (t, refl)
act_keeps (force w) c t = (ground arith, ground arith)
act_keeps (ask ref) c t = (ground arith, ground arith)
act_keeps take c t = (t, refl)
act_keeps stop c t = (refl, refl)

poll_ends : (d : ℕ) (t : Turn) (c : Control) → c.terminating ≡ true → poll d t c ≡ (true, c)
unfolding poll
poll_ends d t c e =
    ap
      (λ b.
        if b
        then (true, c)
        else if (take_forced c).0
        then take_forced c
        else (is_triggered t || is_due d t, (take_forced c).1))
      e

wait_ends :
    (allocated removed : Counter) (p : Poll) (polls : List Poll) (w : Waiting)
    → w.control.terminating ≡ true
    → wait allocated removed (p ∷ polls) w ≡ some (record w { control = act p.before w.control })
unfolding wait
wait_ends allocated removed p polls w e =
    let t = recount allocated removed p.allocated w.turn in
    ap
      (λ (r : Bool × Control).
        if r.0
        then some (record w { control = r.1 })
        else if (t.live.count == 0) || ltb p.later (max_sleep_time * 1000)
        then wait allocated removed polls (record { turn = t; control = r.1 })
        else some (record { turn = t; control = r.1 }))
      (poll_ends p.duration w.turn (act p.before w.control) (act_keeps p.before w.control e).0)

-- The number of turns that remove nothing.
unfoldable pub quiet_turns : List Input → ℕ
quiet_turns [] = 0
quiet_turns (i ∷ inputs) =
    if i.last_removed.count == 0 then suc (quiet_turns inputs) else quiet_turns inputs

-- The state after a turn, when the collector was told to end.
after : Input → Loop → Loop
after i s =
    end_turn
      (record (shift_removed i.last_removed s) {
        live_objects_number = (count_turn i s).live.count;
      })
      (record { turn = count_turn i s; control = act i.first.before s.control })

turn_ends : (i : Input) (s : Loop) → s.control.terminating ≡ true → turn i s ≡ some (after i s)
unfolding turn after
turn_ends i s e =
    ap
      (λ (o : Option Waiting). elim o as (λ _. Option Loop) [
        | some w ↦ some (
            end_turn
              (record (shift_removed i.last_removed s) {
                live_objects_number = (count_turn i s).live.count;
              })
              w)
        | none ↦ none
      ])
      (wait_ends s.allocated s.removed i.first i.polls
        (record { turn = count_turn i s; control = s.control }) e)

-- A turn that removes nothing brings the end nearer.
after_counts :
    (i : Input) (s : Loop)
    → s.control.terminating ≡ true
    → ((after i s).control.terminating ≡ true)
      × ((after i s).control.notified ≡ s.control.notified)
      × ((after i s).finalization_counter ≤ (
          if i.last_removed.count == 0 then s.finalization_counter - 1 else s.finalization_counter))
unfolding after end_turn shift_removed count_turn recount
after_counts i s e = let k = act_keeps i.first.before s.control e in (k.0, k.1, ground (arith, k.0))

run_from :
    (inputs : List Input) (s : Loop)
    → s.control.terminating ≡ true
    → ((run inputs s).1.control.notified ≡ s.control.notified)
      × (s.finalization_counter ≢ 0
          → s.finalization_counter ≤ quiet_turns inputs
          → (run inputs s).0 ≡ true)
unfolding run quiet_turns
run_from [] s e = (refl, λ ne le. absurd (ground (arith, ne)))
run_from (i ∷ inputs) s e =
    let c = after_counts i s e in
    let rest = run_from inputs (after i s) c.0 in
    rw (turn_ends i s e, run)
      (elim (Bool-cases ((after i s).finalization_counter == 0)) [
        | inl z ↦ rw (z, run) ((c.1, λ ne le. refl))
        | inr n ↦
            rw (n, run) ((rest.0 ∙ c.1, λ ne le. rest.1 (λ z. ground arith) (ground (arith, c.2))))
      ])

-- Once the collector was told to end, it leaves its loop when as many turns as `finalization_counter`
-- says have removed nothing, whatever the other turns remove and the other threads do.
pub run_ends :
    (inputs : List Input) (s : Loop)
    → s.control.terminating ≡ true
    → s.finalization_counter ≢ 0
    → s.finalization_counter ≤ quiet_turns inputs
    → (run inputs s).0 ≡ true
run_ends inputs s e ne le = (run_from inputs s e).1 ne le

-- Once the collector was told to end, no turn wakes the threads that wait for a collection, also those
-- that waited before.
pub run_wakes_nobody :
    (inputs : List Input) (s : Loop)
    → s.control.terminating ≡ true
    → (run inputs s).1.control.notified ≡ s.control.notified
run_wakes_nobody inputs s e = (run_from inputs s e).0
