-- ===== src/Collector/Loop/Polls.antt =====
-- sgcl/priv/collector.h, `_main_loop`: the tests of `_forced_collect_count`, and a turn that its first test
-- ends.
use sgcl.Base.{
  ℕ, ◌+◌, ◌*◌, ltb, ◌≡◌, refl, sym, ap, ap₂, ◌∙◌, arith, Bool, true, false, not, ◌||◌, ◌==◌,
  if◌then◌else◌, Bool-cases, inl, inr, Option, none, some, List, ◌∷◌,
}
use sgcl.Types.{max_sleep_time}
use sgcl.Counter.{Counter}
use sgcl.Collector.Loop.{
  Control, force_collect, answer, notify, request, take_forced, Turn, is_triggered, is_due, poll,
  act, Poll, Waiting, recount, wait, Loop, Input, shift_removed, count_turn, end_turn, turn,
}

-- A test, by its parts.
poll_decides :
    (duration : ℕ) (t : Turn) (c : Control) (f : Bool × Control)
    → c.terminating ≡ false
    → take_forced c ≡ f
    → poll duration t c ≡ (if f.0 then f else (is_triggered t || is_due duration t, f.1))
unfolding poll
poll_decides duration t c f n e =
    ap₂
      (λ b (f : Bool × Control).
        if b then (true, c) else if f.0 then f else (is_triggered t || is_due duration t, f.1))
      n e

abbrev pub counted : ℕ → Control → Control
counted n c = record c { forced_collect_count = n }

-- What is shared when one turn is left to do.
abbrev last_turn : Control → Control
last_turn c = if not (c.live_objects_ref == 0) then request (counted 1 c) else counted 1 c

take_forced_three : (c : Control) → take_forced (counted 3 c) ≡ (true, counted 2 c)
unfolding take_forced
take_forced_three c = refl

take_forced_two : (c : Control) → take_forced (counted 2 c) ≡ (true, last_turn c)
unfolding take_forced
take_forced_two c = refl

take_forced_one : (c : Control) → take_forced (counted 1 c) ≡ (false, notify (answer (counted 0 c)))
unfolding take_forced
take_forced_one c = refl

pub force_collect_count :
    (wait : Bool) (c : Control) → c.terminating ≡ false → force_collect wait c ≡ counted 3 c
unfolding force_collect
force_collect_count true c n = ap (λ b. if b then c else counted 3 c) n
force_collect_count false c n = refl

pub answer_count :
    (c : Control)
    → ((answer c).forced_collect_count ≡ c.forced_collect_count)
      × ((answer c).notified ≡ c.notified)
unfolding answer
answer_count c = (ground arith, ground arith)

-- The tests from three, two and one turns that are left.
pub poll_three :
    (d : ℕ) (t : Turn) (c : Control)
    → c.terminating ≡ false
    → poll d t (counted 3 c) ≡ (true, counted 2 c)
poll_three d t c n = poll_decides d t (counted 3 c) _ n (take_forced_three c)

-- The turn that comes is asked for its live objects, if a thread waits for them.
abbrev pub asked : Control → Control
asked c = if not (c.live_objects_ref == 0) then request c else c

last_turn-counted : (c : Control) → last_turn c ≡ counted 1 (asked c)
last_turn-counted c = elim (Bool-cases (not (c.live_objects_ref == 0))) [
  | inl t ↦
      ap (λ b. if b then request (counted 1 c) else counted 1 c) t
      ∙ ap (λ b. counted 1 (if b then request c else c)) (sym t)
  | inr f ↦
      ap (λ b. if b then request (counted 1 c) else counted 1 c) f
      ∙ ap (λ b. counted 1 (if b then request c else c)) (sym f)
]

pub poll_two :
    (d : ℕ) (t : Turn) (c : Control)
    → c.terminating ≡ false
    → poll d t (counted 2 c) ≡ (true, counted 1 (asked c))
poll_two d t c n =
    poll_decides d t (counted 2 c) _ n (take_forced_two c)
    ∙ ap (λ (r : Control). (true, r)) (last_turn-counted c)

pub poll_one :
    (d : ℕ) (t : Turn) (c : Control)
    → c.terminating ≡ false
    → (poll d t (counted 1 c)).1 ≡ notify (answer (counted 0 c))
poll_one d t c n =
    ap (λ (r : Bool × Control). r.1) (poll_decides d t (counted 1 c) _ n (take_forced_one c))

pub woken :
    (d : ℕ) (t : Turn) (c : Control)
    → c.terminating ≡ false
    → ((poll d t (counted 1 c)).1.notified ≡ c.notified + 1)
      × ((poll d t (counted 1 c)).1.forced_collect_count ≡ 0)
woken d t c n =
    let e = poll_one d t c n in
    let a = answer_count (counted 0 c) in
    (
      ap (λ (r : Control). r.notified) e ∙ ap (λ m. m + 1) a.1,
      ap (λ (r : Control). r.forced_collect_count) e ∙ a.0,
    )

-- The state after a turn that its first test ends.
abbrev pub left_at : Input → Loop → Control → Loop
left_at i s c =
    end_turn
      (record (shift_removed i.last_removed s) {
        live_objects_number = (count_turn i s).live.count;
      })
      (record { turn = count_turn i s; control = c })

wait_leaves :
    (allocated removed : Counter) (p : Poll) (polls : List Poll) (w : Waiting) (c : Control)
    → poll p.duration w.turn (act p.before w.control) ≡ (true, c)
    → wait allocated removed (p ∷ polls) w ≡ some (record w { control = c })
unfolding wait
wait_leaves allocated removed p polls w c e =
    let t = recount allocated removed p.allocated w.turn in
    ap
      (λ (r : Bool × Control).
        if r.0
        then some (record w { control = r.1 })
        else if (t.live.count == 0) || ltb p.later (max_sleep_time * 1000)
        then wait allocated removed polls (record { turn = t; control = r.1 })
        else some (record { turn = t; control = r.1 }))
      e

pub turn_leaves :
    (i : Input) (s : Loop) (c : Control)
    → poll i.first.duration (count_turn i s) (act i.first.before s.control) ≡ (true, c)
    → turn i s ≡ some (left_at i s c)
unfolding turn
turn_leaves i s c e =
    let s' = record (shift_removed i.last_removed s) {
      live_objects_number = (count_turn i s).live.count;
    } in
    ap (λ o. elim o as (λ _. Option Loop) [ some w ↦ some (end_turn s' w) | none ↦ none ])
      (wait_leaves s.allocated s.removed i.first i.polls
        (record { turn = count_turn i s; control = s.control }) c e)
