-- ===== src/Maker/Tests.antt =====
-- An object with two pointers, whose constructor makes another object between them and then throws.
use sgcl.Base.{
  ℕ, ◌+◌, ◌-◌, ◌*◌, ◌%◌, ◌≤◌, ◌<◌, ◌≡◌, refl, arith, true, false, ltb, ◌||◌, none, [], ◌∷◌,
}
use sgcl.Base.Lists.{occurs}
use sgcl.Types.{word_size}
use sgcl.State
use sgcl.Maker.Registers.{members, map_bit, first_registers}
use sgcl.Page.{Metadata, create, state_of, set_state, page_of, page_start, index_of}
use sgcl.ChildPointers.{register_pointer}
use sgcl.Maker.{
  Making, returned, thrown, Body, done, throws, member, makes, make, run, update_allocated,
  make_first, make_later, leave_first, construct, catch_all, and_then, construct_pointer,
  use_child_pointers, fill, register,
}
use sgcl.Maker.Ends.{Ends}
use sgcl.Maker.Guard.{returns, made_count, made_bytes, make_lem}

abbrev metadata : Metadata
metadata = record {
  address = 64;
  child_pointers = 0;
  has_destroy = false;
  object_size = 24;
  object_count = 170;
  is_array = false;
}

-- One page with its data at 65544.
abbrev start : Making
start = record {
  store = record { header = λ _. 512; page = λ _. create metadata 0 65544 };
  words = λ _. 0;
  tables = λ _. record { offsets = none; map = λ _. 0; final = false };
  child_base = 0;
  child_map = none;
  allocated = record { count = 5; size = 100 };
}

abbrev body : Body
body = member 65544 (makes 1 65568 24 (member 65568 done) (member 65552 throws))

thrown_state :
    let r = make 0 65544 24 (run body) start in
    (r.0 ≡ thrown)
    × (state_of r.1.store 65544 ≡ State.bad_alloc)
    × (state_of r.1.store 65568 ≡ State.unique_lock)
    × (((r.1.tables 0).map 0) ≡ 3)
    × ((r.1.tables 0).final ≡ false)
    × ((r.1.tables 1).final ≡ true)
    × (r.1.child_map ≡ none)
    × (r.1.allocated.count ≡ 6)
unfolding make run state_of update_allocated make_first leave_first construct catch_all and_then
    construct_pointer use_child_pointers fill register set_state page_of page_start index_of create
    register_pointer make_later
thrown_state = (refl, refl, refl, refl, refl, refl, refl, refl)

make_lem_example :
    let r = make 0 65544 24 (run body) start in
    Ends start
      (made_count (makes 0 65544 24 body done))
      (made_bytes (makes 0 65544 24 body done))
      (returns body)
      r
    × (r.0 ≡ thrown → state_of r.1.store 65544 ≡ State.bad_alloc)
make_lem_example = make_lem 0 65544 24 body start

places :
    (x : ℕ)
    → 0 < occurs x (65544 ∷ 65560 ∷ [])
    → (65544 ≤ x) × (x + word_size ≤ 65544 + 24) × ((x - 65544) % 8 ≡ 0)
unfolding occurs
places x lt = ground arith

places_once : (x : ℕ) → occurs x (65544 ∷ 65560 ∷ []) ≤ 1
unfolding occurs
places_once x = ground arith

first_registers_example :
    let r = make 0 65544 24 (run (members (65544 ∷ 65560 ∷ []))) start in
    (r.0 ≡ returned)
    × ((r.1.tables 0).final ≡ true)
    × ((k : ℕ)
        → map_bit (r.1.tables 0).map k
          ≡ map_bit (start.tables 0).map k || ltb 0 (occurs (65544 + k * 8) (65544 ∷ 65560 ∷ [])))
first_registers_example =
    first_registers 0 65544 24 (65544 ∷ 65560 ∷ []) start refl (omega arith) places places_once
