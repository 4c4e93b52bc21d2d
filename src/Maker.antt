-- ===== src/Maker.antt =====
-- sgcl/priv/maker.h, `Construct` and `Maker::_make`, with the constructor of `Tracked_ptr` and
-- `Thread::Range_guard`: how an object is made, and what is left if its constructor throws. The allocator
-- gives `mem`, the place of the object.
pub mod Ends
pub mod Guard
pub mod Registers
mod Tests
use sgcl.Base.{
  ℕ, ◌+◌, ◌-◌, ◌^◌, Bool, true, false, not, ◌&&◌, leb, ◌==◌, if◌then◌else◌, Option, none, some,
  update,
}
use sgcl.State
use sgcl.Types.{word_size}
use sgcl.Page.{Store, set_state}
use sgcl.ChildPointers.{ChildPointers, register_pointer}
use sgcl.Counter.{Counter, word_add}

-- The memory, the table of each type, `child_pointers` of the thread, whose map is that of a type, and the
-- counters of the thread's data.
pub record Making : Type 0 where
  pub store : Store
  pub words : ℕ → ℕ
  pub tables : ℕ → ChildPointers
  pub child_base : ℕ
  pub child_map : Option ℕ
  pub allocated : Counter

-- How a constructor ends; `invalid` is the access through a null map.
pub data Outcome : Type 0 where
  returned : Outcome
  thrown : Outcome
  invalid : Outcome

-- What a constructor does: pointers are constructed at addresses, objects of other types are made at
-- places that the allocator gives, and it returns or throws.
pub data Body : Type 0 where
  done : Body
  throws : Body
  member : ℕ → Body → Body
  makes : ℕ → ℕ → ℕ → Body → Body → Body

-- The constructor of `Tracked_ptr` at `this`, whose word is set to ones or zeros before: in the first object of
-- a type it is registered in the map of `child_pointers`.
unfoldable pub register : Option ℕ → ℕ → Making → Outcome × Making
register none this m = (invalid, m)
register (some t) this m = (
  returned,
  record m {
    tables =
        update m.tables t
          (record (m.tables t) { map = register_pointer this m.child_base (m.tables t).map });
    words = update m.words this 0;
  },
)

unfoldable pub construct_pointer : ℕ → Making → Outcome × Making
construct_pointer this m = if m.words this == 0 then (returned, m) else register m.child_map this m

-- `memset`, for the words that lie in the place.
unfoldable pub fill : ℕ → ℕ → ℕ → Making → Making
fill mem size value m = record m {
  words = λ x. if leb mem x && leb (x + word_size) (mem + size) then value else m.words x;
}

-- `Range_guard`, whose destructor puts the old pointers back.
unfoldable pub use_child_pointers : ℕ → Option ℕ → Making → Making
use_child_pointers base map m = record m { child_base = base; child_map = map }

abbrev pub set_place : ℕ → ℕ → Making → Making
set_place p state m = record m { store = set_state m.store p state }

-- What follows on how a constructor ended: `catch (...)` of `Construct`, the end of the first construction
-- with the destructor of `Range_guard`, the counting, and the rest of a constructor.
unfoldable pub catch_all : ℕ → Outcome × Making → Outcome × Making
catch_all p (returned, m) = (returned, m)
catch_all p (thrown, m) = (thrown, set_place p State.bad_alloc m)
catch_all p (invalid, m) = (invalid, m)

unfoldable pub leave_first : ℕ → Making → Outcome × Making → Outcome × Making
leave_first t old (returned, m) = (
  returned,
  use_child_pointers old.child_base old.child_map
      (record m { tables = update m.tables t (record (m.tables t) { final = true }) }),
)
leave_first t old (thrown, m) = (thrown, use_child_pointers old.child_base old.child_map m)
leave_first t old (invalid, m) = (invalid, use_child_pointers old.child_base old.child_map m)

unfoldable pub update_allocated : ℕ → Outcome × Making → Outcome × Making
update_allocated size (returned, m) = (
  returned,
  record m {
    allocated = record {
      count = word_add m.allocated.count 1;
      size = word_add m.allocated.size size;
    };
  },
)
update_allocated size (thrown, m) = (thrown, m)
update_allocated size (invalid, m) = (invalid, m)

unfoldable pub and_then : Outcome × Making → (Making → Outcome × Making) → Outcome × Making
and_then (returned, m) rest = rest m
and_then (thrown, m) rest = (thrown, m)
and_then (invalid, m) rest = (invalid, m)

-- `Construct`
unfoldable pub construct : (Making → Outcome × Making) → ℕ → Making → Outcome × Making
construct ctor p m = catch_all p (ctor (set_place p State.unique_lock m))

-- The two branches of `_make`.
unfoldable pub make_first : ℕ → ℕ → ℕ → (Making → Outcome × Making) → Making → Outcome × Making
make_first t mem size ctor m =
    leave_first t m
      (construct ctor mem (use_child_pointers mem (some t) (fill mem size (2 ^ 64 - 1) m)))

unfoldable pub make_later : ℕ → ℕ → (Making → Outcome × Making) → Making → Outcome × Making
make_later mem size ctor m = construct ctor mem (fill mem size 0 m)

-- `_make` for the type with the table `t`, of objects of `size` bytes.
unfoldable pub make : ℕ → ℕ → ℕ → (Making → Outcome × Making) → Making → Outcome × Making
make t mem size ctor m =
    update_allocated size
      (if not (m.tables t).final then make_first t mem size ctor m else make_later mem size ctor m)

-- The constructor runs.
unfoldable pub run : Body → Making → Outcome × Making
run done m = (returned, m)
run throws m = (thrown, m)
run (member this b) m = and_then (construct_pointer this m) (run b)
run (makes t mem size inner b) m = and_then (make t mem size (run inner) m) (run b)
