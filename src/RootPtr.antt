-- ===== src/RootPtr.antt =====
-- sgcl/root_ptr.h: a root pointer owns a word, from the pools of heap roots if it lies outside the stack, and
-- else the one that mirrors its place. Bit 0 of `_ref` says which. The overloads that differ in the type of
-- the pointer only are one function, and a thread's operations come one after the other.
pub mod Words
pub mod Valid
pub mod Construct
pub mod Variable
pub mod Moves
mod Tests
use Prim.Native.Nat.{bit_and, bit_or}
use sgcl.Base.{
  ℕ, ◌+◌, ◌-◌, ◌%◌, ◌^◌, Bool, not, ◌&&◌, ◌==◌, if◌then◌else◌, Option, none, some, update,
}
use sgcl.Base.Bits.{complement, has}
use sgcl.Types.{stack_detection_offset}
use sgcl.Counter.{signed_ltb}
use sgcl.HeapRoots.{Roots}
use sgcl.HeapRoots
use sgcl.StackRoots.{Stack}
use sgcl.StackRoots
use sgcl.TrackedPtr.{Memory}
use sgcl.TrackedPtr

-- HeapRootFlag
abbrev pub heap_root_flag : ℕ
heap_root_flag = 1

unfoldable pub set_flag : ℕ → ℕ → ℕ
set_flag p f = bit_or p f

unfoldable pub remove_flags : ℕ → ℕ
remove_flags p = bit_and p (complement 64 heap_root_flag)

-- What a thread's root pointers work on: `refs` has the `_ref` of the root pointer at each address, and
-- `terminated` is that of the collector.
pub record Thread : Type 0 where
  pub memory : Memory
  pub heap_roots : Roots
  pub stack_roots : Stack
  pub refs : ℕ → ℕ
  pub terminated : Bool

-- Where the stack is in a call, and what `new` returns for a page of heap roots and of stack roots.
pub record Call : Type 0 where
  pub stack_address : ℕ
  pub node : ℕ
  pub fresh : ℕ

unfoldable pub stack_detected : Call → ℕ → Bool
stack_detected c this =
    let offset = (this + 2 ^ 64 - c.stack_address) % 2 ^ 64 in
    signed_ltb (2 ^ 64 - stack_detection_offset) offset && signed_ltb offset stack_detection_offset

-- `_is_heap_root` and `_ptr`
unfoldable pub is_heap_root : ℕ → Thread → Bool
is_heap_root this s = has (s.refs this) heap_root_flag

unfoldable pub ptr : ℕ → Thread → ℕ
ptr this s = remove_flags (s.refs this)

abbrev pub set_ref : ℕ → ℕ → Thread → Thread
set_ref this r s = record s { refs = update s.refs this r }

-- The constructor without a pointer.
unfoldable pub construct : Call → ℕ → Thread → Thread
construct c this s =
    let h = HeapRoots.alloc c.node s.heap_roots in
    let t = StackRoots.alloc c.fresh this s.stack_roots in
    if not (stack_detected c this)
    then record (set_ref this (set_flag h.0 heap_root_flag) s) { heap_roots = h.1 }
    else record (set_ref this t.0 s) { stack_roots = t.1 }

-- `get`, which is an access through null, and has no result, if the pointer has no word.
unfoldable pub get : ℕ → Thread → Option ℕ
get this s = if ptr this s == 0 then none else some (TrackedPtr.load (ptr this s) s.memory)

-- Assigning a pointer that is no unique one.
unfoldable pub assign : ℕ → ℕ → Thread → Option Thread
assign this p s =
    if ptr this s == 0
    then none
    else some (record s { memory = TrackedPtr.store (ptr this s) p s.memory })

pub reset : ℕ → Thread → Option Thread
reset this s = assign this 0 s

-- Assigning what a unique pointer released.
unfoldable pub assign_unique : ℕ → ℕ → Thread → Option Thread
assign_unique this p s =
    if ptr this s == 0
    then none
    else some (record s { memory = TrackedPtr.force_store (ptr this s) p s.memory })

-- Construction from a pointer, from a unique pointer and from another root pointer.
unfoldable pub from_pointer : Call → ℕ → ℕ → Thread → Option Thread
from_pointer c this p s = assign this p (construct c this s)

unfoldable pub from_unique : Call → ℕ → ℕ → Thread → Option Thread
from_unique c this p s = assign_unique this p (construct c this s)

unfoldable pub copy : Call → ℕ → ℕ → Thread → Option Thread
copy c this that s = elim (get that s) [ some p ↦ from_pointer c this p s | none ↦ none ]

-- Construction from a root pointer `that` that is moved and points to `p`. Its word goes along if neither is
-- on the stack; else `p` is stored in a new word, at the address that the allocator returns as it is.
unfoldable pub move_from : Call → ℕ → ℕ → ℕ → Thread → Thread
move_from c this that p s =
    let h = HeapRoots.alloc c.node s.heap_roots in
    let t = StackRoots.alloc c.fresh this s.stack_roots in
    if not (stack_detected c this)
    then if is_heap_root that s
      then set_ref that 0 (set_ref this (s.refs that) s)
      else record (set_ref this (set_flag h.0 heap_root_flag) s) {
        memory = TrackedPtr.store h.0 p s.memory;
        heap_roots = h.1;
      }
    else record (set_ref this t.0 s) { memory = TrackedPtr.store t.0 p s.memory; stack_roots = t.1 }

unfoldable pub move : Call → ℕ → ℕ → Thread → Option Thread
move c this that s = elim (get that s) [ some p ↦ some (move_from c this that p s) | none ↦ none ]

-- The destructor, which frees `_ref` with its flag.
unfoldable pub destroy : ℕ → Thread → Thread
destroy this s =
    let s' = record s { memory = TrackedPtr.store (ptr this s) 0 s.memory } in
    if s.refs this == 0
    then s
    else if is_heap_root this s && not s.terminated
    then record s' { heap_roots = HeapRoots.free (s.refs this) s'.heap_roots }
    else s'
