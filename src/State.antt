-- ===== src/State.antt =====
-- sgcl/priv/types.h, `enum State`. A state is kept in one byte and compared as a number. Between
-- `reachable` and `reachable_atomic` lie the values that the collector counts down through.
use Prim.Native.Nat.{ℕ}

abbrev pub used : ℕ
used = 0

abbrev pub reachable : ℕ
reachable = 1

abbrev pub reachable_atomic : ℕ
reachable_atomic = 4

abbrev pub unique_lock : ℕ
unique_lock = 5

abbrev pub destroyed : ℕ
destroyed = 6

abbrev pub bad_alloc : ℕ
bad_alloc = 7

abbrev pub reserved : ℕ
reserved = 8

abbrev pub unused : ℕ
unused = 9
