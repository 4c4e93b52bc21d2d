-- ===== src/Counter.antt =====
-- sgcl/priv/counter.h: counts of objects and bytes, two's complement words of 64 bits. The overflow of a
-- count, which C++ leaves undefined, wraps around here.
pub mod Laws
mod Tests
use sgcl.Base.{ℕ, ◌+◌, ◌-◌, ◌*◌, ◌/◌, ◌%◌, ◌^◌, Bool, ltb, if◌then◌else◌}

pub record Counter : Type 0 where
  pub count : ℕ
  pub size : ℕ

-- int64_t arithmetic on words.
abbrev pub word_add : ℕ → ℕ → ℕ
word_add a b = (a + b) % 2 ^ 64

abbrev pub word_sub : ℕ → ℕ → ℕ
word_sub a b = (a + 2 ^ 64 - b) % 2 ^ 64

abbrev pub word_mul : ℕ → ℕ → ℕ
word_mul a b = a * b % 2 ^ 64

-- Division by a positive number rounds towards zero.
abbrev pub word_div : ℕ → ℕ → ℕ
word_div a d = if ltb a (2 ^ 63) then a / d else (2 ^ 64 - (2 ^ 64 - a) / d) % 2 ^ 64

-- The signed order of words.
abbrev pub signed_ltb : ℕ → ℕ → Bool
signed_ltb a b = ltb (word_add a (2 ^ 63)) (word_add b (2 ^ 63))

-- operator+
unfoldable pub plus : Counter → Counter → Counter
plus a b = record { count = word_add a.count b.count; size = word_add a.size b.size }

-- operator-
unfoldable pub minus : Counter → Counter → Counter
minus a b = record { count = word_sub a.count b.count; size = word_sub a.size b.size }

-- operator+=
unfoldable pub add_assign : Counter → Counter → Counter
add_assign a b = record { count = word_add a.count b.count; size = word_add a.size b.size }

-- operator-=
pub sub_assign : Counter → Counter → Counter
sub_assign a b = record { count = word_add a.count b.count; size = word_add a.size b.size }

-- std::max and std::min
abbrev pub word_max : ℕ → ℕ → ℕ
word_max a b = if signed_ltb a b then b else a

abbrev word_min : ℕ → ℕ → ℕ
word_min a b = if signed_ltb b a then b else a

unfoldable pub max_counter : Counter → Counter → Counter
max_counter a b = record { count = word_max a.count b.count; size = word_max a.size b.size }

pub min_counter : Counter → Counter → Counter
min_counter a b = record { count = word_min a.count b.count; size = word_min a.size b.size }
