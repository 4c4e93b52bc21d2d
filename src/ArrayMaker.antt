-- ===== src/ArrayMaker.antt =====
-- sgcl/priv/maker.h, `Maker_base::_make_array`: the size class of an array, and sgcl/priv/array.h.
pub mod Capacity
mod Tests
use sgcl.Base.{
  ℕ, zero, suc, ◌+◌, ◌-◌, ◌*◌, ◌/◌, ◌%◌, ◌^◌, max, Bool, true, false, ◌&&◌, leb, ltb, Option, none,
  some,
}
use sgcl.Types.{word_size, page_data_size}
use sgcl.Heap.{array_base_size}

-- sizeof(Array<n>), aligned as the pointer in Array_base is.
pub array_size : ℕ → ℕ
array_size n = (array_base_size + n + word_size - 1) / word_size * word_size

-- The type that is made: `Array<n>` in a page, or `Array<>` with `extra` bytes behind it.
pub data Made : Type 0 where
  fixed : ℕ → Made
  large : ℕ → Made

-- sizeof(Array<>)
abbrev pub default_array_size : ℕ
default_array_size = 24

-- At the template argument `n`, for `bytes` of elements; `fuel` bounds the recursion of the template.
pub make_class : ℕ → ℕ → ℕ → Option Made
make_class zero n bytes = none
make_class (suc fuel) n bytes = elim (leb bytes n && leb (array_size n) page_data_size) [
  | true ↦ some (fixed n)
  | false ↦ elim (ltb (array_size n) page_data_size) [
    | true ↦ make_class fuel (max (n * 3 / 2) (n + 1)) bytes
    | false ↦ elim (leb bytes (page_data_size - array_base_size)) [
      | true ↦ some (fixed (page_data_size - array_base_size))
      | false ↦ some (large ((bytes + array_base_size + 2 ^ 64 - default_array_size) % 2 ^ 64))
    ]
  ]
]

pub make_array : ℕ → ℕ → Option Made
make_array count object_size = make_class 4096 1 (object_size * count % 2 ^ 64)
