-- ===== src/ArrayMaker/Capacity.antt =====
-- sgcl/priv/maker.h, `_make_array`: the array that is made has room for its elements.
use native.Mathlib.Nat.{mul-add}
use sgcl.Base.{ℕ, ◌+◌, ◌-◌, ◌*◌, ◌%◌, ◌^◌, ◌≤◌, ◌≡◌, ap, arith, Option, some}
use sgcl.Types.{page_data_size}
use sgcl.Heap.{array_base_size}
use sgcl.ArrayMaker.{array_size, Made, fixed, large, default_array_size, make_class, make_array}

-- The bytes of an array's elements, and what of it lies in a page.
pub capacity : Made → ℕ
capacity (fixed n) = n
capacity (large extra) = default_array_size + extra - array_base_size

pub page_bytes : Made → ℕ
page_bytes (fixed n) = array_size n
page_bytes (large extra) = 0

-- What a call gives.
abbrev pub Fits : ℕ → Option Made → Type 0
Fits bytes r = (m : Made) × (r ≡ some m) × (bytes ≤ capacity m) × (page_bytes m ≤ page_data_size)

-- Where the product of the count and the element size passes the range of `size_t`, the room does not
-- depend on it: a count and one that is greater by 2 ^ 64 / `object_size` are given the same array.
pub make_array_wraps :
    (count object_size k : ℕ)
    → object_size * k ≡ 2 ^ 64
    → make_array (count + k) object_size ≡ make_array count object_size
unfolding make_array
make_array_wraps count object_size k e = ap (make_class 4096 1) (
    let d : object_size * (count + k) % 2 ^ 64 ≡ object_size * count % 2 ^ 64 =
      omega (arith, mul-add object_size count k) in
    d)
