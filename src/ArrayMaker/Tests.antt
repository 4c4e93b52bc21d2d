-- ===== src/ArrayMaker/Tests.antt =====
-- Ten elements of 8 bytes, and two counts that differ by 2 ^ 61.
use sgcl.Base.{◌+◌, ◌^◌, ◌≡◌, refl}
use sgcl.ArrayMaker.{make_array}
use sgcl.ArrayMaker.Capacity.{make_array_wraps}

make_array_wraps_example : make_array (1 + 2 ^ 61) 8 ≡ make_array 1 8
make_array_wraps_example = make_array_wraps 1 8 (2 ^ 61) refl
