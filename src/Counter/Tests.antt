-- ===== src/Counter/Tests.antt =====
-- Two counters.
use sgcl.Base.{◌*◌, ◌%◌, ◌^◌, ◌≡◌, ◌↔◌, arith}
use sgcl.Counter.{Counter, plus, minus, sub_assign}
use sgcl.Counter.Laws.{IsWord, plus-minus, sub_assign_lem}

abbrev five : Counter
five = record { count = 5; size = 80 }

abbrev two : Counter
two = record { count = 2; size = 96 }

five-IsWord : IsWord five
five-IsWord = record { count = omega arith; size = omega arith }

two-IsWord : IsWord two
two-IsWord = record { count = omega arith; size = omega arith }

plus-minus_example : (minus (plus five two) two ≡ five) × (plus (minus five two) two ≡ five)
plus-minus_example = plus-minus five two five-IsWord two-IsWord

sub_assign_lem_example :
    (sub_assign five two ≡ minus five two) ↔ ((2 * 2 % 2 ^ 64 ≡ 0) × (96 * 2 % 2 ^ 64 ≡ 0))
sub_assign_lem_example = sub_assign_lem five two five-IsWord two-IsWord
