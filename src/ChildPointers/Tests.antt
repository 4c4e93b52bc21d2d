-- ===== src/ChildPointers/Tests.antt =====
-- A type with pointers in its first and third word.
use sgcl.Base.{ℕ, ◌≡◌, if◌then◌else◌, ◌==◌, [], ◌∷◌}
use sgcl.Base.Bits.{testbit}
use sgcl.ChildPointers.{offsets_of}
use sgcl.ChildPointers.Offsets.{word_offsets, offsets_of_lem}

abbrev two_pointers : ℕ → ℕ
two_pointers index = if index == 0 then 5 else 0

two_offsets : offsets_of two_pointers ≡ 0 ∷ 16 ∷ []
unfolding word_offsets testbit
two_offsets = offsets_of_lem two_pointers

offsets_of_lem_example : offsets_of two_pointers ≡ word_offsets two_pointers 512 0
offsets_of_lem_example = offsets_of_lem two_pointers
