-- ===== src/ChildPointers.antt =====
-- sgcl/priv/child_pointers.h, with the loops of sgcl/priv/collector.h that read it and the line of
-- sgcl/priv/tracked_ptr.h that fills it: where the pointers of an object of a type lie, first as a
-- bit map that the first construction fills, then as a list of offsets.
pub mod Offsets
mod Tests
use Prim.Native.Nat.{bit_or}
use sgcl.Base.{
  ℕ, ◌+◌, ◌-◌, ◌*◌, ◌/◌, ◌%◌, ◌^◌, Bool, true, false, ◌==◌, if◌then◌else◌, update, Option, none,
  some, List, [], ◌∷◌, ◌++◌, for_range,
}
use sgcl.Base.Bits.{has}
use sgcl.Types.{word_size, max_type_number}

-- `Child_pointers`: `map` is an array of bytes.
pub record ChildPointers : Type 0 where
  pub offsets : Option (List ℕ)
  pub map : ℕ → ℕ
  pub final : Bool

-- The bytes of a map, MaxTypeNumber / sizeof(Pointer) / 8.
abbrev pub map_size : ℕ
map_size = max_type_number / word_size / 8

-- The rounds of the inner loop: bit `i` of byte `index` stands for the pointer at that word.
pub for_bit {ℓ} : {S : Type ℓ} → (ℕ → S → S) → ℕ → ℕ → ℕ → S → S
for_bit body flags index i s = if has flags (2 ^ i) then body ((index * 8 + i) * word_size) s else s

-- One byte of a map, whose bits are looked at if one is set.
pub for_byte {ℓ} : {S : Type ℓ} → (ℕ → S → S) → ℕ → ℕ → S → S
for_byte body flags index s = if flags == 0 then s else for_range 8 0 (for_bit body flags index) s

-- The loop over a map that the collector writes out for marking, for clearing and for collecting the
-- offsets: `body` runs at the offset of each set bit.
unfoldable pub for_map {ℓ} : {S : Type ℓ} → (ℕ → S → S) → (ℕ → ℕ) → S → S
unfolding for_byte for_bit
for_map body map s = for_range map_size 0 (λ index s. for_byte body (map index) index s) s

-- `emplace_back`
abbrev pub push_back : ℕ → List ℕ → List ℕ
push_back o os = os ++ o ∷ []

unfoldable pub offsets_of : (ℕ → ℕ) → List ℕ
offsets_of map = for_map push_back map []

pub update_child_offsets : ChildPointers → ChildPointers
update_child_offsets c = elim c.offsets [
  | none ↦ if c.final then record c { offsets = some (offsets_of c.map) } else c
  | some _ ↦ c
]

-- The constructor of `Tracked_ptr` at address `this`, in an object of the type at `base`.
unfoldable pub register_pointer : ℕ → ℕ → (ℕ → ℕ) → ℕ → ℕ
register_pointer this base map =
    let offset = (this + 2 ^ 64 - base) % 2 ^ 64 / word_size in
    update map (offset / 8) (bit_or (map (offset / 8)) (2 ^ (offset % 8)))
