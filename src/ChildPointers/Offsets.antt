-- ===== src/ChildPointers/Offsets.antt =====
-- sgcl/priv/child_pointers.h and `_update_child_offsets`: the list of offsets and the bit map.
use mathlib.Core.List.{append-nil, append_assoc}
use sgcl.Base.{
  ℕ, zero, suc, ◌+◌, ◌*◌, ◌/◌, ◌%◌, ◌^◌, ◌≤◌, ◌≡◌, refl, sym, ap, ap₂, ◌∙◌, false, ◌==◌, ==→eq,
  if◌then◌else◌, some, List, [], ◌∷◌, ◌++◌, inl, inr, for_range, for_each, for_each-append,
  for_range-collect, arith, Bool-cases,
}
use sgcl.Base.Bits.{testbit, testbit-zero, has, has-pow}
use sgcl.ChildPointers.{
  ChildPointers, for_bit, for_byte, for_map, push_back, offsets_of, map_size, update_child_offsets,
}

for_bit-collect {ℓ} :
    {S : Type ℓ} (body : ℕ → S → S) (flags index i : ℕ) (os : List ℕ) (s : S)
    → for_each body (for_bit push_back flags index i os) s
      ≡ for_bit body flags index i (for_each body os s)
unfolding for_bit for_each
for_bit-collect body flags index i os s = elim (Bool-cases (has flags (2 ^ i))) [
  | inl set ↦ rw set (for_each-append body os _ s)
  | inr clear ↦ rw clear refl
]

for_byte-collect {ℓ} :
    {S : Type ℓ} (body : ℕ → S → S) (flags index : ℕ) (os : List ℕ) (s : S)
    → for_each body (for_byte push_back flags index os) s
      ≡ for_byte body flags index (for_each body os s)
unfolding for_byte
for_byte-collect body flags index os s = elim (Bool-cases (flags == 0)) [
  | inl z ↦ rw z refl
  | inr nz ↦ rw nz (for_range-collect body _ _ (for_bit-collect body flags index) 8 0 os s)
]

-- Running `body` at the collected offsets is running it over the map.
pub for_each-offsets_of {ℓ} :
    {S : Type ℓ} (body : ℕ → S → S) (map : ℕ → ℕ) (s : S)
    → for_each body (offsets_of map) s ≡ for_map body map s
unfolding for_map offsets_of for_each
for_each-offsets_of body map s =
    for_range-collect body _ _ (λ index os s. for_byte-collect body (map index) index os s) map_size
      0 [] s

-- Filling in the offsets keeps the map, and what is filled in is the list of the map.
pub update_child_offsets_lem :
    (c : ChildPointers)
    → ((update_child_offsets c).map ≡ c.map)
      × ((os : List ℕ)
          → ((os' : List ℕ) → c.offsets ≡ some os' → os' ≡ offsets_of c.map)
          → (update_child_offsets c).offsets ≡ some os
          → os ≡ offsets_of c.map)
unfolding update_child_offsets
update_child_offsets_lem c = (ground arith, λ os ok e. ground (arith, ok os))

-- The offsets of the words from `i` on, of `n`, whose bits are set, in order.
unfoldable pub word_offsets : (ℕ → ℕ) → ℕ → ℕ → List ℕ
word_offsets map zero i = []
word_offsets map (suc n) i =
    (if testbit (map (i / 8)) (i % 8) then (i * 8) ∷ [] else []) ++ word_offsets map n (i + 1)

word_offsets-add :
    (map : ℕ → ℕ) (n m i : ℕ)
    → word_offsets map (n + m) i ≡ word_offsets map n i ++ word_offsets map m (i + n)
unfolding word_offsets
word_offsets-add map zero m i =
    ap₂ (word_offsets map) (let e : 0 + m ≡ m = omega arith in e)
      (let e : i ≡ i + 0 = omega arith in e)
word_offsets-add map (suc n) m i =
    ap (λ k. word_offsets map k i) (let e : suc n + m ≡ suc (n + m) = omega arith in e)
    ∙ ap (λ l. (if testbit (map (i / 8)) (i % 8) then (i * 8) ∷ [] else []) ++ l)
        (word_offsets-add map n m (i + 1)
          ∙ ap (λ j. word_offsets map n (i + 1) ++ word_offsets map m j)
              (let e : i + 1 + n ≡ i + suc n = omega arith in e))
    ∙ sym (
        append_assoc (if testbit (map (i / 8)) (i % 8) then (i * 8) ∷ [] else [])
          (word_offsets map n (i + 1)) (word_offsets map m (i + suc n)))

-- A byte without a bit.
zero_byte :
    (map : ℕ → ℕ) (index n i : ℕ)
    → map index ≡ 0
    → i + n ≤ 8
    → word_offsets map n (index * 8 + i) ≡ []
unfolding word_offsets
zero_byte map index zero i z le = refl
zero_byte map index (suc n) i z le =
    let q : (index * 8 + i) / 8 ≡ index = omega arith in
    let b : testbit (map ((index * 8 + i) / 8)) ((index * 8 + i) % 8) ≡ false =
      ap (λ j. testbit (map j) ((index * 8 + i) % 8)) q
      ∙ ap (λ w. testbit w ((index * 8 + i) % 8)) z
      ∙ testbit-zero ((index * 8 + i) % 8) in
    let e : index * 8 + i + 1 ≡ index * 8 + (i + 1) = omega arith in
    rw b (ap (word_offsets map n) e ∙ zero_byte map index n (i + 1) z (omega arith))

bits-word_offsets :
    (map : ℕ → ℕ) (index n i : ℕ) (os : List ℕ)
    → i + n ≤ 8
    → for_range n i (for_bit push_back (map index) index) os
      ≡ os ++ word_offsets map n (index * 8 + i)
unfolding word_offsets for_range for_bit
bits-word_offsets map index zero i os le = sym (append-nil os)
bits-word_offsets map index (suc n) i os le =
    let q : (index * 8 + i) / 8 ≡ index = omega arith in
    let r : (index * 8 + i) % 8 ≡ i = omega arith in
    let b : has (map index) (2 ^ i) ≡ testbit (map ((index * 8 + i) / 8)) ((index * 8 + i) % 8) =
      has-pow (map index) i ∙ ap₂ (λ j k. testbit (map j) k) (sym q) (sym r) in
    let e : index * 8 + (i + 1) ≡ index * 8 + i + 1 = omega arith in
    bits-word_offsets map index n (i + 1) _ (omega arith)
    ∙ ap₂ (λ t j. (if t then push_back ((index * 8 + i) * 8) os else os) ++ word_offsets map n j) b
        e
    ∙ elim (Bool-cases (testbit (map ((index * 8 + i) / 8)) ((index * 8 + i) % 8))) [
      | inl t ↦ rw t (append_assoc os _ _)
      | inr f ↦ rw f refl
    ]

byte-word_offsets :
    (map : ℕ → ℕ) (index : ℕ) (os : List ℕ)
    → for_byte push_back (map index) index os ≡ os ++ word_offsets map 8 (index * 8)
unfolding for_byte
byte-word_offsets map index os =
    let e : index * 8 + 0 ≡ index * 8 = omega arith in
    elim (Bool-cases (map index == 0)) [
      | inl z ↦ rw z (
          sym (append-nil os)
          ∙ ap (λ l. os ++ l) (sym (zero_byte map index 8 0 (==→eq _ _ z) (omega arith)))
          ∙ ap (λ j. os ++ word_offsets map 8 j) e)
      | inr nz ↦ rw nz (
          bits-word_offsets map index 8 0 os (omega arith) ∙ ap (λ j. os ++ word_offsets map 8 j) e)
    ]

map-word_offsets :
    (map : ℕ → ℕ) (n i : ℕ) (os : List ℕ)
    → for_range n i (λ index s. for_byte push_back (map index) index s) os
      ≡ os ++ word_offsets map (n * 8) (i * 8)
unfolding for_range word_offsets
map-word_offsets map zero i os = sym (append-nil os)
map-word_offsets map (suc n) i os =
    let e : (i + 1) * 8 ≡ i * 8 + 8 = omega arith in
    let e' : 8 + n * 8 ≡ suc n * 8 = omega arith in
    map-word_offsets map n (i + 1) _
    ∙ ap₂ (λ l j. l ++ word_offsets map (n * 8) j) (byte-word_offsets map i os) e
    ∙ append_assoc os _ _
    ∙ ap (λ l. os ++ l) (sym (word_offsets-add map 8 (n * 8) (i * 8)))
    ∙ ap (λ k. os ++ word_offsets map k (i * 8)) e'

-- The list of offsets has the offset of each of the 512 words whose bit is set in the map, each once and
-- in order, and no other.
pub offsets_of_lem : (map : ℕ → ℕ) → offsets_of map ≡ word_offsets map 512 0
unfolding offsets_of for_map
offsets_of_lem map = map-word_offsets map 64 0 []
