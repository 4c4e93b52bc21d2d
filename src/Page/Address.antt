-- ===== src/Page/Address.antt =====
-- sgcl/priv/page.h, `page_of`, `index_of`, `pointer_of` and `base_address_of`: a pointer to any
-- byte of an object leads to the object's page, its index and its first byte.
use Prim.Native.Nat.{bit_or}
use native.Mathlib.Nat.{
  div-mul-le_self, lt-div-mul-add, mul-le-mul, mul-le-mul_left, mul-le-mul_right,
  lt_of_mul-lt-mul_right, div-le_self,
}
use native.Mathlib.Decide.{dec_lt}
use sgcl.Base.{ℕ, ◌+◌, ◌-◌, ◌*◌, ◌/◌, ◌%◌, ◌^◌, ◌≤◌, ◌<◌, max, ◌≡◌, ap, ◌∙◌, sym, arith}
use sgcl.Base.Bits.{bit_and-complement}
use sgcl.Types.{word_size, page_size, page_data_size}
use sgcl.Page.{
  Metadata, Page, Store, create, object_count_of, index_of, pointer_of, page_start, page_of,
  base_address_of,
}

-- The addresses of a small-object page: the data area fills the page behind the header word.
pub record IsPlaced (p : Page) : Type 0 where
  pub size_pos : 0 < p.metadata.object_size
  pub size_le : p.metadata.object_size ≤ page_data_size
  pub count : p.metadata.object_count ≡ object_count_of p.metadata.object_size
  pub factor : p.multiplier ≡ bit_or (2 ^ 32) 0x10000 / p.metadata.object_size
  pub behind_header : p.data_address % page_size ≡ word_size
  pub in_space : p.data_address + page_data_size ≤ 2 ^ 64

-- A page that the constructor makes at such an address is placed.
pub create-IsPlaced :
    (m : Metadata) (block address : ℕ)
    → 0 < m.object_size
    → m.object_size ≤ page_data_size
    → m.object_count ≡ object_count_of m.object_size
    → address % page_size ≡ word_size
    → address + page_data_size ≤ 2 ^ 64
    → IsPlaced (create m block address)
unfolding create
create-IsPlaced m block address pos le c b i = record {
  size_pos = pos;
  size_le = le;
  count = c;
  factor = omega arith;
  behind_header = b;
  in_space = i;
}

-- The quotient is determined by its bounds.
quotient : (x q : ℕ) → q * 2 ^ 32 ≤ x → x < (q + 1) * 2 ^ 32 → x / 2 ^ 32 ≡ q
quotient x q lo hi = omega arith

-- Multiplication by the scaled reciprocal of `s` is division by `s`, for offsets within a page.
reciprocal :
    (s off : ℕ) → 0 < s → s < 65536 → off < 65536 → off * ((2 ^ 32 + 65536) / s) / 2 ^ 32 ≡ off / s
reciprocal s off pos small lt = quotient _ _ lo (lt_of_mul-lt-mul_right s hi)
  where
    m : ℕ
    m = (2 ^ 32 + 65536) / s

    q : ℕ
    q = off / s

    unit : 2 ^ 32 ≤ m * s
    unit = omega (arith, lt-div-mul-add {a = 2 ^ 32 + 65536} pos)

    lo : q * 2 ^ 32 ≤ off * m
    lo = omega (arith, mul-le-mul_left q unit, mul-le-mul_right m (div-mul-le_self off s))

    hi : off * m * s < (q + 1) * 2 ^ 32 * s
    hi = omega (
      arith,
      mul-le-mul_left off (div-mul-le_self (2 ^ 32 + 65536) s),
      lt-div-mul-add {a = off} pos,
    )

-- `index_of` of an address at offset `off` of the data area is the number of whole objects before it.
pub index_of-data :
    (p : Page) (off : ℕ)
    → IsPlaced p
    → off < page_data_size
    → index_of p (p.data_address + off) ≡ off / p.metadata.object_size
unfolding index_of
index_of-data p off v lt = rw (shift, v.factor) (omega (arith, fits, whole, recip))
  where
    s : ℕ
    s = p.metadata.object_size

    shift : (p.data_address + off + 2 ^ 64 - p.data_address) % 2 ^ 64 ≡ off
    shift = omega arith

    fits : off * ((2 ^ 32 + 65536) / s) ≤ 4096 * (2 ^ 32 + 65536)
    fits = mul-le-mul {n₁ = off} {n₂ = 4096} (omega arith) (div-le_self (2 ^ 32 + 65536) s)

    whole : off / s ≤ off
    whole = div-le_self off s

    recip : off * ((2 ^ 32 + 65536) / s) / 2 ^ 32 ≡ off / s
    recip = reciprocal s off v.size_pos (omega arith) (omega arith)

-- `page_of` reads the header word of the page that holds the address.
pub page_start-data :
    (p : Page) (off : ℕ)
    → IsPlaced p
    → off < page_data_size
    → page_start (p.data_address + off) + word_size ≡ p.data_address
unfolding page_start
page_start-data p off v lt = omega (
  arith,
  bit_and-complement 12 64 (p.data_address + off) (omega arith) (omega arith),
  IsPlaced.behind_header v,
)

-- The header word of a page's data area leads to the page.
abbrev pub HasHeader : Store → ℕ → Type 0
HasHeader s a = s.header ((s.page a).data_address - word_size) ≡ a

page_of-data :
    (s : Store) (a off : ℕ)
    → IsPlaced (s.page a)
    → HasHeader s a
    → off < page_data_size
    → page_of s ((s.page a).data_address + off) ≡ a
unfolding page_of
page_of-data s a off v h lt =
    let e : page_start ((s.page a).data_address + off) ≡ (s.page a).data_address - word_size =
      omega (arith, page_start-data (s.page a) off v lt) in
    ap s.header e ∙ h

max_room : (s : ℕ) → s ≤ page_data_size → max 1 (page_data_size / s) * s ≤ page_data_size
max_room s le = elim (dec_lt 1 (page_data_size / s)) [
  | yes many ↦ rw (max_large many) (div-mul-le_self page_data_size s)
  | no few ↦ rw (max_small few) (omega arith)
]
  where
    max_large : {q : ℕ} → 1 < q → max 1 q ≡ q
    max_large h = omega arith

    max_small : {q : ℕ} → ¬ (1 < q) → max 1 q ≡ 1
    max_small h = omega arith

pub mul-add-div : (i s r : ℕ) → r < s → (i * s + r) / s ≡ i
mul-add-div i s r lt = grind arith

-- The objects of a page do not reach past its data area.
pub objects_fit :
    (p : Page) (i : ℕ)
    → IsPlaced p
    → i < p.metadata.object_count
    → i * p.metadata.object_size + p.metadata.object_size ≤ page_data_size
unfolding object_count_of
objects_fit p i v lt = omega (arith, mul-le-mul_right s bound, room)
  where
    s : ℕ
    s = p.metadata.object_size

    bound : i + 1 ≤ max 1 (page_data_size / s)
    bound = omega (arith, v.count, lt)

    room : max 1 (page_data_size / s) * s ≤ page_data_size
    room = max_room s v.size_le

-- For a pointer to any byte `r` of object `i` of a placed page, `page_of` finds the page,
-- `index_of` the number `i`, and `base_address_of` the object's first byte.
pub interior_pointer :
    (s : Store) (a i r : ℕ)
    → IsPlaced (s.page a)
    → HasHeader s a
    → i < (s.page a).metadata.object_count
    → r < (s.page a).metadata.object_size
    → let p = (s.page a).data_address + (i * (s.page a).metadata.object_size + r) in
      (page_of s p ≡ a)
      × (index_of (s.page a) p ≡ i)
      × (base_address_of s p ≡ (s.page a).data_address + i * (s.page a).metadata.object_size)
      × (base_address_of s p ≡ pointer_of (s.page a) i)
unfolding base_address_of pointer_of
interior_pointer s a i r v h lt lr = (found, index, base, base ∙ sym place)
  where
    p : ℕ
    p = (s.page a).data_address + (i * (s.page a).metadata.object_size + r)

    inside : i * (s.page a).metadata.object_size + r < page_data_size
    inside = omega (arith, objects_fit (s.page a) i v lt)

    found : page_of s p ≡ a
    found = page_of-data s a _ v h inside

    index : index_of (s.page a) p ≡ i
    index = index_of-data (s.page a) _ v inside ∙ mul-add-div i _ r lr

    place : pointer_of (s.page a) i ≡ (s.page a).data_address + i * (s.page a).metadata.object_size
    place = omega (arith, v.in_space, inside)

    base : base_address_of s p ≡ (s.page a).data_address + i * (s.page a).metadata.object_size
    base = rw (found, index) place
