-- ===== src/Base/Bits.antt =====
-- The bits of an unsigned machine word, and what `&`, `|`, `~` and a one-bit mask do to them.
use Prim.Native.Nat.{
  ℕ, zero, suc, ◌+◌, ◌-◌, ◌*◌, ◌/◌, ◌%◌, ◌^◌, ◌≤◌, ◌<◌, min, max, bit_and, bit_or, digits,
  bit_and-bitwise, bit_or-bitwise,
}
use mathlib.Core.Path.{◌≡◌, refl, sym, ap, ◌∙◌}
use mathlib.Core.Bool.{Bool, false, not, ◌&&◌, ◌||◌}
use native.Mathlib.Nat.{pow-suc, pow-succ', one-le-pow, div-div-eq-div-mul, mod-lt, div-add-mod}
use native.Mathlib.Omega.{arith}
use mathlib.Core.Logic.{inl, inr}
use sgcl.Base.Tests.{◌==◌, ==→eq, Bool-cases}

pow_pos : (n : ℕ) → 0 < 2 ^ n
pow_pos n = one-le-pow n 2 (omega arith)

pub pow-lt : (j n : ℕ) → j < n → 2 ^ j < 2 ^ n
pow-lt j zero lt = absurd (omega arith)
pow-lt zero (suc n) lt = omega (arith, pow-suc 2 n, pow_pos n)
pow-lt (suc j) (suc n) lt = omega (arith, pow-suc 2 n, pow-suc 2 j, pow-lt j n (omega arith))

-- Bit `j` of `w`.
unfoldable pub testbit : ℕ → ℕ → Bool
testbit w zero = w % 2 == 1
testbit w (suc j) = testbit (w / 2) j

-- Enough rounds of the digit recursion give the same as any other number that is enough.
rounds :
    (z : ℕ → ℕ) (f : ℕ → ℕ → ℕ) (n k a b : ℕ) → a ≤ n → a ≤ k → digits z f n a b ≡ digits z f k a b
rounds z f zero zero zero b h h' = refl
rounds z f zero (suc k) zero b h h' = refl
rounds z f (suc n) zero zero b h h' = refl
rounds z f (suc n) (suc k) zero b h h' = refl
rounds z f zero k (suc a) b h h' = absurd (omega arith)
rounds z f (suc n) zero (suc a) b h h' = absurd (omega arith)
rounds z f (suc n) (suc k) (suc a) b h h' =
    omega (arith, rounds z f n k (suc a / 2) (b / 2) (omega arith) (omega arith))

bit_or_digit : (a b : ℕ) → bit_or a b ≡ bit_or (a / 2) (b / 2) * 2 + max (a % 2) (b % 2)
bit_or_digit zero b = simp bit_or-bitwise (omega arith)
bit_or_digit (suc a) b = omega (
  arith,
  bit_or-bitwise (suc a) b,
  bit_or-bitwise (suc a / 2) (b / 2),
  rounds (λ y. y) max a (suc a / 2) (suc a / 2) (b / 2) (omega arith) (omega arith),
)

bit_and_digit : (a b : ℕ) → bit_and a b ≡ bit_and (a / 2) (b / 2) * 2 + min (a % 2) (b % 2)
bit_and_digit zero b = simp bit_and-bitwise (omega arith)
bit_and_digit (suc a) b = omega (
  arith,
  bit_and-bitwise (suc a) b,
  bit_and-bitwise (suc a / 2) (b / 2),
  rounds (λ y. 0) min a (suc a / 2) (suc a / 2) (b / 2) (omega arith) (omega arith),
)

bit_or-half : (a b : ℕ) → bit_or a b / 2 ≡ bit_or (a / 2) (b / 2)
bit_or-half a b = omega (arith, bit_or_digit a b)

bit_and-half : (a b : ℕ) → bit_and a b / 2 ≡ bit_and (a / 2) (b / 2)
bit_and-half a b = omega (arith, bit_and_digit a b)

pub testbit-bit_or : (a b j : ℕ) → testbit (bit_or a b) j ≡ testbit a j || testbit b j
unfolding testbit
testbit-bit_or a b zero = ground (arith, bit_or_digit a b)
testbit-bit_or a b (suc j) = rw (bit_or-half a b) (testbit-bit_or (a / 2) (b / 2) j)

pub testbit-bit_and : (a b j : ℕ) → testbit (bit_and a b) j ≡ testbit a j && testbit b j
unfolding testbit
testbit-bit_and a b zero = ground (arith, bit_and_digit a b)
testbit-bit_and a b (suc j) = rw (bit_and-half a b) (testbit-bit_and (a / 2) (b / 2) j)

pub testbit-zero : (j : ℕ) → testbit 0 j ≡ false
unfolding testbit
testbit-zero zero = refl
testbit-zero (suc j) = testbit-zero j

-- The mask `1 << j` has bit `j` and no other.
pub testbit-pow : (j k : ℕ) → testbit (2 ^ j) k ≡ (j == k)
unfolding testbit
testbit-pow zero zero = refl
testbit-pow zero (suc k) = testbit-zero k ∙ ground arith
testbit-pow (suc j) zero = ground (arith, pow-suc 2 j)
testbit-pow (suc j) (suc k) =
    let e : 2 ^ suc j / 2 ≡ 2 ^ j = omega (arith, pow-suc 2 j) in
    rw e (testbit-pow j k ∙ ground arith)

-- `~w` over `n` bits.
abbrev pub complement : ℕ → ℕ → ℕ
complement n w = 2 ^ n - 1 - w % 2 ^ n

-- Bits below the width do not see what lies above it.
pub testbit-mod : (n w j : ℕ) → j < n → testbit (w % 2 ^ n) j ≡ testbit w j
unfolding testbit
testbit-mod zero w j lt = absurd (omega arith)
testbit-mod (suc n) w zero lt =
    let e : w % 2 ^ suc n ≡ w % (2 * 2 ^ n) = ap (λ (t : ℕ). w % t) (pow-succ' 2 n) in
    rw e (ground (arith, div-add-mod w (2 * 2 ^ n)))
testbit-mod (suc n) w (suc j) lt =
    let e : w % 2 ^ suc n ≡ w % (2 * 2 ^ n) = ap (λ (t : ℕ). w % t) (pow-succ' 2 n) in
    let d : w % 2 ^ suc n / 2 ≡ w / 2 % 2 ^ n = rw e (
      omega (
        arith,
        pow_pos n,
        div-add-mod w (2 * 2 ^ n),
        div-add-mod (w / 2) (2 ^ n),
        ap (λ (t : ℕ). 2 ^ n * t) (div-div-eq-div-mul w 2 (2 ^ n)),
      )) in
    rw d (testbit-mod n (w / 2) j (omega arith))

testbit-complement_small :
    (n w j : ℕ) → w < 2 ^ n → j < n → testbit (2 ^ n - 1 - w) j ≡ not (testbit w j)
unfolding testbit
testbit-complement_small zero w j h lt = absurd (omega arith)
testbit-complement_small (suc n) w zero h lt = ground (arith, pow-suc 2 n)
testbit-complement_small (suc n) w (suc j) h lt =
    let e : (2 ^ suc n - 1 - w) / 2 ≡ 2 ^ n - 1 - w / 2 = omega (arith, pow-suc 2 n) in
    rw e (testbit-complement_small n (w / 2) j (omega (arith, pow-suc 2 n)) (omega arith))

pub testbit-complement : (n w j : ℕ) → j < n → testbit (complement n w) j ≡ not (testbit w j)
testbit-complement n w j lt =
    testbit-complement_small n (w % 2 ^ n) j (mod-lt _ (pow_pos n)) lt
    ∙ ap not (testbit-mod n w j lt)

pub bit_or-lt : (n a b : ℕ) → a < 2 ^ n → b < 2 ^ n → bit_or a b < 2 ^ n
bit_or-lt zero a b p q =
    let e : a ≡ 0 = omega arith in let e' : b ≡ 0 = omega arith in rw (e, e') (omega arith)
bit_or-lt (suc n) a b p q = omega (
  arith,
  pow-suc 2 n,
  bit_or_digit a b,
  bit_or-lt n (a / 2) (b / 2) (omega (arith, pow-suc 2 n)) (omega (arith, pow-suc 2 n)),
)

bit_and-zero_rounds : (n b : ℕ) → b ≤ n → bit_and b 0 ≡ 0
bit_and-zero_rounds n zero h = refl
bit_and-zero_rounds zero (suc b) h = absurd (omega arith)
bit_and-zero_rounds (suc n) (suc b) h =
    omega (arith, bit_and_digit (suc b) 0, bit_and-zero_rounds n (suc b / 2) (omega arith))

pub bit_and-lt : (n a b : ℕ) → a < 2 ^ n → bit_and a b < 2 ^ n
bit_and-lt zero a b p = let e : a ≡ 0 = omega arith in rw e (omega (arith, bit_and-bitwise 0 b))
bit_and-lt (suc n) a b p = omega (
  arith,
  pow-suc 2 n,
  bit_and_digit a b,
  bit_and-lt n (a / 2) (b / 2) (omega (arith, pow-suc 2 n)),
)

-- `if (w & (1 << j))` asks for bit `j`.
abbrev pub has : ℕ → ℕ → Bool
has w mask = not (bit_and w mask == 0)

pub has-pow : (w j : ℕ) → has w (2 ^ j) ≡ testbit w j
unfolding testbit
has-pow w zero = ground (arith, bit_and_digit w 1, bit_and-zero_rounds (w / 2) (w / 2))
has-pow w (suc j) = ground (arith, bit_and_digit w (2 ^ suc j), pow-suc 2 j, has-pow (w / 2) j)

-- A word none of whose bits is set is 0, and conversely.
pub eq_zero_of_testbit : (n w : ℕ) → w < 2 ^ n → ((j : ℕ) → j < n → testbit w j ≡ false) → w ≡ 0
unfolding testbit
eq_zero_of_testbit zero w h none_set = omega arith
eq_zero_of_testbit (suc n) w h none_set = ground (
  arith,
  pow-suc 2 n,
  none_set 0,
  eq_zero_of_testbit n (w / 2) (omega (arith, pow-suc 2 n))
      (λ j lt. none_set (suc j) (omega arith)),
)

bit_and-full : (n a : ℕ) → a < 2 ^ n → bit_and a (2 ^ n - 1) ≡ a
bit_and-full zero a h = let e : a ≡ 0 = omega arith in rw e (bit_and-bitwise 0 (2 ^ 0 - 1))
bit_and-full (suc n) a h =
    let e : (2 ^ suc n - 1) / 2 ≡ 2 ^ n - 1 = omega (arith, pow-suc 2 n) in
    omega (
      arith,
      pow-suc 2 n,
      pow_pos n,
      bit_and_digit a (2 ^ suc n - 1),
      ap (bit_and (a / 2)) e,
      bit_and-full n (a / 2) (omega (arith, pow-suc 2 n)),
    )

-- `a & ~(2^k - 1)` rounds `a` down to a multiple of `2^k`.
pub bit_and-complement :
    (k n a : ℕ) → k ≤ n → a < 2 ^ n → bit_and a (2 ^ n - 1 - (2 ^ k - 1)) ≡ a / 2 ^ k * 2 ^ k
bit_and-complement zero n a le h =
    let e : 2 ^ n - 1 - (2 ^ 0 - 1) ≡ 2 ^ n - 1 = omega arith in
    ap (bit_and a) e ∙ bit_and-full n a h ∙ omega arith
bit_and-complement (suc k) zero a le h = absurd (omega arith)
bit_and-complement (suc k) (suc n) a le h =
    let e : (2 ^ suc n - 1 - (2 ^ suc k - 1)) / 2 ≡ 2 ^ n - 1 - (2 ^ k - 1) =
      omega (arith, pow-suc 2 n, pow-suc 2 k, pow_pos n, pow_pos k) in
    let d : a / 2 ^ suc k ≡ a / 2 / 2 ^ k =
      ap (λ (t : ℕ). a / t) (pow-succ' 2 k) ∙ sym (div-div-eq-div-mul a 2 (2 ^ k)) in
    omega (
      arith,
      pow-suc 2 n,
      pow-suc 2 k,
      pow_pos n,
      pow_pos k,
      bit_and_digit a (2 ^ suc n - 1 - (2 ^ suc k - 1)),
      ap (bit_and (a / 2)) e,
      bit_and-complement k n (a / 2) (omega arith) (omega (arith, pow-suc 2 n)),
      ap (λ (t : ℕ). t * 2 ^ suc k) d,
      ap (λ (t : ℕ). a / 2 / 2 ^ k * t) (pow-suc 2 k),
    )

bit_or-zero : (n a : ℕ) → a ≤ n → bit_or a 0 ≡ a
bit_or-zero zero a le = let e : a ≡ 0 = omega arith in rw e (omega (arith, bit_or_digit 0 0))
bit_or-zero (suc n) a le = elim (Bool-cases (a == 0)) [
  | inl e ↦ rw (==→eq a 0 e) (omega (arith, bit_or_digit 0 0))
  | inr e ↦ omega (arith, bit_or_digit a 0, bit_or-zero n (a / 2) (ground arith))
]

-- Setting bit 0.
pub bit_or-one : (a : ℕ) → bit_or a 1 ≡ a / 2 * 2 + 1
bit_or-one a = omega (arith, bit_or_digit a 1, bit_or-zero (a / 2) (a / 2) (omega arith))
