-- ===== src/Collector/Bits.antt =====
-- The flag bits of an object, read through its page and its group, and what a write to a group
-- changes.
use Prim.Native.Nat.{bit_and, bit_or}
use sgcl.Base.{ℕ, ◌/◌, ◌%◌, ◌^◌, ◌<◌, ◌≡◌, arith, Bool, not, ◌&&◌, ◌||◌, ◌==◌, if◌then◌else◌}
use sgcl.Base.Bits.{
  testbit, complement, testbit-bit_and, testbit-bit_or, testbit-complement, testbit-pow,
}
use sgcl.Page.{Flags}
use sgcl.Heap.{Heap, flag_at, put_flag}

abbrev pub is_registered : Heap → ℕ → ℕ → Bool
is_registered h a k = testbit (flag_at h a (k / 64)).registered (k % 64)

abbrev pub is_reachable : Heap → ℕ → ℕ → Bool
is_reachable h a k = testbit (flag_at h a (k / 64)).reachable (k % 64)

abbrev pub is_marked : Heap → ℕ → ℕ → Bool
is_marked h a k = testbit (flag_at h a (k / 64)).marked (k % 64)

-- Found already: marked, or waiting to be.
abbrev pub is_reached : Heap → ℕ → ℕ → Bool
is_reached h a k = is_marked h a k || is_reachable h a k

pub flag_at-put_flag :
    (a i : ℕ) (f : Flags) (h : Heap) (b j : ℕ)
    → flag_at (put_flag a i f h) b j ≡ (if (a == b) && (i == j) then f else flag_at h b j)
flag_at-put_flag a i f h b j = ground arith

-- Setting bit `j` of a word.
pub testbit-set : (w j k : ℕ) → testbit (bit_or w (2 ^ j)) k ≡ (testbit w k || (j == k))
testbit-set w j k = ground (arith, testbit-bit_or w (2 ^ j) k, testbit-pow j k)

-- Taking the bits of `v` out of a word.
pub testbit-drop :
    (w v k : ℕ)
    → k < 64
    → testbit (bit_and w (complement 64 v)) k ≡ (testbit w k && not (testbit v k))
testbit-drop w v k lt =
    ground (arith, testbit-bit_and w (complement 64 v) k, testbit-complement 64 v k)

-- An object is its group and its place in the group.
pub same_object : (n k : ℕ) → ((n / 64 == k / 64) && (n % 64 == k % 64)) ≡ (n == k)
same_object n k = ground arith
