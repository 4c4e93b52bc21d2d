-- ===== src/Base/Count.antt =====
-- Counting the places of a list of arrays at which a test holds.
use mathlib.Core.List.{Memᴰ}
use mathlib.Core.List.Memᴰ
use Prim.Native.Nat.{ℕ, zero, suc, ◌+◌, ◌≤◌, ◌<◌}
use mathlib.Core.Path.{◌≡◌, subst}
use mathlib.Core.Logic.{inl, inr}
use mathlib.Core.Bool.{Bool, true, false}
use mathlib.Core.List.{List, [], ◌∷◌}
use native.Mathlib.Omega.{arith}
use sgcl.Base.Tests.{if◌then◌else◌, Bool-cases, ◌==◌, ==→eq}

-- The numbers below `n` that pass.
unfoldable pub count_below : (ℕ → Bool) → ℕ → ℕ
count_below p zero = 0
count_below p (suc n) = (if p n then 1 else 0) + count_below p n

-- The pairs of an array of the list and a place in it that pass.
unfoldable pub count_in : (ℕ → ℕ → Bool) → (ℕ → ℕ) → List ℕ → ℕ
count_in p size [] = 0
count_in p size (a ∷ xs) = count_below (p a) (size a) + count_in p size xs

count_below_mono :
    (p q : ℕ → Bool) (n : ℕ)
    → ((k : ℕ) → q k ≡ true → p k ≡ true)
    → count_below q n ≤ count_below p n
unfolding count_below
count_below_mono p q zero h = omega arith
count_below_mono p q (suc n) h = ground (arith, h n, count_below_mono p q n h)

count_below_strict :
    (p q : ℕ → Bool) (n k : ℕ)
    → ((k : ℕ) → q k ≡ true → p k ≡ true)
    → k < n
    → p k ≡ true
    → q k ≡ false
    → count_below q n < count_below p n
unfolding count_below
count_below_strict p q zero k h lt yes_p no_q = absurd (omega arith)
count_below_strict p q (suc n) k h lt yes_p no_q = elim (Bool-cases (k == n)) [
  | inl e ↦
      let e' : k ≡ n = ==→eq k n e in
      ground (
        arith,
        count_below_mono p q n h,
        subst (λ m. p m ≡ true) e' yes_p,
        subst (λ m. q m ≡ false) e' no_q,
      )
  | inr e ↦ ground (arith, h n, count_below_strict p q n k h (ground arith) yes_p no_q)
]

pub count_in_mono :
    (p q : ℕ → ℕ → Bool) (size : ℕ → ℕ) (xs : List ℕ)
    → ((a k : ℕ) → q a k ≡ true → p a k ≡ true)
    → count_in q size xs ≤ count_in p size xs
unfolding count_in
count_in_mono p q size [] h = omega arith
count_in_mono p q size (a ∷ xs) h =
    omega (arith, count_below_mono (p a) (q a) (size a) (h a), count_in_mono p q size xs h)

-- A pair that passes before and not after makes the count fall.
pub count_in_strict :
    (p q : ℕ → ℕ → Bool) (size : ℕ → ℕ) (xs : List ℕ) (a k : ℕ)
    → ((a k : ℕ) → q a k ≡ true → p a k ≡ true)
    → Memᴰ a xs
    → k < size a
    → p a k ≡ true
    → q a k ≡ false
    → count_in q size xs < count_in p size xs
unfolding count_in
count_in_strict p q size [] a k h m lt yes_p no_q = absurd (Memᴰ.not-nil m)
count_in_strict p q size (b ∷ xs) a k h m lt yes_p no_q = elim (Memᴰ.cases_cons m) [
  | inl e ↦ omega (
    arith,
    subst (λ c. count_below (q c) (size c) < count_below (p c) (size c)) e
        (count_below_strict (p a) (q a) (size a) k (h a) lt yes_p no_q),
    count_in_mono p q size xs h,
  )
  | inr t ↦ omega (
    arith,
    count_below_mono (p b) (q b) (size b) (h b),
    count_in_strict p q size xs a k h t lt yes_p no_q,
  )
]
