-- ===== src/Collector/Groups.antt =====
-- sgcl/priv/collector.h: the two nested loops over the flags of a page that the passes write out. A
-- group whose word is zero is passed over; in another one the body runs at each bit of the word that
-- was read first, and then the rest of the group's block.
use sgcl.Base.{
  ℕ, ◌+◌, ◌<◌, ◌^◌, ◌≡◌, ◌≢◌, arith, ◌==◌, if◌then◌else◌, Bool-cases, ==→eq, inl, inr, for_range,
  for_range_inv,
}
use sgcl.Base.Bits.{has}
use sgcl.Page.{flag_bit_count}

module _ {ℓ} {S : Type ℓ} (word : ℕ → S → ℕ) (body : ℕ → ℕ → S → S) (after : ℕ → S → S) where
  pub for_bits : ℕ → ℕ → ℕ → S → S
  for_bits i w j s = if has w (2 ^ j) then body i j s else s

  pub for_group : ℕ → S → S
  for_group i s =
      let w = word i s in
      if w == 0 then s else after i (for_range flag_bit_count 0 (for_bits i w) s)

  unfoldable pub for_groups : ℕ → S → S
  unfolding for_group for_bits
  for_groups count s = for_range count 0 for_group s

  -- The rule: `P` holds between the groups, `Q` within one.
  module _ {κ} (P : ℕ → S → Type κ) (Q : ℕ → ℕ → S → Type κ) (w : ℕ → ℕ) where
    group_inv :
        (i : ℕ) (s : S)
        → word i s ≡ w i
        → Q i 0 s
        → ((j : ℕ) (s : S)
            → j < 64
            → Q i j s
            → Q i (j + 1) (if has (w i) (2 ^ j) then body i j s else s))
        → ((s : S) → w i ≢ 0 → Q i 64 s → P (i + 1) (after i s))
        → ((s : S) → w i ≡ 0 → Q i 0 s → P (i + 1) s)
        → P (i + 1) (for_group i s)
    unfolding for_group for_bits
    group_inv i s e q bit finish skip = rw e (elim (Bool-cases (w i == 0)) [
      | inl z ↦ rw z (skip s (==→eq _ _ z) q)
      | inr nz ↦ rw nz (
          finish _ (λ z. ground arith)
            (for_range_inv (Q i) (for_bits i (w i)) 64 0 64 s (omega arith)
              (λ j s lo hi p. bit j s hi p) q))
    ])

    pub for_groups_inv :
        (count : ℕ) (s : S)
        → ((i : ℕ) (s : S) → i < count → P i s → (word i s ≡ w i) × Q i 0 s)
        → ((i j : ℕ) (s : S)
            → i < count
            → j < 64
            → Q i j s
            → Q i (j + 1) (if has (w i) (2 ^ j) then body i j s else s))
        → ((i : ℕ) (s : S) → w i ≢ 0 → Q i 64 s → P (i + 1) (after i s))
        → ((i : ℕ) (s : S) → w i ≡ 0 → Q i 0 s → P (i + 1) s)
        → P 0 s
        → P count (for_groups count s)
    unfolding for_groups
    for_groups_inv count s start bit finish skip p =
        for_range_inv P for_group count 0 count s (omega arith)
          (λ i s lo hi p.
            let q = start i s hi p in
            group_inv i s q.0 q.1 (λ j s l r. bit i j s hi l r) (finish i) (skip i))
          p
