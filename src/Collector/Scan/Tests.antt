-- ===== src/Collector/Scan/Tests.antt =====
-- `_mark_reachable` on a page of two objects, of which the first is reachable and points to the second.
use mathlib.Core.List.{Memᴰ}
use sgcl.Base.{
  ℕ, ◌/◌, ◌%◌, ◌≡◌, ◌↔◌, refl, ap, ◌∙◌, arith, true, false, ◌==◌, [], ◌∷◌, Bool-cases, inl, inr,
}
use sgcl.Base.Bits.{testbit, testbit-zero, testbit-pow}
use sgcl.Base.Count.{count_below, count_in}
use sgcl.Page.{flags_count}
use sgcl.Heap.{page_at}
use sgcl.Collector.Bits.{is_registered, is_reachable, is_marked}
use sgcl.Collector.Measure.{unmarked, potential}
use sgcl.Collector.Tests.{pair_heap, pair_heap-IsClosed}
use sgcl.Collector.Reach.{Reach}
use sgcl.Collector.Scan.{mark_reachable}
use sgcl.Collector.Scan.Drain.{CanMark}
use sgcl.Collector.Scan.Complete.{mark_reachable_lem}

abbrev sizes : ℕ → ℕ
sizes _ = 64

pair_heap-registered : (a k : ℕ) → is_registered pair_heap a k ≡ true → (a ≡ 1000) × (k / 64 ≡ 0)
pair_heap-registered a k r = elim (Bool-cases (a == 1000)) [
  | inr n ↦ absurd (ground (arith, testbit-zero (k % 64)))
  | inl e ↦ elim (Bool-cases (k / 64 == 0)) [
    | inl z ↦ (ground arith, ground arith)
    | inr n ↦ absurd (ground (arith, testbit-zero (k % 64)))
  ]
]

pair_heap-reachable : (a k : ℕ) → is_reachable pair_heap a k ≡ true → (a ≡ 1000) × (k ≡ 0)
pair_heap-reachable a k r = elim (Bool-cases (a == 1000)) [
  | inr n ↦ absurd (ground (arith, testbit-zero (k % 64)))
  | inl e ↦ elim (Bool-cases (k / 64 == 0)) [
    | inl z ↦ (ground arith, ground (arith, testbit-pow 0 (k % 64)))
    | inr n ↦ absurd (ground (arith, testbit-zero (k % 64)))
  ]
]

pair_heap-waits : (a : ℕ) → (page_at pair_heap a).reachable ≡ true → a ≡ 1000
pair_heap-waits a r = ground arith

pair_heap-bit : is_registered pair_heap 1000 0 ≡ true
unfolding testbit
pair_heap-bit = refl

pair_heap-CanMark : CanMark sizes (1000 ∷ []) pair_heap
unfolding flags_count
pair_heap-CanMark = record {
  within = λ a k r. let p = pair_heap-registered a k r in (Memᴰ.head p.0, omega (arith, p.1));
  grouped = λ a k r. let p = pair_heap-registered a k r in ground (arith, p.0, p.1);
  ready = record {
    cache = pair_heap-IsClosed.cache;
    flags = record {
      flagged = λ a k r. let p = pair_heap-reachable a k r in ground (arith, p.0);
      registered = λ a k r.
          let p = pair_heap-reachable a k r in
          ap (λ b. is_registered pair_heap b k) p.0
          ∙ ap (λ n. is_registered pair_heap 1000 n) p.1
          ∙ pair_heap-bit;
      small = λ a i. ground arith;
    };
    fresh = λ a k r. ground (arith, testbit-zero (k % 64));
  };
  queued = λ a r. Memᴰ.head (pair_heap-waits a r);
}

pair_heap-unmarked : unmarked sizes (1000 ∷ []) pair_heap ≡ 2
unfolding testbit count_in count_below
pair_heap-unmarked = refl

pair_heap-potential : potential sizes (1000 ∷ []) pair_heap ≡ 2
unfolding testbit count_in count_below
pair_heap-potential = refl

mark_reachable_lem_example :
    let h' = mark_reachable 10 10 pair_heap in
    ((a k : ℕ) → is_marked h' a k ≡ true ↔ Reach pair_heap a k)
    × ((a k : ℕ) → is_reachable h' a k ≡ false)
    × ((a : ℕ) → (page_at h' a).reachable ≡ false)
    × (h'.reachable_pages ≡ [])
mark_reachable_lem_example =
    mark_reachable_lem sizes (1000 ∷ []) 10 10 pair_heap pair_heap-IsClosed pair_heap-CanMark
      (omega (arith, pair_heap-unmarked)) (omega (arith, pair_heap-potential))
