-- ===== src/Collector/Scan/Falls.antt =====
-- Each round of `_mark_reachable` that marks an object marks one that was not marked before.
use sgcl.Base.{
  ℕ, ◌+◌, ◌*◌, ◌/◌, ◌%◌, ◌^◌, ◌<◌, ◌≡◌, refl, sym, ap, ◌∙◌, arith, true, false, ◌==◌, inl, inr, ◌⊎◌,
  List, Bool-cases, ==→eq, for_range, for_range_inv,
}
use sgcl.Base.Bits.{testbit, has, has-pow}
use sgcl.Heap.{Heap, flag_at}
use sgcl.Collector.Bits.{is_registered, is_reachable, is_marked, testbit-drop}
use sgcl.Collector.Frame.{CacheOk}
use sgcl.Collector.Measure.{IsWithin, IsWithin-Frame, unmarked, unmarked_mono, unmarked_strict}
use sgcl.Collector.Mark.Cover.{Step-refl}
use sgcl.Collector.Mark.Queue.{IsFlagged}
use sgcl.Collector.Scan.{Scan, visit, scan_bit, drop_marked}
use sgcl.Collector.Scan.Flag.{is_reachable-put_flag, is_marked-put_flag}
use sgcl.Collector.Scan.Keeps.{is_reachable-object}
use sgcl.Collector.Scan.Steps.{StepFrom, StepFrom-trans}
use sgcl.Collector.Scan.Visit.{visit-Visited}

-- No object is reachable and marked at once.
abbrev pub IsFresh : Heap → Type 0
IsFresh h = (b k : ℕ) → is_reachable h b k ≡ true → is_marked h b k ≡ false

-- But for the first `j` objects of group `i` of page `a`.
abbrev pub IsFreshFrom : ℕ → ℕ → ℕ → Heap → Type 0
IsFreshFrom a i j h =
    (b k : ℕ)
    → is_reachable h b k ≡ true
    → is_marked h b k ≡ true
    → (b ≡ a) × (k / 64 ≡ i) × (k % 64 < j)

pub visit-IsFreshFrom :
    (a i j : ℕ) (h : Heap)
    → j < 64
    → CacheOk h
    → IsFreshFrom a i j h
    → IsFreshFrom a i (j + 1) (visit a i j h)
visit-IsFreshFrom a i j h lt ok f b k r m =
    let w = visit-Visited a i j h lt ok in
    elim (Bool-cases (is_marked h b k)) [
      | inl old ↦ let p = f b k (w.fresh b k r m) old in (p.0, p.1, omega (arith, p.2))
      | inr new ↦ ground (arith, w.marks b k)
    ]

pub drop_marked-IsFresh : (a i : ℕ) (h : Heap) → IsFreshFrom a i 64 h → IsFresh (drop_marked a i h)
unfolding drop_marked
drop_marked-IsFresh a i h f b k r = ground (
  arith,
  is_reachable-put_flag a i _ h b k,
  is_marked-put_flag a i _ h b k,
  testbit-drop (flag_at h a i).reachable (flag_at h a i).marked (k % 64),
  f b k,
)

-- What the passes need of a heap to end.
pub record IsReady (h : Heap) : Type 0 where
  pub cache : CacheOk h
  pub flags : IsFlagged h
  pub fresh : IsFresh h

module _ (size : ℕ → ℕ) (pages : List ℕ) where
  -- Nothing was done, or an object was marked.
  abbrev pub Moved : Scan → Scan → Type 0
  Moved s t =
      (t ≡ s) ⊎ ((t.marked ≡ true) × (unmarked size pages t.heap < unmarked size pages s.heap))

  -- The first `j` rounds of the loop over the bits of group `i`.
  pub record Bits (a i : ℕ) (s : Scan) (j : ℕ) (t : Scan) : Type 0 where
    pub step : StepFrom s.heap t.heap
    pub fresh : IsFreshFrom a i j t.heap
    pub moved : Moved s t
    pub still : t ≡ s → (k : ℕ) → k < j → testbit (flag_at s.heap a i).reachable k ≡ false

  visit-unmarked :
      (a i j : ℕ) (h : Heap)
      → j < 64
      → CacheOk h
      → IsWithin size pages h
      → is_registered h a (i * 64 + j) ≡ true
      → is_marked h a (i * 64 + j) ≡ false
      → unmarked size pages (visit a i j h) < unmarked size pages h
  visit-unmarked a i j h lt ok w r m =
      let v = visit-Visited a i j h lt ok in
      unmarked_strict size pages a (i * 64 + j) v.step.frame v.step.marks w r m
        (ground (arith, v.marks a (i * 64 + j)))

  module _ (a i : ℕ) (s : Scan) (w : IsWithin size pages s.heap) (f : IsFlagged s.heap) where
    bit-visit :
        (j : ℕ) (t : Scan)
        → j < 64
        → testbit (flag_at t.heap a i).reachable j ≡ true
        → Bits a i s j t
        → Bits a i s (j + 1) (record { heap = visit a i j t.heap; marked = true })
    bit-visit j t lt r b =
        let v = visit-Visited a i j t.heap lt b.step.1 in
        let there = is_reachable-object a i j t.heap lt ∙ r in
        let less =
          visit-unmarked a i j t.heap lt b.step.1 (IsWithin-Frame size pages b.step.0.frame w)
            (IsFlagged.registered (b.step.0.flags f) a (i * 64 + j) there)
            (not_marked there (b.fresh a (i * 64 + j))) in
        let le = unmarked_mono size pages b.step.0.frame b.step.0.marks in
        record {
          step = StepFrom-trans b.step (v.step, v.step.cache b.step.1);
          fresh = visit-IsFreshFrom a i j t.heap lt b.step.1 b.fresh;
          moved = inr (refl, omega (arith, less, le));
          still = λ e.
              absurd (omega (arith, less, le, ap (λ (x : Scan). unmarked size pages x.heap) e));
        }
      where
        not_marked :
            is_reachable t.heap a (i * 64 + j) ≡ true
            → (is_reachable t.heap a (i * 64 + j) ≡ true
                → is_marked t.heap a (i * 64 + j) ≡ true
                → (a ≡ a) × ((i * 64 + j) / 64 ≡ i) × ((i * 64 + j) % 64 < j))
            → is_marked t.heap a (i * 64 + j) ≡ false
        not_marked r f = elim (Bool-cases (is_marked t.heap a (i * 64 + j))) [
          | inl m ↦ let p = f r m in absurd (omega (arith, p.2))
          | inr m ↦ m
        ]

    bit-pass :
        (j : ℕ) (t : Scan)
        → testbit (flag_at t.heap a i).reachable j ≡ false
        → Bits a i s j t
        → Bits a i s (j + 1) t
    bit-pass j t r b = record {
      step = b.step;
      fresh = λ c k x y. let p = b.fresh c k x y in (p.0, p.1, omega (arith, p.2));
      moved = b.moved;
      still = λ e k lt. elim (Bool-cases (k == j)) [
        | inl q ↦
            ap (λ n. testbit (flag_at s.heap a i).reachable n) (==→eq k j q)
            ∙ ap (λ (x : Scan). testbit (flag_at x.heap a i).reachable j) (sym e)
            ∙ r
        | inr q ↦ b.still e k (ground arith)
      ];
    }

    pub bit : (j : ℕ) (t : Scan) → j < 64 → Bits a i s j t → Bits a i s (j + 1) (scan_bit a i j t)
    unfolding scan_bit
    bit j t lt b = elim (Bool-cases (has (flag_at t.heap a i).reachable (2 ^ j))) [
      | inl q ↦ rw q (bit-visit j t lt (sym (has-pow _ j) ∙ q) b)
      | inr q ↦ rw q (bit-pass j t (sym (has-pow _ j) ∙ q) b)
    ]

    pub bits : CacheOk s.heap → IsFresh s.heap → Bits a i s 64 (for_range 64 0 (scan_bit a i) s)
    bits ok fresh =
        for_range_inv (Bits a i s) (scan_bit a i) 64 0 64 s (omega arith)
          (λ j t lo hi b. bit j t hi b)
          (record {
            step = (Step-refl s.heap, ok);
            fresh = λ c k x y. absurd (ground (arith, fresh c k));
            moved = inl refl;
            still = λ e k lt. absurd (omega arith);
          })
