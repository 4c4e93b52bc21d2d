-- ===== src/Collector/Scan/Rounds.antt =====
-- The rounds of `_mark_reachable` on a page: one that marks nothing finds no reachable object.
use sgcl.Base.{
  ℕ, zero, suc, ◌<◌, ◌≡◌, refl, ap, ◌∙◌, arith, true, inl, inr, List, Bool-cases, for_range, while,
}
use sgcl.Base.Bits.{eq_zero_of_testbit}
use sgcl.Heap.{flag_at}
use sgcl.Collector.Measure.{IsWithin, IsWithin-Frame, unmarked, unmarked_mono}
use sgcl.Collector.Mark.Cover.{Step, Step-refl, Step-trans}
use sgcl.Collector.Mark.Queue.{IsFlagged}
use sgcl.Collector.Scan.{Scan, scan_bit, drop_marked, scan_bits, has_reachable, scan_word}
use sgcl.Collector.Scan.Keeps.{drop_marked-Step}
use sgcl.Collector.Scan.Falls.{IsReady, Moved, Bits, bits, drop_marked-IsFresh}

module _ (size : ℕ → ℕ) (pages : List ℕ) where
  -- A stretch of the rounds, which leaves the heap ready for the next one.
  pub record Round (s t : Scan) : Type 0 where
    pub step : Step s.heap t.heap
    pub ready : IsReady t.heap
    pub moved : Moved size pages s t

  Round-refl : (s : Scan) → IsReady s.heap → Round s s
  Round-refl s r = record { step = Step-refl s.heap; ready = r; moved = inl refl }

  pub Round-trans : {s t u : Scan} → IsWithin size pages s.heap → Round s t → Round t u → Round s u
  Round-trans {s} {t} {u} w p q = record {
    step = Step-trans p.step q.step;
    ready = q.ready;
    moved = both p.moved q.moved;
  }
    where
      both : Moved size pages s t → Moved size pages t u → Moved size pages s u
      both (inl e) (inl e') = inl (e' ∙ e)
      both (inl e) (inr m) =
          inr (m.0, omega (arith, m.1, ap (λ (x : Scan). unmarked size pages x.heap) e))
      both (inr m) (inl e) = inr (
        ap (λ (x : Scan). x.marked) e ∙ m.0,
        omega (arith, m.1, ap (λ (x : Scan). unmarked size pages x.heap) e),
      )
      both (inr m) (inr n) = inr (n.0, omega (arith, m.1, n.1))

  -- A round over a word that is not zero marks an object.
  round :
      (a i : ℕ) (s : Scan)
      → IsWithin size pages s.heap
      → IsReady s.heap
      → has_reachable a i s ≡ true
      → Round s (scan_bits a i s)
        × ((scan_bits a i s).marked ≡ true)
        × (unmarked size pages (scan_bits a i s).heap < unmarked size pages s.heap)
  unfolding scan_bits
  round a i s w r t = (
    record {
      step = Step-trans b.step.0 last;
      ready = record {
        cache = last.cache b.step.1;
        flags = last.flags (b.step.0.flags r.flags);
        fresh = drop_marked-IsFresh a i u.heap b.fresh;
      };
      moved = inr (did.0, less);
    },
    did.0,
    less,
  )
    where
      u : Scan
      u = for_range 64 0 (scan_bit a i) s

      b : Bits size pages a i s 64 u
      b = bits size pages a i s w r.flags r.cache r.fresh

      last : Step u.heap (drop_marked a i u.heap)
      last = drop_marked-Step a i u.heap

      did : (u.marked ≡ true) × (unmarked size pages u.heap < unmarked size pages s.heap)
      did = elim b.moved [
        | inr m ↦ m
        | inl e ↦ absurd (
            ground (
              arith,
              eq_zero_of_testbit 64 (flag_at s.heap a i).reachable (IsFlagged.small r.flags a i)
                  (b.still e),
            ))
      ]

      less : unmarked size pages (drop_marked a i u.heap) < unmarked size pages s.heap
      less = omega (arith, did.1, unmarked_mono size pages last.frame last.marks)

  -- `while (flag.reachable)`: with enough fuel it ends by its test.
  pub word-Round :
      (fuel a i : ℕ) (s : Scan)
      → IsWithin size pages s.heap
      → IsReady s.heap
      → unmarked size pages s.heap < fuel
      → Round s (scan_word fuel a i s) × ((flag_at (scan_word fuel a i s).heap a i).reachable ≡ 0)
  unfolding scan_word while
  word-Round zero a i s w r lt = absurd (omega arith)
  word-Round (suc fuel) a i s w r lt = elim (Bool-cases (has_reachable a i s)) [
    | inr f ↦ rw (f, while) (Round-refl s r, ground arith)
    | inl t ↦
        let p = round a i s w r t in
        let q =
          word-Round fuel a i (scan_bits a i s) (IsWithin-Frame size pages p.0.step.frame w)
            p.0.ready (omega (arith, p.2)) in
        rw (t, while) (Round-trans w p.0 q.0, q.1)
  ]
