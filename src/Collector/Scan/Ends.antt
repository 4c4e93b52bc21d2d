-- ===== src/Collector/Scan/Ends.antt =====
-- `do … while (marked)` of `_mark_reachable`: with enough fuel it ends, and leaves no reachable object
-- on the page.
use sgcl.Base.{
  ℕ, zero, suc, ◌+◌, ◌/◌, ◌<◌, ◌≡◌, refl, sym, ap, subst, ◌∙◌, arith, true, false, ◌-◌, ◌==◌, inl,
  inr, ◌⊎◌, List, Bool-cases, ==→eq, for_range, for_range_inv, while,
}
use sgcl.Page.{Metadata, flags_count}
use sgcl.Heap.{Heap, page_at, flag_at}
use sgcl.Collector.Frame.{Frame}
use sgcl.Collector.Measure.{IsWithin, IsWithin-Frame, unmarked, unmarked_mono}
use sgcl.Collector.Mark.Cover.{Step, Step-refl, Step-trans}
use sgcl.Collector.Scan.{Scan, scan_word, scan_words, scan_page}
use sgcl.Collector.Scan.Falls.{IsReady}
use sgcl.Collector.Scan.Rounds.{Round, Round-trans, word-Round}

-- The first `n` words of page `a` are zero.
abbrev pub IsClear : ℕ → ℕ → Heap → Type 0
IsClear a n h = (m : ℕ) → m < n → (flag_at h a m).reachable ≡ 0

pub flags_count-Frame :
    {h h' : Heap} (a : ℕ) → Frame h h' → flags_count (page_at h' a) ≡ flags_count (page_at h a)
unfolding flags_count
flags_count-Frame a f = ap (λ (m : Metadata). (m.object_count + 64 - 1) / 64) (f.metadata a)

module _ (size : ℕ → ℕ) (pages : List ℕ) (fuel a : ℕ) where
  -- The first `i` words in the loop of a round.
  record Words (s : Scan) (i : ℕ) (t : Scan) : Type 0 where
    round : Round size pages s t
    still : t ≡ s → IsClear a i t.heap

  Words-step :
      (s : Scan) (i : ℕ) (t : Scan)
      → IsWithin size pages s.heap
      → unmarked size pages s.heap < fuel
      → Words s i t
      → Words s (i + 1) (scan_word fuel a i t)
  Words-step s i t w lt v =
      let le = unmarked_mono size pages v.round.step.frame v.round.step.marks in
      let p =
        word-Round size pages fuel a i t (IsWithin-Frame size pages v.round.step.frame w)
          v.round.ready (omega (arith, le)) in
      record {
        round = Round-trans size pages w v.round p.0;
        still = λ e m lo. elim (Bool-cases (m == i)) [
          | inl q ↦
              ap (λ n. (flag_at (scan_word fuel a i t).heap a n).reachable) (==→eq m i q) ∙ p.1
          | inr q ↦ elim p.0.moved [
            | inl same ↦
                ap (λ (x : Scan). (flag_at x.heap a m).reachable) same
                ∙ v.still (sym same ∙ e) m (ground arith)
            | inr less ↦
                absurd (omega (arith, less.1, le, ap (λ (x : Scan). unmarked size pages x.heap) e))
          ]
        ];
      }

  -- What a round of the outer loop, or several, leave.
  pub record Rounds (h : Heap) (n : ℕ) (s : Scan) : Type 0 where
    pub step : Step h s.heap
    pub ready : IsReady s.heap
    pub clear : s.marked ≡ false → IsClear a n s.heap

  words :
      (s : Scan)
      → IsWithin size pages s.heap
      → IsReady s.heap
      → unmarked size pages s.heap < fuel
      → Rounds s.heap (flags_count (page_at s.heap a)) (scan_words fuel a s)
        × (((scan_words fuel a s).marked ≡ false)
            ⊎ (unmarked size pages (scan_words fuel a s).heap < unmarked size pages s.heap))
  unfolding scan_words
  words s w r lt = (
    record {
      step = v.round.step;
      ready = v.round.ready;
      clear = λ e. elim v.round.moved [
        | inl same ↦ v.still same
        | inr less ↦ absurd (ground (arith, less.0))
      ];
    },
    elim v.round.moved [
      | inl same ↦ inl (ap (λ (x : Scan). x.marked) same)
      | inr less ↦ inr less.1
    ],
  )
    where
      v :
          Words
            (record s { marked = false })
            (flags_count (page_at s.heap a))
            (for_range
              (flags_count (page_at s.heap a))
              0
              (scan_word fuel a)
              (record s { marked = false }))
      v =
          for_range_inv (Words (record s { marked = false })) (scan_word fuel a)
            (flags_count (page_at s.heap a)) 0 (flags_count (page_at s.heap a))
            (record s { marked = false }) (omega arith) (λ i t lo hi v. Words-step _ i t w lt v)
            (record {
              round = record { step = Step-refl s.heap; ready = r; moved = inl refl };
              still = λ e m lo. absurd (omega arith);
            })

  loop :
      (rounds : ℕ) (h : Heap) (s : Scan)
      → IsWithin size pages h
      → unmarked size pages h < fuel
      → Rounds h (flags_count (page_at h a)) s
      → (s.marked ≡ false) ⊎ (unmarked size pages s.heap < rounds)
      → let t = while rounds (λ (s : Scan). s.marked) (scan_words fuel a) s in
        Rounds h (flags_count (page_at h a)) t × (t.marked ≡ false)
  unfolding while
  loop zero h s w lt v (inl e) = (v, e)
  loop zero h s w lt v (inr m) = absurd (omega arith)
  loop (suc rounds) h s w lt v m = elim (Bool-cases s.marked) [
    | inr f ↦ rw (f, while) (v, f)
    | inl t ↦
        let le = unmarked_mono size pages v.step.frame v.step.marks in
        let p = words s (IsWithin-Frame size pages v.step.frame w) v.ready (omega (arith, le)) in
        rw (t, while)
          (loop rounds h (scan_words fuel a s) w lt
            (record {
              step = Step-trans v.step p.0.step;
              ready = p.0.ready;
              clear = λ e.
                  subst (λ n. IsClear a n (scan_words fuel a s).heap)
                    (flags_count-Frame a v.step.frame) (p.0.clear e);
            })
            (falls t m p.1))
  ]
    where
      falls :
          s.marked ≡ true
          → (s.marked ≡ false) ⊎ (unmarked size pages s.heap < suc rounds)
          → ((scan_words fuel a s).marked ≡ false)
            ⊎ (unmarked size pages (scan_words fuel a s).heap < unmarked size pages s.heap)
          → ((scan_words fuel a s).marked ≡ false)
            ⊎ (unmarked size pages (scan_words fuel a s).heap < rounds)
      falls t (inl f) p = absurd (ground arith)
      falls t (inr f) (inl p) = inl p
      falls t (inr f) (inr p) = inr (omega arith)

  -- With more fuel than there are objects to mark, the page ends without a reachable object.
  pub scan_page_ends :
      (h : Heap)
      → IsWithin size pages h
      → IsReady h
      → unmarked size pages h < fuel
      → Step h (scan_page fuel a h)
        × IsReady (scan_page fuel a h)
        × IsClear a (flags_count (page_at h a)) (scan_page fuel a h)
  unfolding scan_page
  scan_page_ends h w r lt =
      let p = words (record { heap = h; marked = false }) w r lt in
      let q =
        loop fuel h (scan_words fuel a (record { heap = h; marked = false })) w lt p.0
          (elim p.1 [ inl e ↦ inl e | inr m ↦ inr (omega (arith, m)) ]) in
      (q.0.step, q.0.ready, q.0.clear q.1)
