-- ===== src/Collector/Cycle/Settle.antt =====
-- sgcl/priv/collector.h, a cycle up to the end of its first turn: every object that was touched is reached,
-- and every other one that is not reached is on a page to be swept.
use mathlib.Core.List.{Memᴰ}
use native.Mathlib.Nat.{le_trans}
use sgcl.Base.{
  ℕ, ◌/◌, ◌%◌, ◌≤◌, ◌≡◌, sym, ap, subst, ◌∙◌, arith, true, false, Bool-cases, inl, inr, ◌⊎◌, List,
}
use sgcl.Base.Bits.{testbit, testbit-zero}
use sgcl.Base.Count.{count_in_mono}
use sgcl.Heap.{Heap, page_at}
use sgcl.Collector.Bits.{is_registered, is_reachable, is_marked, is_reached}
use sgcl.Collector.Frame.{Frame}
use sgcl.Collector.Measure.{
  IsWithin-Frame, unmarked, unmarked_mono, unreached, unreached_mono, is_registered-Frame,
}
use sgcl.Collector.Mark.Cover.{Grows}
use sgcl.Collector.Mark.Queue.{IsFlagged}
use sgcl.Collector.Garbage.Effect.{garbage}
use sgcl.Collector.Garbage.Sweeps.{in_groups, Memᴰ-elem}
use sgcl.Collector.Roots.Effect.{Rooted}
use sgcl.Collector.Scan.Finish.{IsGrouped-Frame}
use sgcl.Collector.Updated.{mark_updated}
use sgcl.Collector.Updated.Effect.{touched}
use sgcl.Collector.Updated.Refresh.{Refreshed}
use sgcl.Collector.Updated.Lists.{mark_updated-Refreshed, mark_updated_sweeps}
use sgcl.Collector.Updated.Pages.{mark_updated_lem}
use sgcl.Collector.Cycle.Live.{root, IsIdle}
use sgcl.Collector.Cycle.Phase.{Phase, mark_updated-Phase, Grows-updated, touched_before}

module _ (size : ℕ → ℕ) (pages roots : List ℕ) (h₀ : Heap) (idle : IsIdle size pages h₀) where
  unmarked_at : (a k : ℕ) → is_marked h₀ a k ≡ false
  unmarked_at a k = ap (λ w. testbit w (k % 64)) (idle.marked a (k / 64)) ∙ testbit-zero (k % 64)

  unreachable_at : (a k : ℕ) → is_reachable h₀ a k ≡ false
  unreachable_at a k =
      ap (λ w. testbit w (k % 64)) (idle.reachable a (k / 64)) ∙ testbit-zero (k % 64)

  IsFlagged-at : IsFlagged h₀
  IsFlagged-at = record {
    flagged = λ a k r. absurd (ground (arith, unreachable_at a k));
    registered = λ a k r. absurd (ground (arith, unreachable_at a k));
    small = λ a i. rw (idle.reachable a i) (omega arith);
  }

  -- After the roots.
  pub start-Phase : (h : Heap) → Rooted roots h₀ h → Phase size pages roots h₀ h
  start-Phase h v = record {
    frame = v.step.frame;
    closed = record {
      cache = v.step.cache idle.cache;
      closed = λ a k m. absurd (ground (arith, none a k));
    };
    can = record {
      within = IsWithin-Frame size pages v.step.frame idle.within;
      grouped = IsGrouped-Frame v.step.frame idle.grouped;
      ready = record {
        cache = v.step.cache idle.cache;
        flags = v.step.flags IsFlagged-at;
        fresh = λ a k r. none a k;
      };
      queued = λ b r. elim (v.step.lists.fresh b r) [
        | inl old ↦ absurd (ground (arith, idle.waiting b))
        | inr m ↦ m
      ];
    };
    sound = λ a k r. elim (v.sound a k (ground (arith, none a k))) [
      | inl old ↦ absurd (ground (arith, unreachable_at a k))
      | inr there ↦ root there
    ];
    roots_covered = v.cover;
  }
    where
      none : (a k : ℕ) → is_marked h a k ≡ false
      none a k = ap (λ w. testbit w (k % 64)) (v.kept a (k / 64)) ∙ unmarked_at a k

  -- No pass leaves more to do than there was.
  pub unmarked_below : {h : Heap} → Frame h₀ h → unmarked size pages h ≤ unmarked size pages h₀
  unmarked_below f = unmarked_mono size pages f (λ a k m. absurd (ground (arith, unmarked_at a k)))

  pub unreached_below : {h : Heap} → Frame h₀ h → unreached size pages h ≤ unmarked size pages h₀
  unreached_below f =
      le_trans
        (unreached_mono size pages f
          (λ a k m. absurd (ground (arith, unmarked_at a k, unreachable_at a k))))
        (count_in_mono _ _ size pages (λ a k r. ground arith))

  -- After a turn.
  pub record Turned (h : Heap) : Type 0 where
    pub phase : Phase size pages roots h₀ h
    pub settled : (a k : ℕ) → touched h₀ a k ≡ true → is_reached h a k ≡ true
    pub swept :
        (a k : ℕ)
        → is_registered h₀ a k ≡ true
        → (is_reached h a k ≡ true) ⊎ Memᴰ a h.unreachable_pages

  -- The passes keep what a turn gave.
  pub Turned-after :
      {h h' : Heap}
      → Phase size pages roots h₀ h'
      → Grows h h'
      → ((a : ℕ) → Memᴰ a h.unreachable_pages → Memᴰ a h'.unreachable_pages)
      → Turned h
      → Turned h'
  Turned-after p g s t = record {
    phase = p;
    settled = λ a k r. g a k (t.settled a k r);
    swept = λ a k r. elim (t.swept a k r) [ inl y ↦ inl (g a k y) | inr m ↦ inr (s a m) ];
  }

  -- `_mark_updated<true>` settles the objects that were touched.
  module _ (h : Heap) (p : Phase size pages roots h₀ h) where
    on_list : (a k : ℕ) → is_registered h₀ a k ≡ true → Memᴰ a h.registered_pages
    on_list a k r = subst (Memᴰ a) (sym p.frame.lists) (idle.listed a k r)

    in_group : (a k : ℕ) → is_registered h₀ a k ≡ true → in_groups h a k ≡ true
    in_group a k r =
        ground
          (arith, IsGrouped-Frame p.frame idle.grouped a k (is_registered-Frame a k p.frame ∙ r))

    settles : (a k : ℕ) → touched h₀ a k ≡ true → is_reached (mark_updated true h) a k ≡ true
    settles a k t = elim (Bool-cases (is_reached h a k)) [
      | inl y ↦ Grows-updated size pages roots h₀ true h a k y
      | inr n ↦ ground (
        arith,
        t,
        n,
        (mark_updated_lem true h a k).0,
        Memᴰ-elem a h.registered_pages,
        on_list a k,
        in_group a k,
        is_registered-Frame a k p.frame,
        ap (λ (g : ℕ → ℕ). g k) (p.frame.states a),
      )
    ]

    sweeps :
        ((a : ℕ) → (page_at h a).unreachable ≡ false)
        → (a k : ℕ) → is_registered h₀ a k ≡ true
        → (is_reached (mark_updated true h) a k ≡ true)
          ⊎ Memᴰ a (mark_updated true h).unreachable_pages
    sweeps clean a k r = elim (Bool-cases (is_reached h a k)) [
      | inl y ↦ inl (Grows-updated size pages roots h₀ true h a k y)
      | inr n ↦
          let g : garbage h a k ≡ true = ground (arith, is_registered-Frame a k p.frame) in
          elim (mark_updated_sweeps h a k (on_list a k r) (in_group a k r) g) [
            | inl t ↦
                inl (settles a k (touched_before size pages roots h₀ idle.marked p.frame a k t))
            | inr u ↦ elim (Refreshed.sweeps (mark_updated-Refreshed true h) a u) [
              | inl old ↦ absurd (ground (arith, clean a))
              | inr m ↦ inr m
            ]
          ]
    ]

    pub settle : ((a : ℕ) → (page_at h a).unreachable ≡ false) → Turned (mark_updated true h)
    settle clean = record {
      phase = mark_updated-Phase size pages roots h₀ idle.marked true h p;
      settled = settles;
      swept = sweeps clean;
    }
