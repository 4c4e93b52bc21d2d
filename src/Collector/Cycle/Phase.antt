-- ===== src/Collector/Cycle/Phase.antt =====
-- What the passes of a cycle keep, from the marking of the roots on.
use sgcl.Base.{
  ℕ, ◌/◌, ◌%◌, ◌≤◌, ◌<◌, ◌≡◌, sym, ap, subst, ◌∙◌, arith, Bool, true, Bool-cases, inl, inr, List,
}
use sgcl.Base.Bits.{testbit, testbit-zero}
use sgcl.Base.Lists.{All, All-map}
use sgcl.Heap.{Heap, flag_at}
use sgcl.Collector.Bits.{is_marked, is_reached}
use sgcl.Collector.Frame.{Frame, Frame-trans}
use sgcl.Collector.Measure.{IsWithin-Frame, unmarked, potential, is_registered-Frame}
use sgcl.Collector.Mark.Effect.{covered}
use sgcl.Collector.Mark.Cover.{Grows, covered-Frame, slot_covered, slot_covered-Frame}
use sgcl.Collector.Reach.{slots, slots-Frame}
use sgcl.Collector.Scan.{mark_reachable}
use sgcl.Collector.Scan.Sound.{IsClosed, mark_reachable-Inv}
use sgcl.Collector.Scan.Finish.{IsGrouped-Frame}
use sgcl.Collector.Scan.Falls.{IsReady}
use sgcl.Collector.Scan.Drain.{CanMark, Drained, mark_reachable-Drained}
use sgcl.Collector.Updated.{mark_updated}
use sgcl.Collector.Updated.Effect.{touched}
use sgcl.Collector.Updated.Refresh.{is_marked-Refreshed}
use sgcl.Collector.Updated.Lists.{mark_updated-Refreshed}
use sgcl.Collector.Updated.Pages.{mark_updated_lem}
use sgcl.Collector.Cycle.Live.{Live, kept, Reach-Live}

module _ (size : ℕ → ℕ) (pages roots : List ℕ) (h₀ : Heap) where
  pub record Phase (h : Heap) : Type 0 where
    pub frame : Frame h₀ h
    pub closed : IsClosed h
    pub can : CanMark size pages h
    pub sound : (a k : ℕ) → is_reached h a k ≡ true → Live roots h₀ a k
    pub roots_covered : All (λ x. covered h (h₀.memory x) ≡ true) roots

  -- A pass that keeps the marked objects and what was reached.
  closed_after :
      {h h' : Heap}
      → Frame h h'
      → Grows h h'
      → ((a k : ℕ) → is_marked h' a k ≡ true → is_marked h a k ≡ true)
      → IsClosed h
      → (a k : ℕ) → is_marked h' a k ≡ true
      → All (λ x. slot_covered h' x ≡ true) (slots h' a k)
  closed_after {h} {h'} f g m c a k r =
      subst (All (λ x. slot_covered h' x ≡ true)) (sym (slots-Frame a k f))
        (All-map (λ x. slot_covered-Frame x f g) (slots h a k) (c.closed a k (m a k r)))

  roots_after :
      {h h' : Heap}
      → Frame h h'
      → Grows h h'
      → All (λ x. covered h (h₀.memory x) ≡ true) roots
      → All (λ x. covered h' (h₀.memory x) ≡ true) roots
  roots_after f g c = All-map (λ x. covered-Frame (h₀.memory x) f g) roots c

  -- `_mark_reachable`.
  pub mark_reachable-Phase :
      (rounds fuel : ℕ) (h : Heap)
      → unmarked size pages h < fuel
      → potential size pages h ≤ rounds
      → Phase h
      → Phase (mark_reachable rounds fuel h) × Drained h (mark_reachable rounds fuel h)
  mark_reachable-Phase rounds fuel h lt le p =
      let v = mark_reachable-Inv rounds fuel h p.closed in
      let d = mark_reachable-Drained size pages rounds fuel h p.can lt le in
      (
        record {
          frame = Frame-trans p.frame v.frame;
          closed = record {
            cache = v.cache;
            closed = λ a k m.
                subst (All (λ x. slot_covered (mark_reachable rounds fuel h) x ≡ true))
                  (sym (slots-Frame a k v.frame)) (v.closed a k m);
          };
          can = record {
            within = IsWithin-Frame size pages v.frame p.can.within;
            grouped = IsGrouped-Frame v.frame p.can.grouped;
            ready = d.ready;
            queued = λ b r. absurd (ground (arith, d.left b));
          };
          sound = λ a k r. Reach-Live roots p.frame p.sound a k (v.sound a k r);
          roots_covered = roots_after v.frame v.grows p.roots_covered;
        },
        d,
      )

  pub Grows-updated : (all : Bool) (h : Heap) → Grows h (mark_updated all h)
  Grows-updated all h a k r = let u = mark_updated_lem all h a k in ground (arith, u.0, u.2)

  -- An object that was touched during the cycle was so from its beginning.
  pub touched_before :
      {h : Heap}
      → ((a i : ℕ) → (flag_at h₀ a i).marked ≡ 0)
      → Frame h₀ h
      → (a k : ℕ) → touched h a k ≡ true
      → touched h₀ a k ≡ true
  touched_before idle f a k t = ground (
    arith,
    t,
    is_registered-Frame a k f,
    ap (λ (g : ℕ → ℕ). g k) (f.states a),
    ap (λ w. testbit w (k % 64)) (idle a (k / 64)) ∙ testbit-zero (k % 64),
  )

  -- `_mark_updated`.
  pub mark_updated-Phase :
      ((a i : ℕ) → (flag_at h₀ a i).marked ≡ 0)
      → (all : Bool) (h : Heap) → Phase h
      → Phase (mark_updated all h)
  mark_updated-Phase idle all h p =
      let v = mark_updated-Refreshed all h in
      record {
        frame = Frame-trans p.frame v.frame;
        closed = record {
          cache = IsReady.cache (v.ready p.can.ready);
          closed =
              closed_after v.frame (Grows-updated all h)
                (λ a k m. sym (is_marked-Refreshed v a k) ∙ m) p.closed;
        };
        can = record {
          within = IsWithin-Frame size pages v.frame p.can.within;
          grouped = IsGrouped-Frame v.frame p.can.grouped;
          ready = v.ready p.can.ready;
          queued = λ b r. elim (v.lists.fresh b r) [
            | inl old ↦ v.lists.listed b (p.can.queued b old)
            | inr m ↦ m
          ];
        };
        sound = λ a k r.
            let u = mark_updated_lem all h a k in
            elim (Bool-cases (is_reached h a k)) [
              | inl old ↦ p.sound a k old
              | inr new ↦ kept (touched_before idle p.frame a k (ground (arith, u.0, u.2, new, r)))
            ];
        roots_covered = roots_after v.frame (Grows-updated all h) p.roots_covered;
      }
