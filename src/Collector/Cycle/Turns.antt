-- ===== src/Collector/Cycle/Turns.antt =====
-- sgcl/priv/collector.h, `do … while (_reachable_pages)` of `_main_loop`: it ends with its second turn at
-- the latest, and then every live object is marked and every other one is on a page to be swept.
use mathlib.Core.List.{Memᴰ}
use mathlib.Core.List.Memᴰ
use sgcl.Base.{
  ℕ, suc, ◌+◌, ◌≤◌, ◌<◌, ◌≡◌, refl, sym, ap, subst, ◌∙◌, arith, true, false, not, Bool-cases, inl,
  inr, List, [], ◌∷◌, while, while_done,
}
use sgcl.Base.Lists.{length}
use sgcl.Heap.{Heap}
use sgcl.Collector.Bits.{is_reachable}
use sgcl.Collector.Frame.{Frame-refl, SameSweep}
use sgcl.Collector.Measure.{unmarked, unreached}
use sgcl.Collector.Mark.{is_nil}
use sgcl.Collector.Roots.Effect.{Rooted}
use sgcl.Collector.Scan.{mark_reachable}
use sgcl.Collector.Scan.Sound.{mark_reachable-Inv}
use sgcl.Collector.Scan.Complete.{Drained-reachable}
use sgcl.Collector.Updated.Effect.{touched}
use sgcl.Collector.Updated.Lists.{mark_updated-Refreshed, length-mark_updated}
use sgcl.Collector.Cycle.{mark_turn, mark_turns}
use sgcl.Collector.Cycle.Live.{IsIdle}
use sgcl.Collector.Cycle.Phase.{
  Phase, mark_reachable-Phase, mark_updated-Phase, Grows-updated, touched_before,
}
use sgcl.Collector.Cycle.Settle.{
  Turned, start-Phase, unmarked_below, unreached_below, Turned-after, settle,
}

module _ (size : ℕ → ℕ) (pages roots : List ℕ) (h₀ : Heap) (idle : IsIdle size pages h₀) where
  -- The first turn, when no page is to be swept yet.
  pub first_turn :
      (rounds fuel : ℕ) (h : Heap)
      → unmarked size pages h₀ < fuel
      → unmarked size pages h₀ + length h₀.registered_pages ≤ rounds
      → Phase size pages roots h₀ h
      → SameSweep h₀ h
      → unreached size pages h + length h.reachable_pages ≤ unmarked size pages h₀
      → Turned size pages roots h₀ idle (mark_turn rounds fuel h)
        × (unreached size pages (mark_turn rounds fuel h)
              + length (mark_turn rounds fuel h).reachable_pages
            ≤ rounds)
  unfolding mark_turn
  first_turn rounds fuel h lt le p s few =
      let q =
        mark_reachable-Phase size pages roots h₀ rounds fuel h
          (omega (arith, unmarked_below size pages roots h₀ idle p.frame)) (omega (arith, few)) p in
      let h' = mark_reachable rounds fuel h in
      let all : is_nil h'.unreachable_pages ≡ true =
        ap is_nil (q.1.sweeping.pages ∙ s.pages ∙ idle.no_sweeping) in
      let t =
        settle size pages roots h₀ idle h' q.0
          (λ a. q.1.sweeping.flags a ∙ s.flags a ∙ idle.sweeping a) in
      rw all (
        (
          t,
          omega (
            arith,
            unreached_below size pages roots h₀ idle t.phase.frame,
            length-mark_updated h',
            ap length q.1.empty,
            ap length q.0.frame.lists,
          ),
        ))

  quiet :
      {h : Heap}
      → Turned size pages roots h₀ idle h
      → ((a k : ℕ) → is_reachable h a k ≡ false)
      → (a k : ℕ) → touched h a k ≡ false
  quiet {h} t none a k = elim (Bool-cases (touched h a k)) [
    | inr n ↦ n
    | inl y ↦ absurd (
        ground (
          arith,
          y,
          t.settled a k (touched_before size pages roots h₀ idle.marked t.phase.frame a k y),
          none a k,
        ))
  ]

  -- A turn after that finds no object that was touched.
  pub next_turn :
      (rounds fuel : ℕ) (h : Heap)
      → unmarked size pages h₀ < fuel
      → unreached size pages h + length h.reachable_pages ≤ rounds
      → Turned size pages roots h₀ idle h
      → Turned size pages roots h₀ idle (mark_turn rounds fuel h)
        × ((mark_turn rounds fuel h).reachable_pages ≡ [])
  unfolding mark_turn
  next_turn rounds fuel h lt few t =
      let q =
        mark_reachable-Phase size pages roots h₀ rounds fuel h
          (omega (arith, unmarked_below size pages roots h₀ idle t.phase.frame)) few t.phase in
      let h' = mark_reachable rounds fuel h in
      let all = is_nil h'.unreachable_pages in
      let v = mark_updated-Refreshed all h' in
      let t' =
        Turned-after size pages roots h₀ idle {h' = h'} q.0
          (mark_reachable-Inv rounds fuel h t.phase.closed).grows
          (λ a m. subst (Memᴰ a) (sym q.1.sweeping.pages) m) t in
      (
        Turned-after size pages roots h₀ idle
            (mark_updated-Phase size pages roots h₀ idle.marked all h' q.0)
            (Grows-updated size pages roots h₀ all h') v.swept t',
        v.quiet (quiet t' (Drained-reachable q.1)) ∙ q.1.empty,
      )

  -- What the loop leaves.
  pub record Settled (h : Heap) : Type 0 where
    pub turned : Turned size pages roots h₀ idle h
    pub done : (a k : ℕ) → is_reachable h a k ≡ false
    pub empty : h.reachable_pages ≡ []

  -- When no page waits, no object is reachable.
  settled : (h : Heap) → Turned size pages roots h₀ idle h → h.reachable_pages ≡ [] → Settled h
  settled h t e = record {
    turned = t;
    done = λ a k. elim (Bool-cases (is_reachable h a k)) [
      | inr n ↦ n
      | inl r ↦ absurd (
          Memᴰ.not-nil
            (subst (Memᴰ a) e (t.phase.can.queued a (t.phase.can.ready.flags.flagged a k r))))
    ];
    empty = e;
  }

  is_nil-empty : (xs : List ℕ) → is_nil xs ≡ true → xs ≡ []
  is_nil-empty [] e = refl
  is_nil-empty (x ∷ xs) e = absurd (ground arith)

  -- The loop after the first turn.
  again :
      (rounds fuel turns : ℕ) (h : Heap)
      → unmarked size pages h₀ < fuel
      → unreached size pages h + length h.reachable_pages ≤ rounds
      → Turned size pages roots h₀ idle h
      → Settled (
          while
            (suc turns)
            (λ (h : Heap). not (is_nil h.reachable_pages))
            (mark_turn rounds fuel)
            h)
  unfolding while
  again rounds fuel turns h lt few t = elim (Bool-cases (not (is_nil h.reachable_pages))) [
    | inr f ↦ rw (f, while) (settled h t (is_nil-empty h.reachable_pages (ground (arith, f))))
    | inl y ↦
        let n = next_turn rounds fuel h lt few t in
        rw (y, while)
          (subst Settled
            (sym (
              while_done turns (λ (h : Heap). not (is_nil h.reachable_pages))
                (mark_turn rounds fuel) (mark_turn rounds fuel h) (ap (λ l. not (is_nil l)) n.1)))
            (settled (mark_turn rounds fuel h) n.0 n.1))
  ]

  pub mark_turns-Settled :
      (rounds fuel turns : ℕ) (h : Heap)
      → unmarked size pages h₀ < fuel
      → unmarked size pages h₀ + length h₀.registered_pages ≤ rounds
      → Rooted roots h₀ h
      → Settled (mark_turns rounds fuel (suc turns) h)
  unfolding mark_turns
  mark_turns-Settled rounds fuel turns h lt le v =
      let first =
        first_turn rounds fuel h lt le (start-Phase size pages roots h₀ idle h v) v.step.sweeping (
          omega (
            arith,
            v.step.spends size pages idle.within,
            unreached_below size pages roots h₀ idle (Frame-refl h₀),
            ap length idle.no_waiting,
          )) in
      again rounds fuel turns (mark_turn rounds fuel h) lt first.1 first.0
