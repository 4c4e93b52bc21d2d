-- ===== src/Collector/Updated/Single.antt =====
-- sgcl/priv/collector.h, `_mark_updated` on one page: if it has an object that was touched it waits on
-- the list of reachable pages, if it has another object that is not marked it is on the other list.
use mathlib.Core.List.{Memᴰ}
use sgcl.Base.{
  ◌≤◌, suc, ℕ, ◌*◌, ◌/◌, ◌%◌, ◌≡◌, refl, sym, ap, subst, ◌∙◌, arith, Bool, true, false, ◌&&◌,
  if◌then◌else◌, Bool-cases, inl, inr, ◌⊎◌,
}
use sgcl.Base.Bits.{testbit}
use sgcl.Base.Lists.{length}
use sgcl.Page.{Flags, flags_count}
use sgcl.Heap.{Heap, page_at, flag_at}
use sgcl.Collector.Bits.{is_registered, is_reachable, is_marked}
use sgcl.Collector.Frame.{Frame, Frame-trans}
use sgcl.Collector.Measure.{is_registered-Frame}
use sgcl.Collector.Groups.{for_groups}
use sgcl.Collector.Mark.{push_reachable}
use sgcl.Collector.Mark.Effect.{push_reachable-Frame, flag_at-push_reachable}
use sgcl.Collector.Mark.Queue.{
  Lists, Lists-trans, IsFlagged, push_reachable-Lists, length-push_reachable,
  reachable-push_reachable,
}
use sgcl.Collector.Scan.Falls.{IsReady}
use sgcl.Collector.Garbage.Effect.{garbage}
use sgcl.Collector.Garbage.Sweeps.{in_groups}
use sgcl.Collector.Updated.{
  Update, updated_word, update_object, push_unreachable, mark_updated_page,
}
use sgcl.Collector.Updated.Effect.{touched, Touched, groups-Touched}
use sgcl.Collector.Updated.Local.{Local, groups-Local}
use sgcl.Collector.Updated.Refresh.{
  Refreshed, Refreshed-trans, push_unreachable-Refreshed, unreachable-push_unreachable,
}

-- One page.
module _ (all : Bool) (a : ℕ) (h : Heap) where
  abbrev s : Update
  s =
      for_groups (updated_word a) (update_object all a) (λ i s. s) (flags_count (page_at h a))
        (record { heap = h; reachable_page = false; unreachable_page = false })

  l : Local all a h (flags_count (page_at h a) * 64) s
  l = groups-Local all a h (flags_count (page_at h a))

  t : Touched a h (flags_count (page_at h a)) 0 s.heap
  t = groups-Touched all a h (flags_count (page_at h a))

  -- What `Touched` says of an object that is reachable now.
  now_reachable :
      (b k : ℕ)
      → is_reachable s.heap b k ≡ true
      → (is_reachable h b k ≡ true) ⊎ ((a ≡ b) × (touched h b k ≡ true))
  now_reachable b k r = elim (Bool-cases (is_reachable h b k)) [
    | inl o ↦ inl o
    | inr n ↦
        let e : a ≡ b = ground (arith, t.reachable b k) in
        inr (e, ground (arith, t.reachable b k, ap (λ x. touched h x k) e))
  ]

  marked_now : (b k : ℕ) → is_marked s.heap b k ≡ is_marked h b k
  marked_now b k = ap (λ w. testbit w (k % 64)) (l.marked b (k / 64))

  registered_now : (b k : ℕ) → is_registered s.heap b k ≡ is_registered h b k
  registered_now b k = is_registered-Frame b k l.frame

  -- The list is given its page, if the local says so.
  abbrev waits : Bool → Heap
  waits b = if b then push_reachable a s.heap else s.heap

  same-Lists : Lists h s.heap
  same-Lists = record {
    listed = λ b m. subst (Memᴰ b) (sym l.waiting) m;
    fresh = λ b r. inl (sym (l.flags b).0 ∙ r);
    keeps = λ b r. (l.flags b).0 ∙ r;
  }

  waits-Lists : (b : Bool) → Lists h (waits b)
  waits-Lists true = Lists-trans same-Lists (push_reachable-Lists a s.heap)
  waits-Lists false = same-Lists

  waits-Frame : (b : Bool) → Frame h (waits b)
  waits-Frame true = Frame-trans l.frame (push_reachable-Frame a s.heap)
  waits-Frame false = l.frame

  waits-sweeping :
      (b : Bool)
      → ((waits b).unreachable_pages ≡ h.unreachable_pages)
        × ((waits b).childs ≡ h.childs)
        × ((c : ℕ) → (page_at (waits b) c).unreachable ≡ (page_at h c).unreachable)
  unfolding push_reachable
  waits-sweeping true =
      (ground (arith, l.sweeping), ground (arith, l.childs), λ c. ground (arith, (l.flags c).1))
  waits-sweeping false = (l.sweeping, l.childs, λ c. (l.flags c).1)

  waits-flag_at : (b : Bool) (c i : ℕ) → flag_at (waits b) c i ≡ flag_at s.heap c i
  waits-flag_at true c i = flag_at-push_reachable a s.heap c i
  waits-flag_at false c i = refl

  waits-flagged :
      (b : Bool)
      → s.reachable_page ≡ b
      → IsFlagged h
      → (c k : ℕ) → is_reachable s.heap c k ≡ true
      → (page_at (waits b) c).reachable ≡ true
  waits-flagged true e f c k r = elim (now_reachable c k r) [
    | inl o ↦ Lists.keeps (waits-Lists true) c (f.flagged c k o)
    | inr n ↦
        ap (λ x. (page_at (waits true) x).reachable) (sym n.0) ∙ reachable-push_reachable a s.heap
  ]
  waits-flagged false e f c k r =
      (l.flags c).0
      ∙ f.flagged c k
          (ap (λ (x : Flags). testbit x.reachable (k % 64)) (sym (l.quiet e c (k / 64))) ∙ r)

  waits-IsReady : (b : Bool) → s.reachable_page ≡ b → IsReady h → IsReady (waits b)
  waits-IsReady b e r = record {
    cache = rw (waits-sweeping b).1 r.cache;
    flags = record {
      flagged = λ c k p. waits-flagged b e r.flags c k (was c k p);
      registered = λ c k p.
          is_registered-Frame c k (waits-Frame b) ∙ elim (now_reachable c k (was c k p)) [
            | inl o ↦ r.flags.registered c k o
            | inr n ↦ ground (arith, n.1)
          ];
      small = λ c i. rw (waits-flag_at b c i) (l.small c i (r.flags.small c i));
    };
    fresh = λ c k p.
        ap (λ (x : Flags). testbit x.marked (k % 64)) (waits-flag_at b c (k / 64))
        ∙ marked_now c k
        ∙ elim (now_reachable c k (was c k p)) [
          | inl o ↦ r.fresh c k o
          | inr n ↦ ground (arith, n.1)
        ];
  }
    where
      was : (c k : ℕ) → is_reachable (waits b) c k ≡ true → is_reachable s.heap c k ≡ true
      was c k p =
          ap (λ (x : Flags). testbit x.reachable (k % 64)) (sym (waits-flag_at b c (k / 64))) ∙ p

  waits-quiet :
      (b : Bool)
      → s.reachable_page ≡ b
      → ((c k : ℕ) → touched h c k ≡ false)
      → (waits b).reachable_pages ≡ h.reachable_pages
  waits-quiet true e q = let c = l.cause e in absurd (ground (arith, c.1, q a c.0))
  waits-quiet false e q = l.waiting

  waits-Refreshed : (b : Bool) → s.reachable_page ≡ b → Refreshed h (waits b)
  waits-Refreshed b e = record {
    frame = waits-Frame b;
    marked = λ c i. ap (λ (x : Flags). x.marked) (waits-flag_at b c i) ∙ l.marked c i;
    lists = waits-Lists b;
    swept = λ c m. subst (Memᴰ c) (sym (waits-sweeping b).0) m;
    sweeps = λ c u. inl (sym ((waits-sweeping b).2 c) ∙ u);
    keeps = λ c u. (waits-sweeping b).2 c ∙ u;
    ready = waits-IsReady b e;
    quiet = waits-quiet b e;
  }

  listed_after :
      (b : Bool) (g : Heap) → Refreshed h g → Refreshed h (if b then push_unreachable a g else g)
  listed_after true g v = Refreshed-trans v (push_unreachable-Refreshed a g)
  listed_after false g v = v

  pub mark_updated_page-Refreshed : Refreshed h (mark_updated_page all a h)
  unfolding mark_updated_page
  mark_updated_page-Refreshed =
      listed_after (all && s.unreachable_page) _ (waits-Refreshed s.reachable_page refl)

  -- An object that is neither marked nor touched puts its page on the other list.
  swept_after :
      (b : Bool)
      → (all && s.unreachable_page) ≡ b
      → (g : Heap) → all ≡ true
      → (k : ℕ) → in_groups h a k ≡ true
      → garbage h a k ≡ true
      → (touched h a k ≡ true)
        ⊎ ((page_at (if b then push_unreachable a g else g) a).unreachable ≡ true)
  swept_after true e g y k i p = inr (unreachable-push_unreachable a g)
  swept_after false e g y k i p = inl (l.left y (ground arith) k (ground arith) p)

  pub mark_updated_page_sweeps :
      all ≡ true
      → (k : ℕ) → in_groups h a k ≡ true
      → garbage h a k ≡ true
      → (touched h a k ≡ true) ⊎ ((page_at (mark_updated_page all a h) a).unreachable ≡ true)
  unfolding mark_updated_page
  mark_updated_page_sweeps = swept_after (all && s.unreachable_page) refl _

  length-waits : (b : Bool) → length (waits b).reachable_pages ≤ suc (length h.reachable_pages)
  length-waits true = omega (arith, length-push_reachable a s.heap, ap length l.waiting)
  length-waits false = omega (arith, ap length l.waiting)

  length-listed :
      (b : Bool) (g : Heap)
      → length (if b then push_unreachable a g else g).reachable_pages ≡ length g.reachable_pages
  unfolding push_unreachable
  length-listed true g = ground arith
  length-listed false g = refl

  pub length-mark_updated_page :
      length (mark_updated_page all a h).reachable_pages ≤ suc (length h.reachable_pages)
  unfolding mark_updated_page
  length-mark_updated_page = omega (
    arith,
    length-waits s.reachable_page,
    length-listed (all && s.unreachable_page) (waits s.reachable_page),
  )
