-- ===== src/Collector/Updated/Refresh.antt =====
-- sgcl/priv/collector.h, `_mark_updated` and the two lists of pages: what a stretch of it keeps.
use mathlib.Core.List.{Memᴰ}
use sgcl.Base.{
  ℕ, ◌/◌, ◌%◌, ◌≡◌, refl, sym, ap, ap₂, ◌∙◌, arith, true, false, ==→eq, ◌==◌, ◌&&◌, not, leb,
  Bool-cases, inl, inr, ◌⊎◌,
}
use sgcl.Base.Bits.{testbit}
use sgcl.State
use sgcl.Heap.{Heap, page_at, flag_at}
use sgcl.Collector.Bits.{is_marked}
use sgcl.Collector.Frame.{Frame, Frame-refl, Frame-trans}
use sgcl.Collector.Measure.{is_registered-Frame}
use sgcl.Collector.Mark.Queue.{Lists, Lists-refl, Lists-trans}
use sgcl.Collector.Scan.Falls.{IsReady}
use sgcl.Collector.Garbage.Effect.{garbage}
use sgcl.Collector.Updated.{push_unreachable}
use sgcl.Collector.Updated.Effect.{touched}

-- A stretch of `_mark_updated`.
pub record Refreshed (h h' : Heap) : Type 0 where
  pub frame : Frame h h'
  pub marked : (b i : ℕ) → (flag_at h' b i).marked ≡ (flag_at h b i).marked
  pub lists : Lists h h'
  pub swept : (b : ℕ) → Memᴰ b h.unreachable_pages → Memᴰ b h'.unreachable_pages
  pub sweeps :
      (b : ℕ)
      → (page_at h' b).unreachable ≡ true
      → ((page_at h b).unreachable ≡ true) ⊎ Memᴰ b h'.unreachable_pages
  pub keeps : (b : ℕ) → (page_at h b).unreachable ≡ true → (page_at h' b).unreachable ≡ true
  pub ready : IsReady h → IsReady h'
  pub quiet : ((b k : ℕ) → touched h b k ≡ false) → h'.reachable_pages ≡ h.reachable_pages

pub Refreshed-refl : (h : Heap) → Refreshed h h
Refreshed-refl h = record {
  frame = Frame-refl h;
  marked = λ b i. refl;
  lists = Lists-refl h;
  swept = λ b m. m;
  sweeps = λ b u. inl u;
  keeps = λ b u. u;
  ready = λ r. r;
  quiet = λ q. refl;
}

pub is_marked-Refreshed :
    {h h' : Heap} → Refreshed h h' → (a k : ℕ) → is_marked h' a k ≡ is_marked h a k
is_marked-Refreshed v a k = ap (λ w. testbit w (k % 64)) (v.marked a (k / 64))

pub garbage-Refreshed : {h h' : Heap} → Refreshed h h' → (a k : ℕ) → garbage h' a k ≡ garbage h a k
garbage-Refreshed v a k =
    ap₂ (λ r m. r && not m) (is_registered-Frame a k v.frame) (is_marked-Refreshed v a k)

pub touched-Refreshed : {h h' : Heap} → Refreshed h h' → (a k : ℕ) → touched h' a k ≡ touched h a k
touched-Refreshed v a k =
    ap₂ (λ g (f : ℕ → ℕ). g && leb State.reachable (f k) && leb (f k) State.unique_lock)
      (garbage-Refreshed v a k) (v.frame.states a)

pub Refreshed-trans : {h h' h'' : Heap} → Refreshed h h' → Refreshed h' h'' → Refreshed h h''
Refreshed-trans v w = record {
  frame = Frame-trans v.frame w.frame;
  marked = λ b i. w.marked b i ∙ v.marked b i;
  lists = Lists-trans v.lists w.lists;
  swept = λ b m. w.swept b (v.swept b m);
  sweeps = λ b u. elim (w.sweeps b u) [
    | inl u' ↦ elim (v.sweeps b u') [ inl o ↦ inl o | inr m ↦ inr (w.swept b m) ]
    | inr m ↦ inr m
  ];
  keeps = λ b u. w.keeps b (v.keeps b u);
  ready = λ r. w.ready (v.ready r);
  quiet = λ q. w.quiet (λ b k. touched-Refreshed v b k ∙ q b k) ∙ v.quiet q;
}

pub push_unreachable-Refreshed : (a : ℕ) (h : Heap) → Refreshed h (push_unreachable a h)
unfolding push_unreachable
push_unreachable-Refreshed a h = elim (Bool-cases (page_at h a).unreachable) [
  | inl t ↦ rw t (Refreshed-refl h)
  | inr f ↦ rw f (record {
    frame = record {
      memory = refl;
      header = refl;
      arrays = refl;
      maps = λ c. refl;
      metadata = λ b. ground arith;
      data_address = λ b. ground arith;
      multiplier = λ b. ground arith;
      states = λ b. ground arith;
      registered = λ b i. ground arith;
      lists = refl;
    };
    marked = λ b i. ground arith;
    lists = record {
      listed = λ b m. m;
      fresh = λ b r. inl (ground arith);
      keeps = λ b r. ground arith;
    };
    swept = λ b m. Memᴰ.tail m;
    sweeps = λ b u. elim (Bool-cases (a == b)) [
      | inl e ↦ inr (Memᴰ.head (sym (==→eq a b e)))
      | inr e ↦ inl (ground arith)
    ];
    keeps = λ b u. ground arith;
    ready = λ r. record {
      cache = r.cache;
      flags = record {
        flagged = λ b k p. ground (arith, r.flags.flagged b k);
        registered = λ b k p. ground (arith, r.flags.registered b k);
        small = λ b i. ground (arith, r.flags.small b i);
      };
      fresh = λ b k p. ground (arith, r.fresh b k);
    };
    quiet = λ q. refl;
  })
]

pub unreachable-push_unreachable :
    (a : ℕ) (h : Heap) → (page_at (push_unreachable a h) a).unreachable ≡ true
unfolding push_unreachable
unreachable-push_unreachable a h = ground arith
