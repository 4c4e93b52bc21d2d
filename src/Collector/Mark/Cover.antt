-- ===== src/Collector/Mark/Cover.antt =====
-- What marking a list of slots does: every pointer that they hold is covered, nothing else becomes
-- reachable, and what was reached stays reached.
use sgcl.Base.{
  ℕ, ◌/◌, ◌%◌, ◌≤◌, ◌≡◌, refl, sym, ap, subst, subst₂, ap₂, ◌∙◌, arith, Bool, true, false, not,
  ◌&&◌, ◌||◌, ◌==◌, Bool-cases, inl, inr, List,
}
use sgcl.Base.Bits.{testbit}
use sgcl.Page.{page_of, index_of}
use sgcl.Heap.{Heap, flag_at}
use sgcl.Collector.Bits.{is_registered, is_reachable, is_marked, is_reached}
use sgcl.Collector.Frame.{
  Frame, Frame-refl, Frame-trans, CacheOk, SameSweep, SameSweep-refl, SameSweep-trans,
}
use sgcl.Collector.Mark.{unset_pointer, mark}
use sgcl.Collector.Mark.Effect.{
  node_page, node_index, points_at, covered, is_reachable-mark, flag_at-mark, mark-Frame,
  mark-SameSweep, childs-mark,
}
use sgcl.Collector.Mark.Queue.{
  Lists, Lists-refl, Lists-trans, IsFlagged, mark-Lists, mark-IsFlagged, mark-potential,
}
use sgcl.Collector.Measure.{IsWithin, IsWithin-Frame, potential, is_registered-Frame}
use native.Mathlib.Nat.{le_trans}
use sgcl.Collector.Mark.Slots.{mark_slot}

-- The slot at `x` holds a pointer into object `k` of page `a`.
abbrev pub holds : Heap → ℕ → ℕ → ℕ → Bool
holds h x a k = not (h.memory x == unset_pointer) && points_at h (h.memory x) a k

abbrev pub slot_covered : Heap → ℕ → Bool
slot_covered h x = h.memory x == unset_pointer || covered h (h.memory x)

-- A stretch of marking.
pub record Step (h h' : Heap) : Type 0 where
  pub frame : Frame h h'
  pub cache : CacheOk h → CacheOk h'
  pub grows : (a k : ℕ) → is_reached h a k ≡ true → is_reached h' a k ≡ true
  pub marks : (a k : ℕ) → is_marked h a k ≡ true → is_marked h' a k ≡ true
  pub lists : Lists h h'
  pub sweeping : SameSweep h h'
  pub spends :
      (size : ℕ → ℕ) (pages : List ℕ)
      → IsWithin size pages h
      → potential size pages h' ≤ potential size pages h
  pub flags : IsFlagged h → IsFlagged h'

pub Step-refl : (h : Heap) → Step h h
Step-refl h = record {
  frame = Frame-refl h;
  cache = λ c. c;
  grows = λ a k r. r;
  marks = λ a k m. m;
  sweeping = SameSweep-refl h;
  spends = λ size pages w. omega arith;
  lists = Lists-refl h;
  flags = λ v. v;
}

pub Step-trans : {h h' h'' : Heap} → Step h h' → Step h' h'' → Step h h''
Step-trans s t = record {
  frame = Frame-trans s.frame t.frame;
  cache = λ c. t.cache (s.cache c);
  grows = λ a k r. t.grows a k (s.grows a k r);
  marks = λ a k m. t.marks a k (s.marks a k m);
  spends = λ size pages w.
      le_trans (t.spends size pages (IsWithin-Frame size pages s.frame w)) (s.spends size pages w);
  lists = Lists-trans s.lists t.lists;
  sweeping = SameSweep-trans s.sweeping t.sweeping;
  flags = λ v. t.flags (s.flags v);
}

-- The layout decides what a pointer points into.
node_page-Frame : {h h' : Heap} (q : ℕ) → Frame h h' → node_page h' q ≡ node_page h q
unfolding page_of
node_page-Frame q f = rw f.header refl

node_index-Frame : {h h' : Heap} (q : ℕ) → Frame h h' → node_index h' q ≡ node_index h q
unfolding index_of
node_index-Frame {h} {h'} q f =
    rw (node_page-Frame q f, f.data_address (node_page h q), f.multiplier (node_page h q)) refl

pub points_at-Frame :
    {h h' : Heap} (q a k : ℕ) → Frame h h' → points_at h' q a k ≡ points_at h q a k
points_at-Frame q a k f =
    ap₂ (λ n i. not (q == 0) && (n == a) && (i == k)) (node_page-Frame q f) (node_index-Frame q f)

pub holds-Frame : {h h' : Heap} (x a k : ℕ) → Frame h h' → holds h' x a k ≡ holds h x a k
holds-Frame {h} {h'} x a k f =
    ap₂ (λ q b. not (q == unset_pointer) && b) (same x)
      (ap (λ q. points_at h' q a k) (same x) ∙ points_at-Frame (h.memory x) a k f)
  where
    same : (x : ℕ) → h'.memory x ≡ h.memory x
    same x = ap (λ (m : ℕ → ℕ). m x) f.memory

-- What makes a pointer covered at one place makes it covered at another with the same layout.
covered_at :
    {h h' : Heap} (q : ℕ)
    → Frame h h'
    → (q == 0
        || not (is_registered h' (node_page h q) (node_index h q))
        || is_reached h' (node_page h q) (node_index h q))
      ≡ true
    → covered h' q ≡ true
covered_at {h} {h'} q f =
    subst₂ (λ n k. (q == 0 || not (is_registered h' n k) || is_reached h' n k) ≡ true)
      (sym (node_page-Frame q f)) (sym (node_index-Frame q f))

slot_covered_at :
    {h h' : Heap} (x : ℕ)
    → Frame h h'
    → (h.memory x == unset_pointer || covered h' (h.memory x)) ≡ true
    → slot_covered h' x ≡ true
slot_covered_at {h} {h'} x f =
    subst (λ q. (q == unset_pointer || covered h' q) ≡ true)
      (ap (λ (m : ℕ → ℕ). m x) (sym f.memory))

abbrev pub Grows : Heap → Heap → Type 0
Grows h h' = (a k : ℕ) → is_reached h a k ≡ true → is_reached h' a k ≡ true

pub covered-Frame :
    {h h' : Heap} (q : ℕ) → Frame h h' → Grows h h' → covered h q ≡ true → covered h' q ≡ true
covered-Frame {h} {h'} q f g c = covered_at q f (
    ground (
      arith,
      is_registered-Frame (node_page h q) (node_index h q) f,
      g (node_page h q) (node_index h q),
    ))

pub slot_covered-Frame :
    {h h' : Heap} (x : ℕ)
    → Frame h h'
    → Grows h h'
    → slot_covered h x ≡ true
    → slot_covered h' x ≡ true
slot_covered-Frame {h} {h'} x f g c =
    slot_covered_at x f (ground (arith, covered-Frame (h.memory x) f g))

pub slot_covered-Step :
    {h h' : Heap} (x : ℕ) → Step h h' → slot_covered h x ≡ true → slot_covered h' x ≡ true
slot_covered-Step x s c = slot_covered-Frame x s.frame s.grows c

-- The effect of one slot.
pub is_reachable-mark_slot :
    (x : ℕ) (h : Heap) (a k : ℕ)
    → is_reachable (mark_slot x h) a k
      ≡ (is_reachable h a k || (holds h x a k && is_registered h a k && not (is_marked h a k)))
unfolding mark_slot
is_reachable-mark_slot x h a k = ground (arith, is_reachable-mark (h.memory x) h a k)

pub flag_at-mark_slot :
    (x : ℕ) (h : Heap) (a i : ℕ)
    → ((flag_at (mark_slot x h) a i).marked ≡ (flag_at h a i).marked)
      × ((flag_at (mark_slot x h) a i).registered ≡ (flag_at h a i).registered)
unfolding mark_slot
flag_at-mark_slot x h a i = ground (arith, flag_at-mark (h.memory x) h a i)

pub is_marked-mark_slot :
    (x : ℕ) (h : Heap) (a k : ℕ) → is_marked (mark_slot x h) a k ≡ is_marked h a k
is_marked-mark_slot x h a k = ap (λ w. testbit w (k % 64)) (flag_at-mark_slot x h a (k / 64)).0

mark_slot-Frame : (x : ℕ) (h : Heap) → Frame h (mark_slot x h)
unfolding mark_slot
mark_slot-Frame x h = elim (Bool-cases (h.memory x == unset_pointer)) [
  | inl u ↦ rw u (Frame-refl h)
  | inr p ↦ rw p (mark-Frame _ h)
]

-- Marking one pointer.
pub mark-Step : (q : ℕ) (h : Heap) → Step h (mark q h)
mark-Step q h = record {
  frame = mark-Frame q h;
  cache = λ ok. rw (childs-mark q h) ok;
  grows = λ a k r. ground (
    arith,
    ap (λ w. testbit w (k % 64)) (flag_at-mark q h a (k / 64)).0,
    is_reachable-mark q h a k,
  );
  marks = λ a k m. ap (λ w. testbit w (k % 64)) (flag_at-mark q h a (k / 64)).0 ∙ m;
  lists = mark-Lists q h;
  sweeping = mark-SameSweep q h;
  spends = λ size pages w. mark-potential size pages q h w;
  flags = mark-IsFlagged q h;
}

pub mark_slot-Step : (x : ℕ) (h : Heap) → Step h (mark_slot x h)
unfolding mark_slot
mark_slot-Step x h = elim (Bool-cases (h.memory x == unset_pointer)) [
  | inl u ↦ rw u (Step-refl h)
  | inr p ↦ rw p (mark-Step _ h)
]

pub mark_slot_covers : (x : ℕ) (h : Heap) → slot_covered (mark_slot x h) x ≡ true
mark_slot_covers x h = slot_covered_at x f (ground (arith, found))
  where
    f : Frame h (mark_slot x h)
    f = mark_slot-Frame x h

    q : ℕ
    q = h.memory x

    found : (q == unset_pointer) ≡ false → covered (mark_slot x h) q ≡ true
    found set = covered_at q f (
        ground (
          arith,
          is_registered-Frame (node_page h q) (node_index h q) f,
          is_marked-mark_slot x h (node_page h q) (node_index h q),
          is_reachable-mark_slot x h (node_page h q) (node_index h q),
        ))

pub covered-Step : {h h' : Heap} (q : ℕ) → Step h h' → covered h q ≡ true → covered h' q ≡ true
covered-Step q s c = covered-Frame q s.frame s.grows c

-- A pointer that was marked is covered.
pub mark_covers : (q : ℕ) (h : Heap) → covered (mark q h) q ≡ true
mark_covers q h = covered_at q (mark-Frame q h) (
    ground (
      arith,
      is_registered-Frame (node_page h q) (node_index h q) (mark-Frame q h),
      ap (λ w. testbit w (node_index h q % 64))
          (flag_at-mark q h (node_page h q) (node_index h q / 64)).0,
      is_reachable-mark q h (node_page h q) (node_index h q),
    ))

-- What a covered pointer points into is reached, and so is what a covered slot holds.
pub covered-reached :
    (q : ℕ) (h : Heap) (a k : ℕ)
    → covered h q ≡ true
    → points_at h q a k ≡ true
    → is_registered h a k ≡ true
    → is_reached h a k ≡ true
covered-reached q h a k c p r = elim (Bool-cases (is_reached h a k)) [
  | inl y ↦ y
  | inr n ↦
      absurd (ground (arith, ap₂ (is_registered h) i.0 i.1 ∙ r, ap₂ (is_reached h) i.0 i.1 ∙ n))
]
  where
    i : (node_page h q ≡ a) × (node_index h q ≡ k)
    i = (ground arith, ground arith)

pub slot_covered-reached :
    (x : ℕ) (h : Heap) (a k : ℕ)
    → slot_covered h x ≡ true
    → holds h x a k ≡ true
    → is_registered h a k ≡ true
    → is_reached h a k ≡ true
slot_covered-reached x h a k c p r =
    covered-reached (h.memory x) h a k (ground arith) (ground arith) r
