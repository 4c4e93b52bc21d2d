-- ===== src/Collector/Scan/Keeps.antt =====
-- Every part of `_mark_reachable` keeps the invariant, however many rounds it makes.
use Prim.Native.Nat.{bit_and}
use sgcl.Base.{
  ℕ, ◌+◌, ◌*◌, ◌/◌, ◌%◌, ◌^◌, ◌<◌, ◌≡◌, sym, ap, ap₂, ◌∙◌, subst, subst₂, arith, true, false, ◌&&◌,
  ◌||◌, ◌==◌, Bool-cases, inl, inr, for_range_inv, while_keeps,
}
use sgcl.Base.Bits.{testbit, has, has-pow, complement}
use sgcl.Base.Lists.{All}
use sgcl.Page.{Flags, flags_count}
use sgcl.Heap.{Heap, page_at, flag_at}
use sgcl.Collector.Bits.{is_reachable, is_marked, is_reached}
use sgcl.Collector.Frame.{Frame-trans}
use sgcl.Collector.Mark.{update_childs}
use sgcl.Collector.Mark.Cover.{Step, slot_covered}
use sgcl.Collector.Mark.Pointers.{
  IsHeld, IsHeld-Frame, All-slot_covered, update_childs-Step, flag_at-update_childs,
}
use sgcl.Collector.Reach.{slots, slots-Frame, Reach, follow, Inv, Inv-Step}
use sgcl.Collector.Scan.{
  Scan, visit, scan_bit, drop_marked, scan_bits, has_reachable, scan_word, scan_words, scan_page,
}
use sgcl.Collector.Scan.Flag.{
  put_flag-Step, drop_marked-IsLater, is_reachable-put_flag, is_marked-put_flag,
}
use sgcl.Collector.Scan.Visit.{Visited, visit-Visited}

pub is_reachable-object :
    (a i j : ℕ) (h : Heap)
    → j < 64
    → is_reachable h a (i * 64 + j) ≡ testbit (flag_at h a i).reachable j
is_reachable-object a i j h lt =
    ap₂ (λ g b. testbit (flag_at h a g).reachable b) (omega arith) (omega arith)

-- Visiting a reachable object keeps the invariant.
module _ {h₀ h : Heap} (a i j : ℕ) (v : Inv h₀ h) (lt : j < 64)
    (r : testbit (flag_at h a i).reachable j ≡ true) where
  w : Visited a i j h (visit a i j h)
  w = visit-Visited a i j h lt v.cache

  here : Reach h₀ a (i * 64 + j)
  here = v.sound a (i * 64 + j) (ground (arith, is_reachable-object a i j h lt))

  -- The object that was marked.
  marked_here : (b n : ℕ) → ((a == b) && (i * 64 + j == n)) ≡ true → Reach h₀ b n
  marked_here b n e = subst₂ (Reach h₀) (ground arith) (ground arith) here

  reached_here : (b n : ℕ) → IsHeld h (slots h a (i * 64 + j)) b n → Reach h₀ b n
  reached_here b n held = follow here (
      IsHeld-Frame (slots h₀ a (i * 64 + j)) b n v.frame
        (subst (λ xs. IsHeld h xs b n) (slots-Frame a (i * 64 + j) v.frame) held))

  sound_after : (b n : ℕ) → is_reached (visit a i j h) b n ≡ true → Reach h₀ b n
  sound_after b n p = elim (Bool-cases (is_reachable (visit a i j h) b n)) [
    | inl q ↦ elim (w.sound b n q) [
      | inl old ↦ v.sound b n (ground arith)
      | inr held ↦ reached_here b n held
    ]
    | inr q ↦ elim (Bool-cases ((a == b) && (i * 64 + j == n))) [
      | inl e ↦ marked_here b n e
      | inr e ↦ v.sound b n (ground (arith, w.marks b n))
    ]
  ]

  closed_after :
      (b n : ℕ)
      → is_marked (visit a i j h) b n ≡ true
      → All (λ x. slot_covered (visit a i j h) x ≡ true) (slots h₀ b n)
  closed_after b n m = elim (Bool-cases (is_marked h b n)) [
    | inl old ↦ All-slot_covered (slots h₀ b n) w.step (v.closed b n old)
    | inr new ↦
        subst₂ (λ b n. All (λ x. slot_covered (visit a i j h) x ≡ true) (slots h₀ b n))
          (ground (arith, w.marks b n)) (ground (arith, w.marks b n))
          (subst (All (λ x. slot_covered (visit a i j h) x ≡ true))
            (slots-Frame a (i * 64 + j) v.frame) w.cover)
  ]

  pub visit-Inv : Inv h₀ (visit a i j h)
  visit-Inv = record {
    frame = Frame-trans v.frame w.step.frame;
    cache = w.step.cache v.cache;
    grows = λ b n p. w.step.grows b n (v.grows b n p);
    sound = sound_after;
    closed = closed_after;
  }

scan_bit-Inv :
    {h₀ : Heap} (a i j : ℕ) (s : Scan) → j < 64 → Inv h₀ s.heap → Inv h₀ (scan_bit a i j s).heap
unfolding scan_bit
scan_bit-Inv {h₀} a i j s lt v = elim (Bool-cases (has (flag_at s.heap a i).reachable (2 ^ j))) [
  | inl t ↦ rw t (visit-Inv a i j v lt (sym (has-pow _ j) ∙ t))
  | inr f ↦ rw f v
]

pub drop_marked-Step : (a i : ℕ) (h : Heap) → Step h (drop_marked a i h)
unfolding drop_marked
drop_marked-Step a i h = put_flag-Step a i _ h (drop_marked-IsLater (flag_at h a i))

drop_marked-Inv : {h₀ : Heap} (a i : ℕ) (h : Heap) → Inv h₀ h → Inv h₀ (drop_marked a i h)
unfolding drop_marked
drop_marked-Inv a i h v =
    Inv-Step v (drop_marked-Step a i h)
      (λ b n m. ground (arith, is_marked-put_flag a i (dropped (flag_at h a i)) h b n))
      (λ b n r. ground (
        arith,
        is_marked-put_flag a i (dropped (flag_at h a i)) h b n,
        is_reachable-put_flag a i (dropped (flag_at h a i)) h b n,
        (drop_marked-IsLater (flag_at h a i)).reachable (n % 64),
      ))
  where
    dropped : Flags → Flags
    dropped f = record f { reachable = bit_and f.reachable (complement 64 f.marked) }

scan_bits-Inv : {h₀ : Heap} (a i : ℕ) (s : Scan) → Inv h₀ s.heap → Inv h₀ (scan_bits a i s).heap
unfolding scan_bits
scan_bits-Inv {h₀} a i s v = drop_marked-Inv a i _ (
    for_range_inv (λ j (s : Scan). Inv h₀ s.heap) (scan_bit a i) 64 0 64 s (omega arith)
      (λ j s lo hi w. scan_bit-Inv a i j s hi w) v)

scan_word-Inv :
    {h₀ : Heap} (fuel a i : ℕ) (s : Scan) → Inv h₀ s.heap → Inv h₀ (scan_word fuel a i s).heap
unfolding scan_word
scan_word-Inv {h₀} fuel a i s v =
    while_keeps (λ (s : Scan). Inv h₀ s.heap) fuel (has_reachable a i) (scan_bits a i)
      (λ s t w. scan_bits-Inv a i s w) s v

scan_words-Inv :
    {h₀ : Heap} (fuel a : ℕ) (s : Scan) → Inv h₀ s.heap → Inv h₀ (scan_words fuel a s).heap
unfolding scan_words
scan_words-Inv {h₀} fuel a s v =
    for_range_inv (λ i (s : Scan). Inv h₀ s.heap) (scan_word fuel a)
      (flags_count (page_at s.heap a)) 0 (flags_count (page_at s.heap a))
      (record s { marked = false }) (omega arith) (λ i s lo hi w. scan_word-Inv fuel a i s w) v

pub scan_page-Inv : {h₀ : Heap} (fuel a : ℕ) (h : Heap) → Inv h₀ h → Inv h₀ (scan_page fuel a h)
unfolding scan_page
scan_page-Inv {h₀} fuel a h v =
    while_keeps (λ (s : Scan). Inv h₀ s.heap) fuel _ (scan_words fuel a)
      (λ s t w. scan_words-Inv fuel a s w) _ (scan_words-Inv fuel a _ v)

pub update_childs-Inv : {h₀ : Heap} (c : ℕ) (h : Heap) → Inv h₀ h → Inv h₀ (update_childs c h)
update_childs-Inv c h v =
    Inv-Step v (update_childs-Step c h)
      (λ a k m.
        ap (λ (f : Flags). testbit f.marked (k % 64)) (sym (flag_at-update_childs c h a (k / 64)))
        ∙ m)
      (λ a k r.
        ap (λ (f : Flags). testbit f.marked (k % 64) || testbit f.reachable (k % 64))
          (sym (flag_at-update_childs c h a (k / 64)))
        ∙ r)
