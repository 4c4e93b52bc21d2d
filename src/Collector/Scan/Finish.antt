-- ===== src/Collector/Scan/Finish.antt =====
-- The page at the head of the list in `_mark_reachable`: when it is left, it has no reachable object, and
-- what its objects point to waits on the list.
use mathlib.Core.List.{Memᴰ}
use native.Mathlib.Nat.{le_trans}
use sgcl.Base.{
  ℕ, ◌/◌, ◌%◌, ◌≤◌, ◌<◌, ◌≡◌, sym, ap, ◌∙◌, arith, true, false, ◌==◌, inl, inr, ◌⊎◌, List,
  Bool-cases, ==→eq,
}
use sgcl.Base.Bits.{testbit, testbit-zero}
use sgcl.Page.{Flags, flags_count}
use sgcl.Heap.{Heap, page_at}
use sgcl.Collector.Bits.{is_registered, is_reachable, is_marked}
use sgcl.Collector.Frame.{Frame, Frame-trans, SameSweep, SameSweep-trans}
use sgcl.Collector.Measure.{
  IsWithin, IsWithin-Frame, unmarked, unmarked_mono, potential, unreached_mono, is_registered-Frame,
}
use sgcl.Collector.Mark.{update_childs}
use sgcl.Collector.Mark.Cover.{Step, Step-trans}
use sgcl.Collector.Mark.Queue.{IsFlagged}
use sgcl.Collector.Mark.Pointers.{update_childs-Step, flag_at-update_childs}
use sgcl.Collector.Scan.{scan_page, finish_page}
use sgcl.Collector.Scan.Ends.{IsClear, scan_page_ends, flags_count-Frame}
use sgcl.Collector.Scan.Falls.{IsReady}
use sgcl.Collector.Scan.Leave.{leave_list, leave_list-Frame, leave_list-SameSweep}

-- Every registered object is in a group of its page.
abbrev pub IsGrouped : Heap → Type 0
IsGrouped h = (a k : ℕ) → is_registered h a k ≡ true → k / 64 < flags_count (page_at h a)

pub IsGrouped-Frame : {h h' : Heap} → Frame h h' → IsGrouped h → IsGrouped h'
IsGrouped-Frame {h} {h'} f g a k r =
    ground (arith, flags_count-Frame a f, g a k (sym (is_registered-Frame a k f) ∙ r))

-- The page `a` was worked off.
pub record Finished (size : ℕ → ℕ) (pages : List ℕ) (a : ℕ) (h h' : Heap) : Type 0 where
  pub frame : Frame h h'
  pub ready : IsReady h'
  pub marks : (b k : ℕ) → is_marked h b k ≡ true → is_marked h' b k ≡ true
  pub waits :
      (b : ℕ)
      → (page_at h' b).reachable ≡ true
      → ((page_at h b).reachable ≡ true) ⊎ Memᴰ b h'.reachable_pages
  pub left : (page_at h' a).reachable ≡ false
  pub listed : (b : ℕ) → Memᴰ b h.reachable_pages → Memᴰ b h'.reachable_pages
  pub sweeping : SameSweep h h'
  pub spends : potential size pages h' ≤ potential size pages h

update_childs-IsReady : (c : ℕ) (h : Heap) → IsReady h → IsReady (update_childs c h)
update_childs-IsReady c h r = record {
  cache = Step.cache (update_childs-Step c h) r.cache;
  flags = Step.flags (update_childs-Step c h) r.flags;
  fresh = λ b k p.
      ap (λ (f : Flags). testbit f.marked (k % 64)) (flag_at-update_childs c h b (k / 64))
      ∙ r.fresh b k (
          ap (λ (f : Flags). testbit f.reachable (k % 64))
            (sym (flag_at-update_childs c h b (k / 64)))
          ∙ p);
}

-- A page whose words are zero has no reachable object.
no_reachable :
    (a : ℕ) (h : Heap)
    → IsGrouped h
    → IsFlagged h
    → IsClear a (flags_count (page_at h a)) h
    → (k : ℕ) → is_reachable h a k ≡ false
no_reachable a h g f c k = elim (Bool-cases (is_reachable h a k)) [
  | inr n ↦ n
  | inl r ↦
      ap (λ w. testbit w (k % 64)) (c (k / 64) (g a k (f.registered a k r))) ∙ testbit-zero (k % 64)
]

leave_list-IsReady :
    (a : ℕ) (h : Heap)
    → ((k : ℕ) → is_reachable h a k ≡ false)
    → IsReady h
    → IsReady (leave_list a h)
leave_list-IsReady a h none r = record {
  cache = r.cache;
  flags = record {
    flagged = λ b k p. elim (Bool-cases (a == b)) [
      | inl e ↦ absurd (ground (arith, none k, ==→eq a b e))
      | inr e ↦ ground (arith, r.flags.flagged b k)
    ];
    registered = λ b k p. ground (arith, r.flags.registered b k);
    small = λ b i. ground (arith, r.flags.small b i);
  };
  fresh = λ b k p. ground (arith, r.fresh b k);
}

pub finish_page_lem :
    (size : ℕ → ℕ) (pages : List ℕ) (fuel a : ℕ) (h : Heap)
    → IsWithin size pages h
    → IsGrouped h
    → IsReady h
    → unmarked size pages h < fuel
    → Finished size pages a h (finish_page fuel a h)
unfolding finish_page
finish_page_lem size pages fuel a h w g r lt = record {
  frame = Frame-trans s.frame (leave_list-Frame a h2);
  ready =
      leave_list-IsReady a h2
        (no_reachable a h2 (IsGrouped-Frame s.frame g) end.1.flags
          (λ m lo. end.2 m (ground (arith, flags_count-Frame a end.0.frame))))
        end.1;
  marks = λ b k m. ground (arith, s.marks b k m);
  waits = λ b p. s.lists.fresh b (ground arith);
  left = ground arith;
  listed = s.lists.listed;
  sweeping = SameSweep-trans s.sweeping (leave_list-SameSweep a h2);
  spends = le_trans (same_potential h2) (s.spends size pages w);
}
  where
    h1 : Heap
    h1 = update_childs (page_at h a).metadata.child_pointers h

    h2 : Heap
    h2 = scan_page fuel a h1

    first : Step h h1
    first = update_childs-Step (page_at h a).metadata.child_pointers h

    end : Step h1 h2 × IsReady h2 × IsClear a (flags_count (page_at h1 a)) h2
    end =
        scan_page_ends size pages fuel a h1 (IsWithin-Frame size pages first.frame w)
          (update_childs-IsReady _ h r)
          (omega (arith, unmarked_mono size pages first.frame first.marks))

    s : Step h h2
    s = Step-trans first end.0

    same_potential : (h : Heap) → potential size pages (leave_list a h) ≤ potential size pages h
    same_potential h =
        omega (arith, unreached_mono size pages (leave_list-Frame a h) (λ b k r. ground arith))
