-- ===== src/Collector/Mark/Pointers.antt =====
-- What marking the pointers of one object does: each of them is covered, only what they point into
-- becomes reachable, and the marked bits stay.
use mathlib.Core.List.{Memᴰ}
use mathlib.Core.List.Memᴰ
use sgcl.Base.{
  ℕ, ◌/◌, ◌%◌, ◌≡◌, refl, sym, ap, ◌∙◌, subst, arith, true, not, ◌&&◌, ◌==◌, Bool-cases, inl, inr,
  ◌⊎◌, List, [], ◌∷◌, for_each,
}
use sgcl.Base.Bits.{testbit}
use sgcl.Base.Lists.{All}
use sgcl.Page.{Page}
use sgcl.Heap.{Heap, flag_at, array_metadata_of}
use sgcl.Collector.Bits.{is_registered, is_reachable, is_marked}
use sgcl.Collector.Frame.{Frame, CacheOk}
use sgcl.Collector.Measure.{is_registered-Frame}
use sgcl.Collector.Mark.{mark_pointers, update_childs}
use sgcl.Collector.Mark.Cover.{
  Step, Step-refl, Step-trans, holds, holds-Frame, slot_covered, slot_covered-Step, mark_slot-Step,
  mark_slot_covers, is_reachable-mark_slot, is_marked-mark_slot, flag_at-mark_slot,
}
use sgcl.Collector.Mark.Slots.{
  mark_slot, object_slots, refresh, mark_pointers-slots, update_childs-Frame, update_childs-CacheOk,
}

-- Object `k` of page `a` is registered, and a slot of the list holds a pointer into it.
abbrev pub IsHeld : Heap → List ℕ → ℕ → ℕ → Type 0
IsHeld h slots a k = (x : ℕ) × Memᴰ x slots × (holds h x a k ≡ true) × (is_registered h a k ≡ true)

pub record Marked (slots : List ℕ) (h h' : Heap) : Type 0 where
  pub step : Step h h'
  pub kept : (a i : ℕ) → (flag_at h' a i).marked ≡ (flag_at h a i).marked
  pub sound :
      (a k : ℕ) → is_reachable h' a k ≡ true → (is_reachable h a k ≡ true) ⊎ IsHeld h slots a k
  pub fresh :
      (a k : ℕ) → is_reachable h' a k ≡ true → is_marked h a k ≡ true → is_reachable h a k ≡ true
  pub cover : All (λ x. slot_covered h' x ≡ true) slots

pub All-slot_covered :
    {h h' : Heap} (xs : List ℕ)
    → Step h h'
    → All (λ x. slot_covered h x ≡ true) xs
    → All (λ x. slot_covered h' x ≡ true) xs
All-slot_covered [] s c = tt
All-slot_covered (x ∷ xs) s c = (slot_covered-Step x s c.0, All-slot_covered xs s c.1)

-- What becomes reachable at the first slot is held by it.
sound_head :
    (x : ℕ) (xs : List ℕ) (h : Heap) (a k : ℕ)
    → is_reachable (mark_slot x h) a k ≡ true
    → (is_reachable h a k ≡ true) ⊎ IsHeld h (x ∷ xs) a k
sound_head x xs h a k r = elim (Bool-cases (is_reachable h a k)) [
  | inl old ↦ inl old
  | inr new ↦ inr (
    x,
    Memᴰ.head refl,
    ground (arith, is_reachable-mark_slot x h a k),
    ground (arith, is_reachable-mark_slot x h a k),
  )
]

IsHeld-tail :
    (x : ℕ) (xs : List ℕ) {h h' : Heap} (a k : ℕ)
    → Frame h h'
    → IsHeld h' xs a k
    → IsHeld h (x ∷ xs) a k
IsHeld-tail x xs a k f (y, m, p, r) =
    (y, Memᴰ.tail m, sym (holds-Frame y a k f) ∙ p, sym (is_registered-Frame a k f) ∙ r)

for_each-Marked : (xs : List ℕ) (h : Heap) → Marked xs h (for_each mark_slot xs h)
unfolding for_each
for_each-Marked [] h = record {
  step = Step-refl h;
  kept = λ a i. refl;
  sound = λ a k r. inl r;
  fresh = λ a k r m. r;
  cover = tt;
}
for_each-Marked (x ∷ xs) h =
    let first = mark_slot-Step x h in
    let rest = for_each-Marked xs (mark_slot x h) in
    record {
      step = Step-trans first rest.step;
      kept = λ a i. rest.kept a i ∙ (flag_at-mark_slot x h a i).0;
      sound = λ a k r. elim (rest.sound a k r) [
        | inl r' ↦ sound_head x xs h a k r'
        | inr held ↦ inr (IsHeld-tail x xs a k first.frame held)
      ];
      fresh = λ a k r m.
          ground
            (arith, rest.fresh a k r, is_marked-mark_slot x h a k, is_reachable-mark_slot x h a k);
      cover = (slot_covered-Step x rest.step (mark_slot_covers x h), rest.cover);
    }

pub flag_at-update_childs :
    (c : ℕ) (h : Heap) (a i : ℕ) → flag_at (update_childs c h) a i ≡ flag_at h a i
unfolding update_childs
flag_at-update_childs c h a i = refl

pub update_childs-Step : (c : ℕ) (h : Heap) → Step h (update_childs c h)
unfolding update_childs
update_childs-Step c h = record {
  frame = update_childs-Frame c h;
  cache = update_childs-CacheOk c h;
  grows = λ a k r. r;
  marks = λ a k m. m;
  sweeping = record { pages = refl; flags = λ a. refl };
  spends = λ size pages w. omega arith;
  lists = record { listed = λ a m. m; fresh = λ a r. inl r; keeps = λ a r. r };
  flags = λ v. record { flagged = v.flagged; registered = v.registered; small = v.small };
}

update_childs-Marked : (c : ℕ) (h : Heap) → Marked [] h (update_childs c h)
unfolding update_childs
update_childs-Marked c h = record {
  step = update_childs-Step c h;
  kept = λ a i. refl;
  sound = λ a k r. inl r;
  fresh = λ a k r m. r;
  cover = tt;
}

refresh-Marked : (page : Page) (ptr : ℕ) (h : Heap) → Marked [] h (refresh page ptr h)
unfolding refresh for_each
refresh-Marked page ptr h =
    elim (Bool-cases (page.metadata.is_array && not (array_metadata_of h ptr == 0))) [
      | inl t ↦ rw t (update_childs-Marked _ h)
      | inr f ↦ rw f (for_each-Marked [] h)
    ]

pub IsHeld-Frame :
    (xs : List ℕ) {h h' : Heap} (a k : ℕ) → Frame h h' → IsHeld h' xs a k → IsHeld h xs a k
IsHeld-Frame xs a k f (y, m, p, r) =
    (y, m, sym (holds-Frame y a k f) ∙ p, sym (is_registered-Frame a k f) ∙ r)

Marked-after : {h h' h'' : Heap} (xs : List ℕ) → Marked [] h h' → Marked xs h' h'' → Marked xs h h''
Marked-after xs first rest = record {
  step = Step-trans first.step rest.step;
  kept = λ a i. rest.kept a i ∙ first.kept a i;
  sound = λ a k r. elim (rest.sound a k r) [
    | inl r' ↦ elim (first.sound a k r') [
      | inl old ↦ inl old
      | inr held ↦ absurd (Memᴰ.not-nil held.1)
    ]
    | inr held ↦ inr (IsHeld-Frame xs a k first.step.frame held)
  ];
  fresh = λ a k r m.
      first.fresh a k (rest.fresh a k r (ap (λ w. testbit w (k % 64)) (first.kept a (k / 64)) ∙ m))
        m;
  cover = rest.cover;
}

-- Marking the pointers of an object covers what its slots hold and reaches nothing else.
pub mark_pointers-Marked :
    (page : Page) (ptr : ℕ) (h : Heap)
    → CacheOk h
    → Marked (object_slots h page ptr) h (mark_pointers page ptr h)
mark_pointers-Marked page ptr h ok =
    subst (Marked (object_slots h page ptr) h) (sym (mark_pointers-slots page ptr h ok)) (
      Marked-after (object_slots h page ptr) (refresh-Marked page ptr h)
        (for_each-Marked (object_slots h page ptr) (refresh page ptr h)))
