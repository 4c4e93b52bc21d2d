-- ===== src/Collector/Mark/Queue.antt =====
-- What `_mark` does to the list of reachable pages: a page is on it, or was waiting before, whenever
-- one of its objects is reachable.
use mathlib.Core.List.{Memᴰ}
use sgcl.Base.{
  ℕ, suc, ◌/◌, ◌%◌, ◌^◌, ◌≤◌, ◌<◌, ◌≡◌, refl, sym, ap, arith, true, false, ◌==◌, Bool-cases, inl,
  inr, ◌⊎◌, List, ==→eq,
}
use sgcl.Base.Bits.{testbit, bit_or-lt, pow-lt}
use sgcl.Page.{Flags, flag_mask_of}
use sgcl.Heap.{Heap, page_at, put_flag, flag_at}
use sgcl.Collector.Bits.{is_registered, is_reachable}
use sgcl.Base.Lists.{length}
use sgcl.Collector.Bits.{is_reached}
use sgcl.Collector.Measure.{IsWithin, potential, unreached_strict}
use sgcl.Collector.Mark.{push_reachable, to_mark, mark_object, mark}
use sgcl.Collector.Mark.Effect.{
  is_reachable-mark_object, flag_at-mark_object, is_marked-mark_object, mark_object-Frame,
  to_mark_lem,
}

-- The list of reachable pages after a stretch of marking.
pub record Lists (h h' : Heap) : Type 0 where
  pub listed : (a : ℕ) → Memᴰ a h.reachable_pages → Memᴰ a h'.reachable_pages
  pub fresh :
      (a : ℕ)
      → (page_at h' a).reachable ≡ true
      → ((page_at h a).reachable ≡ true) ⊎ Memᴰ a h'.reachable_pages
  pub keeps : (a : ℕ) → (page_at h a).reachable ≡ true → (page_at h' a).reachable ≡ true

pub Lists-refl : (h : Heap) → Lists h h
Lists-refl h = record { listed = λ a m. m; fresh = λ a r. inl r; keeps = λ a r. r }

pub Lists-trans : {h h' h'' : Heap} → Lists h h' → Lists h' h'' → Lists h h''
Lists-trans s t = record {
  listed = λ a m. t.listed a (s.listed a m);
  fresh = λ a r. elim (t.fresh a r) [
    | inl r' ↦ elim (s.fresh a r') [ inl r'' ↦ inl r'' | inr m ↦ inr (t.listed a m) ]
    | inr m ↦ inr m
  ];
  keeps = λ a r. t.keeps a (s.keeps a r);
}

-- Every page with a reachable object is flagged, every reachable object is registered, and the
-- reachable words have 64 bits.
pub record IsFlagged (h : Heap) : Type 0 where
  pub flagged : (a k : ℕ) → is_reachable h a k ≡ true → (page_at h a).reachable ≡ true
  pub registered : (a k : ℕ) → is_reachable h a k ≡ true → is_registered h a k ≡ true
  pub small : (a i : ℕ) → (flag_at h a i).reachable < 2 ^ 64

pub push_reachable-Lists : (n : ℕ) (h : Heap) → Lists h (push_reachable n h)
unfolding push_reachable
push_reachable-Lists n h = elim (Bool-cases (page_at h n).reachable) [
  | inl there ↦ rw there (Lists-refl h)
  | inr absent ↦ rw absent (record {
    listed = λ a m. Memᴰ.tail m;
    fresh = λ a r. elim (Bool-cases (n == a)) [
      | inl e ↦ inr (Memᴰ.head (sym (==→eq n a e)))
      | inr e ↦ inl (ground arith)
    ];
    keeps = λ a r. ground arith;
  })
]

pub reachable-push_reachable :
    (n : ℕ) (h : Heap) → (page_at (push_reachable n h) n).reachable ≡ true
unfolding push_reachable
reachable-push_reachable n h = ground arith

put_flag-Lists : (a i : ℕ) (f : Flags) (h : Heap) → Lists h (put_flag a i f h)
put_flag-Lists a i f h = record {
  listed = λ b m. m;
  fresh = λ b r. inl (ground arith);
  keeps = λ b r. ground arith;
}

mark_object-Lists : (n k : ℕ) (h : Heap) → Lists h (mark_object n k h)
unfolding mark_object
mark_object-Lists n k h = elim (Bool-cases (to_mark (flag_at h n (k / 64)) (flag_mask_of k))) [
  | inl t ↦ rw t (Lists-trans (put_flag-Lists n (k / 64) _ h) (push_reachable-Lists n _))
  | inr f ↦ rw f (Lists-refl h)
]

pub mark-Lists : (q : ℕ) (h : Heap) → Lists h (mark q h)
unfolding mark
mark-Lists q h = elim (Bool-cases (q == 0)) [
  | inl z ↦ rw z (Lists-refl h)
  | inr n ↦ rw n (mark_object-Lists _ _ h)
]

reachable-mark_object :
    (n k : ℕ) (h : Heap)
    → to_mark (flag_at h n (k / 64)) (flag_mask_of k) ≡ true
    → (page_at (mark_object n k h) n).reachable ≡ true
unfolding mark_object
reachable-mark_object n k h t = rw t (reachable-push_reachable n _)

mark_object-IsFlagged : (n k : ℕ) (h : Heap) → IsFlagged h → IsFlagged (mark_object n k h)
mark_object-IsFlagged n k h v = record {
  flagged = λ a m r. ground (
    arith,
    r,
    is_reachable-mark_object n k h a m,
    to_mark_lem (flag_at h n (k / 64)) (k % 64),
    reachable-mark_object n k h,
    Lists.keeps (mark_object-Lists n k h) a,
    v.flagged a m,
  );
  registered = λ a m r. ground (
    arith,
    r,
    is_reachable-mark_object n k h a m,
    ap (λ (f : Flags). testbit f.registered (m % 64)) (flag_at-mark_object n k h a (m / 64)),
    v.registered a m,
  );
  small = λ a i. ground (
    arith,
    ap Flags.reachable (flag_at-mark_object n k h a i),
    bit_or-lt 64 (flag_at h a i).reachable (2 ^ (k % 64)),
    pow-lt (k % 64) 64,
    v.small a i,
  );
}

pub mark-IsFlagged : (q : ℕ) (h : Heap) → IsFlagged h → IsFlagged (mark q h)
unfolding mark
mark-IsFlagged q h v = elim (Bool-cases (q == 0)) [
  | inl z ↦ rw z v
  | inr n ↦ rw n (mark_object-IsFlagged _ _ h v)
]

-- A page comes onto the list only with an object that was not reached before.
pub length-push_reachable :
    (n : ℕ) (h : Heap)
    → length (push_reachable n h).reachable_pages ≤ suc (length h.reachable_pages)
unfolding push_reachable
length-push_reachable n h = ground arith

length-mark_object :
    (n k : ℕ) (h : Heap)
    → length (mark_object n k h).reachable_pages ≤ suc (length h.reachable_pages)
unfolding mark_object
length-mark_object n k h = elim (Bool-cases (to_mark (flag_at h n (k / 64)) (flag_mask_of k))) [
  | inl t ↦ rw t (length-push_reachable n _)
  | inr f ↦ rw f (omega arith)
]

mark_object_skip :
    (n k : ℕ) (h : Heap)
    → to_mark (flag_at h n (k / 64)) (flag_mask_of k) ≡ false
    → mark_object n k h ≡ h
unfolding mark_object
mark_object_skip n k h f = rw f refl

mark_object-grows :
    (n k : ℕ) (h : Heap) (a m : ℕ)
    → is_reached h a m ≡ true
    → is_reached (mark_object n k h) a m ≡ true
mark_object-grows n k h a m r = ground (
  arith,
  is_reachable-mark_object n k h a m,
  ap (λ w. testbit w (m % 64)) (is_marked-mark_object n k h a (m / 64)).0,
)

mark_object-potential :
    (size : ℕ → ℕ) (pages : List ℕ) (n k : ℕ) (h : Heap)
    → IsWithin size pages h
    → potential size pages (mark_object n k h) ≤ potential size pages h
mark_object-potential size pages n k h w =
    elim (Bool-cases (to_mark (flag_at h n (k / 64)) (flag_mask_of k))) [
      | inl t ↦
          let bits = to_mark_lem (flag_at h n (k / 64)) (k % 64) (omega arith) in
          omega (
            arith,
            length-mark_object n k h,
            unreached_strict size pages n k (mark_object-Frame n k h) (mark_object-grows n k h) w
                (ground (arith, bits)) (ground (arith, bits))
                (ground (arith, bits, is_reachable-mark_object n k h n k)),
          )
      | inr f ↦ rw (mark_object_skip n k h f) (omega arith)
    ]

pub mark-potential :
    (size : ℕ → ℕ) (pages : List ℕ) (q : ℕ) (h : Heap)
    → IsWithin size pages h
    → potential size pages (mark q h) ≤ potential size pages h
unfolding mark
mark-potential size pages q h w = elim (Bool-cases (q == 0)) [
  | inl z ↦ rw z (omega arith)
  | inr n ↦ rw n (mark_object-potential size pages _ _ h w)
]
