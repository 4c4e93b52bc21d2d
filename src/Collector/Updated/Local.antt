-- ===== src/Collector/Updated/Local.antt =====
-- sgcl/priv/collector.h, `_mark_updated` on one page: what its two locals say when the loops are over.
use Prim.Native.Nat.{bit_or}
use sgcl.Base.{
  ℕ, ◌+◌, ◌*◌, ◌^◌, ◌<◌, ◌≡◌, refl, sym, ap, subst, ◌∙◌, arith, Bool, true, false, ==→eq, ◌==◌,
  ◌&&◌, ltb, leb, if◌then◌else◌, Bool-cases, inl, inr,
}
use sgcl.Base.Bits.{has, bit_or-lt, pow-lt}
use sgcl.State
use sgcl.Heap.{Heap, page_at, flag_at, put_flag}
use sgcl.Collector.Frame.{Frame, Frame-refl, Frame-trans}
use sgcl.Collector.Groups.{for_groups, for_groups_inv}
use sgcl.Collector.Mark.Effect.{put_flag-Frame}
use sgcl.Collector.Garbage.Effect.{garbage}
use sgcl.Collector.Garbage.Sweeps.{word_at, testbit-word_at}
use sgcl.Collector.Updated.{Update, updated_word, update_object}
use sgcl.Collector.Updated.Effect.{touched, clear}

-- The loops over page `a` of `h` after the objects below `n`.
pub record Local (all : Bool) (a : ℕ) (h : Heap) (n : ℕ) (s : Update) : Type 0 where
  pub frame : Frame h s.heap
  pub childs : s.heap.childs ≡ h.childs
  pub marked : (b i : ℕ) → (flag_at s.heap b i).marked ≡ (flag_at h b i).marked
  pub waiting : s.heap.reachable_pages ≡ h.reachable_pages
  pub sweeping : s.heap.unreachable_pages ≡ h.unreachable_pages
  pub flags :
      (b : ℕ)
      → ((page_at s.heap b).reachable ≡ (page_at h b).reachable)
        × ((page_at s.heap b).unreachable ≡ (page_at h b).unreachable)
  pub small :
      (b i : ℕ) → (flag_at h b i).reachable < 2 ^ 64 → (flag_at s.heap b i).reachable < 2 ^ 64
  pub quiet : s.reachable_page ≡ false → (b i : ℕ) → flag_at s.heap b i ≡ flag_at h b i
  pub cause : s.reachable_page ≡ true → (k : ℕ) × (touched h a k ≡ true)
  pub left :
      all ≡ true
      → s.unreachable_page ≡ false
      → (k : ℕ) → k < n
      → garbage h a k ≡ true
      → touched h a k ≡ true

module _ (all : Bool) (a : ℕ) (h : Heap) where
  Local-start :
      Local all a h 0 (record { heap = h; reachable_page = false; unreachable_page = false })
  Local-start = record {
    frame = Frame-refl h;
    childs = refl;
    marked = λ b i. refl;
    waiting = refl;
    sweeping = refl;
    flags = λ b. (refl, refl);
    small = λ b i lt. lt;
    quiet = λ e b i. refl;
    cause = λ e. absurd (ground arith);
    left = λ x y k lt. absurd (omega arith);
  }

  -- An object that is not looked at, or not touched and noted.
  pass :
      (n : ℕ) (s t : Update)
      → Local all a h n s
      → t.heap ≡ s.heap
      → t.reachable_page ≡ s.reachable_page
      → (t.unreachable_page ≡ false → s.unreachable_page ≡ false)
      → (all ≡ true → t.unreachable_page ≡ false → garbage h a n ≡ true → touched h a n ≡ true)
      → Local all a h (n + 1) t
  pass n s t v e r u g = record {
    frame = rw e v.frame;
    childs = ap (λ (x : Heap). x.childs) e ∙ v.childs;
    marked = λ b i. ap (λ (x : Heap). (flag_at x b i).marked) e ∙ v.marked b i;
    waiting = ap (λ (x : Heap). x.reachable_pages) e ∙ v.waiting;
    sweeping = ap (λ (x : Heap). x.unreachable_pages) e ∙ v.sweeping;
    flags = λ b. (
      ap (λ (x : Heap). (page_at x b).reachable) e ∙ (v.flags b).0,
      ap (λ (x : Heap). (page_at x b).unreachable) e ∙ (v.flags b).1,
    );
    small = λ b i lt. rw e (v.small b i lt);
    quiet = λ q b i. ap (λ (x : Heap). flag_at x b i) e ∙ v.quiet (sym r ∙ q) b i;
    cause = λ c. v.cause (sym r ∙ c);
    left = λ x y k lt m. elim (Bool-cases (k == n)) [
      | inl q ↦
          ground (arith, g x y, m, ap (garbage h a) (==→eq k n q), ap (touched h a) (==→eq k n q))
      | inr q ↦ v.left x (u y) k (ground arith) m
    ];
  }

  set :
      (i j : ℕ) (s : Update)
      → j < 64
      → touched h a (i * 64 + j) ≡ true
      → Local all a h (i * 64 + j) s
      → Local all a h (i * 64 + j + 1) (record s {
        heap =
            put_flag a i
              (record (flag_at s.heap a i) {
                reachable = bit_or (flag_at s.heap a i).reachable (2 ^ j);
              })
              s.heap;
        reachable_page = true;
      })
  set i j s lt t v = record {
    frame = Frame-trans v.frame (put_flag-Frame a i _ s.heap refl);
    childs = v.childs;
    marked = λ b m. ground (arith, v.marked b m);
    waiting = v.waiting;
    sweeping = v.sweeping;
    flags = λ b. ground (arith, v.flags b);
    small = λ b m l.
        ground
          (arith, v.small b m l, bit_or-lt 64 (flag_at s.heap a i).reachable (2 ^ j), pow-lt j 64);
    quiet = λ q. absurd (ground arith);
    cause = λ q. (i * 64 + j, t);
    left = λ x y k l m. elim (Bool-cases (k == i * 64 + j)) [
      | inl q ↦ ap (touched h a) (==→eq k (i * 64 + j) q) ∙ t
      | inr q ↦ v.left x y k (ground arith) m
    ];
  }

  object :
      (i j : ℕ) (s : Update)
      → j < 64
      → garbage h a (i * 64 + j) ≡ true
      → Local all a h (i * 64 + j) s
      → Local all a h (i * 64 + j + 1) (update_object all a i j s)
  unfolding update_object
  object i j s lt n v =
      elim (Bool-cases (leb State.reachable state && leb state State.unique_lock)) [
        | inl t ↦ rw t (set i j s lt (ground (arith, same)) v)
        | inr f ↦ rw f (noted all refl)
      ]
    where
      state : ℕ
      state = (page_at s.heap a).states (i * 64 + j)

      same : state ≡ (page_at h a).states (i * 64 + j)
      same = ap (λ (f : ℕ → ℕ). f (i * 64 + j)) (v.frame.states a)

      noted :
          (b : Bool)
          → all ≡ b
          → Local all a h (i * 64 + j + 1) (if b then record s { unreachable_page = true } else s)
      noted true e =
          pass _ s _ v refl refl (λ u. absurd (ground arith)) (λ x u. absurd (ground arith))
      noted false e = pass _ s _ v refl refl (λ u. u) (λ x. absurd (ground arith))

  skip :
      (i : ℕ) (s : Update)
      → word_at a h i ≡ 0
      → Local all a h (i * 64) s
      → Local all a h ((i + 1) * 64) s
  skip i s z v = record {
    frame = v.frame;
    childs = v.childs;
    marked = v.marked;
    waiting = v.waiting;
    sweeping = v.sweeping;
    flags = v.flags;
    small = v.small;
    quiet = v.quiet;
    cause = v.cause;
    left = λ x y k lt m. elim (Bool-cases (ltb k (i * 64))) [
      | inl lo ↦ v.left x y k (ground arith) m
      | inr hi ↦ absurd (ground (arith, clear all a h i z k, m))
    ];
  }

  word : (i : ℕ) (n : ℕ) (s : Update) → Local all a h n s → updated_word a i s ≡ word_at a h i
  unfolding updated_word word_at
  word i n s v = rw (v.frame.registered a i, v.marked a i) refl

  bit :
      (i j : ℕ) (s : Update)
      → j < 64
      → Local all a h (i * 64 + j) s
      → Local all a h
          (i * 64 + j + 1)
          (if has (word_at a h i) (2 ^ j) then update_object all a i j s else s)
  bit i j s lt v = elim (Bool-cases (has (word_at a h i) (2 ^ j))) [
    | inl b ↦ rw b (object i j s lt (sym (testbit-word_at a h i j lt) ∙ b) v)
    | inr b ↦ rw b (
        pass _ s s v refl refl (λ u. u)
          (λ x y m. absurd (ground (arith, testbit-word_at a h i j lt))))
  ]

  pub groups-Local :
      (count : ℕ)
      → Local all a h (count * 64) (
          for_groups
            (updated_word a)
            (update_object all a)
            (λ i s. s)
            count
            (record { heap = h; reachable_page = false; unreachable_page = false }))
  groups-Local count =
      for_groups_inv (updated_word a) (update_object all a) (λ i s. s)
        (λ i (t : Update). Local all a h (i * 64) t)
        (λ i j (t : Update). Local all a h (i * 64 + j) t) (word_at a h) count _
        (λ i t lo v. (word i _ t v, subst (λ n. Local all a h n t) (omega arith) v))
        (λ i j t lo hi v.
          subst
            (λ n.
              Local all a h n
                (if has (word_at a h i) (2 ^ j) then update_object all a i j t else t))
            (omega arith) (bit i j t hi v))
        (λ i t nz v. subst (λ n. Local all a h n t) (omega arith) v)
        (λ i t z v. skip i t z (subst (λ n. Local all a h n t) (omega arith) v)) Local-start
