-- ===== src/Collector/Mark/Effect.antt =====
-- What `_mark` does to the flag bits: it sets the reachable bit of the object that the pointer points
-- into, if that object is registered and not marked, and no other bit.
use Prim.Native.Nat.{bit_and, bit_or}
use sgcl.Base.{
  ℕ, ◌/◌, ◌%◌, ◌^◌, ◌<◌, ◌≡◌, refl, ◌∙◌, arith, Bool, not, ◌&&◌, ◌||◌, ◌==◌, if◌then◌else◌,
  Bool-cases, inl, inr,
}
use sgcl.Base.Bits.{testbit, has-pow, complement, testbit-bit_and, testbit-complement}
use sgcl.Page.{Flags, flag_mask_of, page_of, index_of}
use sgcl.Heap.{Heap, page_at, flag_at, put_flag}
use sgcl.Collector.Bits.{
  is_registered, is_reachable, is_marked, is_reached, testbit-set, same_object,
}
use sgcl.Collector.Frame.{
  Frame, Frame-refl, Frame-trans, SameSweep, SameSweep-refl, SameSweep-trans,
}
use sgcl.Collector.Mark.{push_reachable, to_mark, mark_object, mark}

pub flag_at-push_reachable :
    (a : ℕ) (h : Heap) (b j : ℕ) → flag_at (push_reachable a h) b j ≡ flag_at h b j
unfolding push_reachable
flag_at-push_reachable a h b j = ground arith

pub to_mark_lem :
    (f : Flags) (j : ℕ)
    → j < 64
    → to_mark f (2 ^ j)
      ≡ (testbit f.registered j && not (testbit f.marked j) && not (testbit f.reachable j))
to_mark_lem f j lt =
    has-pow _ j
    ∙ ground (
      arith,
      testbit-bit_and (bit_and f.registered (complement 64 f.marked)) (complement 64 f.reachable) j,
      testbit-bit_and f.registered (complement 64 f.marked) j,
      testbit-complement 64 f.marked j,
      testbit-complement 64 f.reachable j,
    )

-- The flags after `mark_object`.
pub flag_at-mark_object :
    (n k : ℕ) (h : Heap) (b j : ℕ)
    → flag_at (mark_object n k h) b j ≡ (
        if to_mark (flag_at h n (k / 64)) (flag_mask_of k) && ((n == b) && (k / 64 == j))
        then record (flag_at h b j) {
          reachable = bit_or (flag_at h b j).reachable (flag_mask_of k);
        }
        else flag_at h b j)
unfolding mark_object
flag_at-mark_object n k h b j = ground (
  arith,
  flag_at-push_reachable n
      (put_flag n (k / 64)
        (record (flag_at h n (k / 64)) {
          reachable = bit_or (flag_at h n (k / 64)).reachable (flag_mask_of k);
        })
        h)
      b j,
)

pub is_reachable-mark_object :
    (n k : ℕ) (h : Heap) (a m : ℕ)
    → is_reachable (mark_object n k h) a m ≡ (
        is_reachable h a m
        || ((n == a) && (k == m) && is_registered h n k && not (is_marked h n k)))
is_reachable-mark_object n k h a m = rw (flag_at-mark_object n k h a (m / 64)) (
    ground (
      arith,
      to_mark_lem (flag_at h n (k / 64)) (k % 64),
      testbit-set (flag_at h a (m / 64)).reachable (k % 64) (m % 64),
      same_object k m,
    ))

pub is_marked-mark_object :
    (n k : ℕ) (h : Heap) (a i : ℕ)
    → ((flag_at (mark_object n k h) a i).marked ≡ (flag_at h a i).marked)
      × ((flag_at (mark_object n k h) a i).registered ≡ (flag_at h a i).registered)
is_marked-mark_object n k h a i = rw (flag_at-mark_object n k h a i) (ground arith)

-- The object that a pointer points into.
abbrev pub node_page : Heap → ℕ → ℕ
node_page h q = page_of h.store q

abbrev pub node_index : Heap → ℕ → ℕ
node_index h q = index_of (page_at h (page_of h.store q)) q

abbrev pub points_at : Heap → ℕ → ℕ → ℕ → Bool
points_at h q a k = not (q == 0) && (node_page h q == a) && (node_index h q == k)

-- A pointer needs no more marking: it is null, or points into an object that is not registered or
-- is reached already.
abbrev pub covered : Heap → ℕ → Bool
covered h q =
    q == 0
    || not (is_registered h (node_page h q) (node_index h q))
    || is_reached h (node_page h q) (node_index h q)

pub is_reachable-mark :
    (q : ℕ) (h : Heap) (a k : ℕ)
    → is_reachable (mark q h) a k
      ≡ (is_reachable h a k || (points_at h q a k && is_registered h a k && not (is_marked h a k)))
unfolding mark
is_reachable-mark q h a k =
    ground (arith, is_reachable-mark_object (node_page h q) (node_index h q) h a k)

pub flag_at-mark :
    (q : ℕ) (h : Heap) (a i : ℕ)
    → ((flag_at (mark q h) a i).marked ≡ (flag_at h a i).marked)
      × ((flag_at (mark q h) a i).registered ≡ (flag_at h a i).registered)
unfolding mark
flag_at-mark q h a i = ground (arith, is_marked-mark_object (node_page h q) (node_index h q) h a i)

pub push_reachable-Frame : (a : ℕ) (h : Heap) → Frame h (push_reachable a h)
unfolding push_reachable
push_reachable-Frame a h = record {
  memory = ground arith;
  header = ground arith;
  arrays = ground arith;
  maps = λ c. ground arith;
  metadata = λ b. ground arith;
  data_address = λ b. ground arith;
  multiplier = λ b. ground arith;
  states = λ b. ground arith;
  registered = λ b i. ground arith;
  lists = ground arith;
}

push_reachable-SameSweep : (a : ℕ) (h : Heap) → SameSweep h (push_reachable a h)
unfolding push_reachable
push_reachable-SameSweep a h = record { pages = ground arith; flags = λ b. ground arith }

pub put_flag-SameSweep : (a i : ℕ) (f : Flags) (h : Heap) → SameSweep h (put_flag a i f h)
put_flag-SameSweep a i f h = record { pages = refl; flags = λ b. ground arith }

-- Writing a group with the same registered word.
pub put_flag-Frame :
    (a i : ℕ) (f : Flags) (h : Heap)
    → f.registered ≡ (flag_at h a i).registered
    → Frame h (put_flag a i f h)
put_flag-Frame a i f h e = record {
  memory = refl;
  header = refl;
  arrays = refl;
  maps = λ c. refl;
  metadata = λ b. ground arith;
  data_address = λ b. ground arith;
  multiplier = λ b. ground arith;
  states = λ b. ground arith;
  registered = λ b j. ground arith;
  lists = refl;
}

pub mark_object-Frame : (n k : ℕ) (h : Heap) → Frame h (mark_object n k h)
unfolding mark_object
mark_object-Frame n k h = elim (Bool-cases (to_mark (flag_at h n (k / 64)) (flag_mask_of k))) [
  | inl t ↦ rw t (Frame-trans (put_flag-Frame n (k / 64) _ h refl) (push_reachable-Frame n _))
  | inr f ↦ rw f (Frame-refl h)
]

pub mark-Frame : (q : ℕ) (h : Heap) → Frame h (mark q h)
unfolding mark
mark-Frame q h = elim (Bool-cases (q == 0)) [
  | inl z ↦ rw z (Frame-refl h)
  | inr n ↦ rw n (mark_object-Frame _ _ h)
]

pub childs-mark : (q : ℕ) (h : Heap) → (mark q h).childs ≡ h.childs
unfolding mark mark_object push_reachable
childs-mark q h = ground arith

mark_object-SameSweep : (n k : ℕ) (h : Heap) → SameSweep h (mark_object n k h)
unfolding mark_object
mark_object-SameSweep n k h = elim (Bool-cases (to_mark (flag_at h n (k / 64)) (flag_mask_of k))) [
  | inl t ↦
      rw t (SameSweep-trans (put_flag-SameSweep n (k / 64) _ h) (push_reachable-SameSweep n _))
  | inr f ↦ rw f (SameSweep-refl h)
]

pub mark-SameSweep : (q : ℕ) (h : Heap) → SameSweep h (mark q h)
unfolding mark
mark-SameSweep q h = elim (Bool-cases (q == 0)) [
  | inl z ↦ rw z (SameSweep-refl h)
  | inr n ↦ rw n (mark_object-SameSweep _ _ h)
]
