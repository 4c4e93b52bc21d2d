-- ===== src/Collector/Updated/Effect.antt =====
-- sgcl/priv/collector.h, `_mark_updated`: which reachable bits it sets.
use Prim.Native.Nat.{bit_or}
use sgcl.Base.{
  ℕ, ◌+◌, ◌*◌, ◌/◌, ◌%◌, ◌^◌, ◌<◌, ◌≡◌, refl, sym, ap, ◌∙◌, arith, Bool, true, false, ◌==◌, ◌||◌,
  ◌&&◌, ltb, leb, Bool-cases, inl, inr,
}
use sgcl.Base.Bits.{has, has-pow, testbit-zero}
use sgcl.State
use sgcl.Heap.{Heap, page_at, flag_at, put_flag}
use sgcl.Collector.Bits.{is_reachable, testbit-set, flag_at-put_flag}
use sgcl.Collector.Groups.{for_groups, for_groups_inv}
use sgcl.Collector.Garbage.Effect.{garbage}
use sgcl.Collector.Garbage.Sweeps.{word_at, testbit-word_at}
use sgcl.Collector.Updated.{Update, updated_word, update_object}

-- An object that is not marked yet, and whose state says that it was touched.
abbrev pub touched : Heap → ℕ → ℕ → Bool
touched h a k =
    garbage h a k
    && leb State.reachable ((page_at h a).states k)
    && leb ((page_at h a).states k) State.unique_lock

-- The page `a` of `h` after its groups below `i` and the first `j` bits of group `i`.
pub record Touched (a : ℕ) (h : Heap) (i j : ℕ) (g : Heap) : Type 0 where
  pub reachable :
      (b k : ℕ)
      → is_reachable g b k
        ≡ (is_reachable h b k || ((a == b) && ltb k (i * 64 + j) && touched h a k))
  pub registered : (b n : ℕ) → (flag_at g b n).registered ≡ (flag_at h b n).registered
  pub marked : (b n : ℕ) → (flag_at g b n).marked ≡ (flag_at h b n).marked
  pub states : (b k : ℕ) → (page_at g b).states k ≡ (page_at h b).states k
  pub metadata : (b : ℕ) → (page_at g b).metadata ≡ (page_at h b).metadata

module _ (all : Bool) (a : ℕ) (h : Heap) where
  start : (i : ℕ) (s : Update) → Touched a h i 0 s.heap → updated_word a i s ≡ word_at a h i
  unfolding updated_word word_at
  start i s v = rw (v.registered a i, v.marked a i) refl

  bit_clear :
      (i j : ℕ) (g : Heap)
      → touched h a (i * 64 + j) ≡ false
      → Touched a h i j g
      → Touched a h i (j + 1) g
  bit_clear i j g n v = record {
    reachable =
        λ b k. ground (arith, v.reachable b k, λ (e : k ≡ i * 64 + j). ap (touched h a) e ∙ n);
    registered = v.registered;
    marked = v.marked;
    states = v.states;
    metadata = v.metadata;
  }

  abbrev set_bit : ℕ → ℕ → Heap → Heap
  set_bit i j g =
      put_flag a i (record (flag_at g a i) { reachable = bit_or (flag_at g a i).reachable (2 ^ j) })
        g

  bit_set :
      (i j : ℕ) (g : Heap)
      → j < 64
      → touched h a (i * 64 + j) ≡ true
      → Touched a h i j g
      → Touched a h i (j + 1) (set_bit i j g)
  bit_set i j g lt n v = record {
    reachable = λ b k.
        rw
          (flag_at-put_flag a i
            (record (flag_at g a i) { reachable = bit_or (flag_at g a i).reachable (2 ^ j) }) g b
            (k / 64))
          (ground (
            arith,
            v.reachable b k,
            testbit-set (flag_at g a i).reachable j (k % 64),
            λ (e : k ≡ i * 64 + j). ap (touched h a) e ∙ n,
          ));
    registered = λ b m. ground (arith, v.registered b m);
    marked = λ b m. ground (arith, v.marked b m);
    states = λ b k. ground (arith, v.states b k);
    metadata = λ b. ground (arith, v.metadata b);
  }

  object :
      (i j : ℕ) (s : Update)
      → j < 64
      → garbage h a (i * 64 + j) ≡ true
      → Touched a h i j s.heap
      → Touched a h i (j + 1) (update_object all a i j s).heap
  unfolding update_object
  object i j s lt n v =
      elim (Bool-cases (leb State.reachable state && leb state State.unique_lock)) [
        | inl t ↦ rw t (bit_set i j s.heap lt (ground (arith, v.states a (i * 64 + j))) v)
        | inr f ↦ rw f (elim (Bool-cases all) [
          | inl q ↦ rw q (bit_clear i j s.heap (ground (arith, v.states a (i * 64 + j))) v)
          | inr q ↦ rw q (bit_clear i j s.heap (ground (arith, v.states a (i * 64 + j))) v)
        ])
      ]
    where
      state : ℕ
      state = (page_at s.heap a).states (i * 64 + j)

  next : (i : ℕ) (g : Heap) → Touched a h i 64 g → Touched a h (i + 1) 0 g
  next i g v = record {
    reachable = λ b k. ground (arith, v.reachable b k);
    registered = v.registered;
    marked = v.marked;
    states = v.states;
    metadata = v.metadata;
  }

  pub clear : (i : ℕ) → word_at a h i ≡ 0 → (k : ℕ) → i ≡ k / 64 → garbage h a k ≡ false
  clear i z k e =
      ap (garbage h a) (let d : k ≡ i * 64 + k % 64 = omega arith in d)
      ∙ sym (testbit-word_at a h i (k % 64) (omega arith))
      ∙ ap (λ w. has w (2 ^ (k % 64))) z
      ∙ has-pow 0 (k % 64)
      ∙ testbit-zero (k % 64)

  skip : (i : ℕ) (g : Heap) → word_at a h i ≡ 0 → Touched a h i 0 g → Touched a h (i + 1) 0 g
  skip i g z v = record {
    reachable = λ b k. ground (arith, v.reachable b k, clear i z k);
    registered = v.registered;
    marked = v.marked;
    states = v.states;
    metadata = v.metadata;
  }

  pub groups-Touched :
      (count : ℕ)
      → Touched a h count 0
          (for_groups
            (updated_word a)
            (update_object all a)
            (λ i s. s)
            count
            (record { heap = h; reachable_page = false; unreachable_page = false })).heap
  groups-Touched count =
      for_groups_inv (updated_word a) (update_object all a) (λ i s. s)
        (λ i (t : Update). Touched a h i 0 t.heap) (λ i j (t : Update). Touched a h i j t.heap)
        (word_at a h) count _ (λ i t lo v. (start i t v, v))
        (λ i j t lo hi v. elim (Bool-cases (has (word_at a h i) (2 ^ j))) [
          | inl b ↦ rw b (object i j t hi (sym (testbit-word_at a h i j hi) ∙ b) v)
          | inr b ↦ rw b (bit_clear i j t.heap (ground (arith, testbit-word_at a h i j hi)) v)
        ])
        (λ i t nz v. next i t.heap v) (λ i t z v. skip i t.heap z v)
        (record {
          reachable = λ b k. ground arith;
          registered = λ b n. refl;
          marked = λ b n. refl;
          states = λ b k. refl;
          metadata = λ b. refl;
        })
