-- ===== src/Collector/Register/Effect.antt =====
-- sgcl/priv/collector.h, `_register_objects` on one page: which objects are registered.
use Prim.Native.Nat.{bit_or}
use sgcl.Base.{
  ℕ, ◌+◌, ◌*◌, ◌/◌, ◌%◌, ◌^◌, ◌≤◌, ◌<◌, ◌≡◌, ◌⊎◌, refl, ap, ◌∙◌, arith, Bool, true, not, ◌==◌, ◌||◌,
  ◌&&◌, ltb, leb, if◌then◌else◌, Bool-cases, ==→eq, inl, inr, for_range, for_range_inv,
}
use sgcl.Base.Bits.{testbit, has, has-pow, complement, testbit-complement, testbit-zero}
use sgcl.State
use sgcl.Page.{Flags, Page, clear_flags, flags_count}
use sgcl.Page.States.{clear_flags_lem}
use sgcl.Heap.{Heap, page_at, flag_at, put_flag, put_page}
use sgcl.Collector.Bits.{is_registered, testbit-set, flag_at-put_flag}
use sgcl.Collector.Register.{
  push_registered, register_bit, bit_count, register_group, register_page,
}

-- The state of an object that is constructed, or was, and not yet given back.
abbrev pub is_live_state : ℕ → Bool
is_live_state s = leb State.reachable s && leb s State.bad_alloc

abbrev pub to_register : Heap → ℕ → ℕ → Bool
to_register h a k =
    ltb k (page_at h a).metadata.object_count && is_live_state ((page_at h a).states k)

-- The page `a` of `h` after its groups below `i` and the first `j` bits of group `i`.
record Registered (a : ℕ) (h : Heap) (i j : ℕ) (g : Heap) : Type 0 where
  registered :
      (b k : ℕ)
      → is_registered g b k
        ≡ (is_registered h b k || ((a == b) && ltb k (i * 64 + j) && to_register h a k))
  reachable : (b n : ℕ) → (flag_at g b n).reachable ≡ (flag_at h b n).reachable
  marked : (b n : ℕ) → (flag_at g b n).marked ≡ (flag_at h b n).marked
  states : (b k : ℕ) → (page_at g b).states k ≡ (page_at h b).states k
  metadata : (b : ℕ) → (page_at g b).metadata ≡ (page_at h b).metadata
  rest : (n : ℕ) → i < n → (flag_at g a n).registered ≡ (flag_at h a n).registered

push_registered-same :
    (a : ℕ) (h : Heap) (b : ℕ)
    → ((page_at (push_registered a h) b).flags ≡ (page_at h b).flags)
      × ((page_at (push_registered a h) b).states ≡ (page_at h b).states)
      × ((page_at (push_registered a h) b).metadata ≡ (page_at h b).metadata)
unfolding push_registered
push_registered-same a h b = ground arith

Registered-push :
    (a : ℕ) (h : Heap) (i j : ℕ) (g : Heap)
    → Registered a h i j g
    → Registered a h i j (push_registered a g)
Registered-push a h i j g v = record {
  registered = λ b k.
      ap (λ (f : ℕ → Flags). testbit (f (k / 64)).registered (k % 64))
        (push_registered-same a g b).0
      ∙ v.registered b k;
  reachable = λ b n.
      ap (λ (f : ℕ → Flags). (f n).reachable) (push_registered-same a g b).0 ∙ v.reachable b n;
  marked =
      λ b n. ap (λ (f : ℕ → Flags). (f n).marked) (push_registered-same a g b).0 ∙ v.marked b n;
  states = λ b k. ap (λ (f : ℕ → ℕ). f k) (push_registered-same a g b).1 ∙ v.states b k;
  metadata = λ b. (push_registered-same a g b).2 ∙ v.metadata b;
  rest =
      λ n lt. ap (λ (f : ℕ → Flags). (f n).registered) (push_registered-same a g a).0 ∙ v.rest n lt;
}

module _ (a : ℕ) (h : Heap) where
  -- The bit needs no work: it is registered already, or not to be registered.
  bit_clear :
      (i j : ℕ) (g : Heap)
      → (is_registered h a (i * 64 + j) || not (to_register h a (i * 64 + j))) ≡ true
      → Registered a h i j g
      → Registered a h i (j + 1) g
  bit_clear i j g n v = record {
    registered = λ b k. ground (
      arith,
      v.registered b k,
      λ (e : k ≡ i * 64 + j). ap (λ m. is_registered h a m || not (to_register h a m)) e ∙ n,
    );
    reachable = v.reachable;
    marked = v.marked;
    states = v.states;
    metadata = v.metadata;
    rest = v.rest;
  }

  abbrev set_bit : ℕ → ℕ → Heap → Heap
  set_bit i j g =
      put_flag a i
        (record (flag_at g a i) { registered = bit_or (flag_at g a i).registered (2 ^ j) }) g

  bit_set :
      (i j : ℕ) (g : Heap)
      → j < 64
      → to_register h a (i * 64 + j) ≡ true
      → Registered a h i j g
      → Registered a h i (j + 1) (set_bit i j g)
  bit_set i j g lt n v = record {
    registered = λ b k.
        rw
          (flag_at-put_flag a i
            (record (flag_at g a i) { registered = bit_or (flag_at g a i).registered (2 ^ j) }) g b
            (k / 64))
          (ground (
            arith,
            v.registered b k,
            testbit-set (flag_at g a i).registered j (k % 64),
            λ (e : k ≡ i * 64 + j). ap (to_register h a) e ∙ n,
          ));
    reachable = λ b m. ground (arith, v.reachable b m);
    marked = λ b m. ground (arith, v.marked b m);
    states = λ b k. ground (arith, v.states b k);
    metadata = λ b. ground (arith, v.metadata b);
    rest = λ m lo. ground (arith, v.rest m lo);
  }

  bit :
      (i j w : ℕ) (g : Heap)
      → j < 64
      → i * 64 + j < (page_at h a).metadata.object_count
      → testbit w j ≡ not (is_registered h a (i * 64 + j))
      → Registered a h i j g
      → Registered a h i (j + 1) (register_bit a i w j g)
  unfolding register_bit
  bit i j w g lt lk e v = elim (Bool-cases (has w (2 ^ j))) [
    | inl t ↦ rw t (elim (Bool-cases (is_live_state ((page_at g a).states (i * 64 + j)))) [
      | inl l ↦ rw l (
          Registered-push a h i (j + 1) _
            (bit_set i j g lt (ground (arith, v.states a (i * 64 + j))) v))
      | inr l ↦ rw l (bit_clear i j g (ground (arith, v.states a (i * 64 + j))) v)
    ])
    | inr f ↦ rw f (bit_clear i j g (ground (arith, has-pow w j)) v)
  ]

  next :
      (i n : ℕ) (g : Heap)
      → (n ≡ 64) ⊎ (i * 64 + n ≡ (page_at h a).metadata.object_count)
      → n ≤ 64
      → Registered a h i n g
      → Registered a h (i + 1) 0 g
  next i n g e le v = record {
    registered = λ b k. ground (arith, v.registered b k);
    reachable = v.reachable;
    marked = v.marked;
    states = v.states;
    metadata = v.metadata;
    rest = λ m lo. v.rest m (omega arith);
  }

  -- The bits of the word that is read at the start of a group.
  word :
      (i j : ℕ) (g : Heap)
      → j < 64
      → Registered a h i 0 g
      → testbit (complement 64 (flag_at g a i).registered) j ≡ not (is_registered h a (i * 64 + j))
  word i j g lt v = testbit-complement 64 (flag_at g a i).registered j lt ∙ ap not (here ∙ before)
    where
      here : testbit (flag_at g a i).registered j ≡ is_registered g a (i * 64 + j)
      here = λ t.
          testbit (flag_at g a ((let e : i ≡ (i * 64 + j) / 64 = omega arith in e) t)).registered
            ((let e : j ≡ (i * 64 + j) % 64 = omega arith in e) t)

      before : is_registered g a (i * 64 + j) ≡ is_registered h a (i * 64 + j)
      before = ground (arith, v.registered a (i * 64 + j))

  skip :
      (i : ℕ) (g : Heap)
      → complement 64 (flag_at g a i).registered ≡ 0
      → Registered a h i 0 g
      → Registered a h (i + 1) 0 g
  skip i g z v = record {
    registered = λ b k. ground (arith, v.registered b k, full k);
    reachable = v.reachable;
    marked = v.marked;
    states = v.states;
    metadata = v.metadata;
    rest = λ m lo. v.rest m (omega arith);
  }
    where
      full : (k : ℕ) → i ≡ k / 64 → is_registered h a k ≡ true
      full k e =
          ap (is_registered h a) (let d : k ≡ i * 64 + k % 64 = omega arith in d)
          ∙ ground (
            arith,
            word i (k % 64) g (omega arith) v,
            ap (λ m. testbit m (k % 64)) z,
            testbit-zero (k % 64),
          )

  bit_count_lem :
      (p : Page) (i : ℕ)
      → i < flags_count p
      → ((bit_count p i ≡ 64) ⊎ (i * 64 + bit_count p i ≡ p.metadata.object_count))
        × (bit_count p i ≤ 64)
        × (i * 64 + bit_count p i ≤ p.metadata.object_count)
  unfolding bit_count flags_count
  bit_count_lem p i lt = ground arith

  bit_count-metadata :
      (p q : Page) (i : ℕ) → p.metadata ≡ q.metadata → bit_count p i ≡ bit_count q i
  unfolding bit_count flags_count
  bit_count-metadata p q i e = ground arith

  group :
      (i : ℕ) (g : Heap)
      → i < flags_count (page_at h a)
      → Registered a h i 0 g
      → Registered a h (i + 1) 0 (register_group a i g)
  unfolding register_group
  group i g lt v = elim (Bool-cases (complement 64 (flag_at g a i).registered == 0)) [
    | inl z ↦ rw z (skip i g (==→eq _ _ z) v)
    | inr nz ↦
        rw (nz, bit_count-metadata (page_at g a) (page_at h a) i (v.metadata a))
          (next i (bit_count (page_at h a) i) _ (bit_count_lem (page_at h a) i lt).0
            (bit_count_lem (page_at h a) i lt).1
            (for_range_inv (λ j g. Registered a h i j g)
              (register_bit a i (complement 64 (flag_at g a i).registered))
              (bit_count (page_at h a) i) 0 (bit_count (page_at h a) i) g (omega arith)
              (λ j g' lo hi w.
                bit i j _ g' (omega (arith, (bit_count_lem (page_at h a) i lt).1))
                  (omega (arith, (bit_count_lem (page_at h a) i lt).2))
                  (word i j g (omega (arith, (bit_count_lem (page_at h a) i lt).1)) v) w)
              v))
  ]

  groups :
      (count : ℕ)
      → count ≡ flags_count (page_at h a)
      → Registered a h count 0 (for_range count 0 (register_group a) h)
  groups count e =
      for_range_inv (λ i g. Registered a h i 0 g) (register_group a) count 0 count h (omega arith)
        (λ i g lo hi v. group i g (omega (arith, e)) v)
        (record {
          registered = λ b k. ground arith;
          reachable = λ b n. refl;
          marked = λ b n. refl;
          states = λ b k. refl;
          metadata = λ b. refl;
          rest = λ n lo. refl;
        })

record Kept (p q : Page) : Type 0 where
  metadata : q.metadata ≡ p.metadata
  states : q.states ≡ p.states

kept :
    (a : ℕ) (h : Heap) → Kept (page_at h a) (page_at (put_page a (clear_flags (page_at h a)) h) a)
kept a h = record {
  metadata = ground (arith, (clear_flags_lem (page_at h a) 0).2);
  states = ground (arith, (clear_flags_lem (page_at h a) 0).1);
}

-- For a page in use, the loop of `_register_objects` clears the reachable and the marked word of each
-- of the page's groups, and registers the page's objects whose states are from `Reachable` to
-- `BadAlloc`; objects that were registered stay so, the states stay, and other pages too.
pub register_page_lem :
    (a : ℕ) (h : Heap) (b k : ℕ)
    → let h' = register_page a h in
      let cleared = (a == b) && ltb k (flags_count (page_at h a)) in
      (is_registered h' b k ≡ (is_registered h b k || ((a == b) && to_register h a k)))
      × ((flag_at h' b k).reachable ≡ (if cleared then 0 else (flag_at h b k).reachable))
      × ((flag_at h' b k).marked ≡ (if cleared then 0 else (flag_at h b k).marked))
      × ((page_at h' b).states k ≡ (page_at h b).states k)
unfolding register_page flags_count
register_page_lem a h b k = (
  v.registered b k
      ∙ ground (
        arith,
        ap (λ m. testbit m (k % 64)) (flag_kept b (k / 64)),
        here.metadata,
        ap (λ (f : ℕ → ℕ). f k) here.states,
      ),
  v.reachable b k ∙ ap (λ (f : Flags). f.reachable) (flag_cleared b k) ∙ ground arith,
  v.marked b k ∙ ap (λ (f : Flags). f.marked) (flag_cleared b k) ∙ ground arith,
  v.states b k ∙ ground (arith, ap (λ (f : ℕ → ℕ). f k) here.states),
)
  where
    h1 : Heap
    h1 = put_page a (clear_flags (page_at h a)) h

    v :
        Registered a h1
          (flags_count (page_at h1 a))
          0
          (for_range (flags_count (page_at h1 a)) 0 (register_group a) h1)
    v = groups a h1 (flags_count (page_at h1 a)) refl

    here : Kept (page_at h a) (page_at h1 a)
    here = kept a h

    flag_cleared :
        (b n : ℕ)
        → flag_at h1 b n ≡ (
            if (a == b) && ltb n (flags_count (page_at h a))
            then record (flag_at h b n) { reachable = 0; marked = 0 }
            else flag_at h b n)
    flag_cleared b n = ground (arith, (clear_flags_lem (page_at h a) n).0)

    flag_kept : (b n : ℕ) → (flag_at h1 b n).registered ≡ (flag_at h b n).registered
    flag_kept b n = ap (λ (f : Flags). f.registered) (flag_cleared b n) ∙ ground arith
