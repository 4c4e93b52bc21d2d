-- ===== src/Maker/Registers.antt =====
-- sgcl/priv/maker.h and sgcl/priv/tracked_ptr.h: the first construction of a type fills its map.
use sgcl.Base.{
  ℕ, ◌+◌, ◌-◌, ◌*◌, ◌/◌, ◌%◌, ◌^◌, ◌≤◌, ◌<◌, ◌≡◌, ◌≢◌, ◌∙◌, refl, sym, ap, arith, Bool, true, false,
  ltb, ◌||◌, ◌==◌, Bool-cases, ==→eq, inl, inr, some, List, [], ◌∷◌, update,
}
use sgcl.Base.Bits.{testbit, testbit-bit_or, testbit-pow}
use sgcl.Base.Lists.{occurs}
use sgcl.Types.{word_size}
use sgcl.State
use sgcl.ChildPointers.{register_pointer}
use sgcl.Maker.Ends.{returned-thrown, invalid-returned}
use sgcl.Maker.{
  Making, Outcome, returned, thrown, invalid, Body, done, member, register, construct_pointer, fill,
  use_child_pointers, set_place, catch_all, leave_first, update_allocated, and_then, construct,
  make_first, make, run,
}

-- The constructor of an object whose pointers lie at `xs`.
pub members : List ℕ → Body
members [] = done
members (x ∷ xs) = member x (members xs)

-- Whether the map says that word `k` of an object is a pointer.
unfoldable pub map_bit : (ℕ → ℕ) → ℕ → Bool
map_bit map k = testbit (map (k / 8)) (k % 8)

map_bit-register_pointer :
    (mem x k : ℕ) (map : ℕ → ℕ)
    → mem ≤ x
    → x < 2 ^ 64
    → (x - mem) % 8 ≡ 0
    → map_bit (register_pointer x mem map) k ≡ map_bit map k || (mem + k * 8 == x)
unfolding map_bit register_pointer
map_bit-register_pointer mem x k map le lt al =
    elim (Bool-cases ((x + 2 ^ 64 - mem) % 2 ^ 64 / 8 / 8 == k / 8)) [
      | inl e ↦ rw e (
          let i : (x + 2 ^ 64 - mem) % 2 ^ 64 / 8 / 8 ≡ k / 8 = ==→eq _ _ e in
          testbit-bit_or (map ((x + 2 ^ 64 - mem) % 2 ^ 64 / 8 / 8))
            (2 ^ ((x + 2 ^ 64 - mem) % 2 ^ 64 / 8 % 8)) (k % 8)
          ∙ ground (
            arith,
            i,
            ap map i,
            ap (λ (w : ℕ). testbit w (k % 8)) (ap map i),
            testbit-pow ((x + 2 ^ 64 - mem) % 2 ^ 64 / 8 % 8) (k % 8),
          ))
      | inr e ↦ rw e (ground arith)
    ]

-- The pointers of an object that is the first of its type, before they are constructed.
record IsFirst (t mem : ℕ) (xs : List ℕ) (m : Making) : Type 0 where
  map : m.child_map ≡ some t
  base : m.child_base ≡ mem
  place : (x : ℕ) → 0 < occurs x xs → (mem ≤ x) × (x < 2 ^ 64) × ((x - mem) % 8 ≡ 0)
  ones : (x : ℕ) → 0 < occurs x xs → m.words x ≢ 0
  once : (x : ℕ) → occurs x xs ≤ 1

-- The type's map has the words of the pointers besides those it had.
record IsRegistered (t mem : ℕ) (xs : List ℕ) (m : Making) (r : Outcome × Making) : Type 0 where
  outcome : r.0 ≡ returned
  bits :
      (k : ℕ)
      → map_bit (r.1.tables t).map k ≡ map_bit (m.tables t).map k || ltb 0 (occurs (mem + k * 8) xs)

-- After the construction of the pointer at `x`.
abbrev registered : ℕ → ℕ → Making → Making
registered t x m = record m {
  tables =
      update m.tables t
        (record (m.tables t) { map = register_pointer x m.child_base (m.tables t).map });
  words = update m.words x 0;
}

construct_pointer-registered :
    (t mem x : ℕ) (xs : List ℕ) (m : Making)
    → IsFirst t mem (x ∷ xs) m
    → construct_pointer x m ≡ (returned, registered t x m)
unfolding construct_pointer register occurs
construct_pointer-registered t mem x xs m h =
    let z : (m.words x == 0) ≡ false = ground (arith, h.ones x (ground arith)) in
    rw (z, h.map, register) refl

registered-IsFirst :
    (t mem x : ℕ) (xs : List ℕ) (m : Making)
    → IsFirst t mem (x ∷ xs) m
    → IsFirst t mem xs (registered t x m)
unfolding occurs
registered-IsFirst t mem x xs m h = record {
  map = h.map;
  base = h.base;
  place = λ y lt. h.place y (ground arith);
  ones = λ y lt. ground (arith, h.ones y (ground arith), h.once y);
  once = λ y. ground (arith, h.once y);
}

run-members :
    (t mem : ℕ) (xs : List ℕ) (m : Making)
    → IsFirst t mem xs m
    → IsRegistered t mem xs m (run (members xs) m)
unfolding run members and_then occurs
run-members t mem [] m h = record { outcome = refl; bits = λ k. ground arith }
run-members t mem (x ∷ xs) m h =
    let r = run-members t mem xs (registered t x m) (registered-IsFirst t mem x xs m h) in
    let p = h.place x (ground arith) in
    rw (construct_pointer-registered t mem x xs m h, and_then)
      (record {
        outcome = r.outcome;
        bits = λ k. ground (
          arith,
          r.bits k,
          map_bit-register_pointer mem x k (m.tables t).map p.0 p.1 p.2,
          ap (λ (b : ℕ). map_bit (register_pointer x b (m.tables t).map) k) h.base,
        );
      })

-- The end of a first construction.
finished :
    (t mem size : ℕ) (xs : List ℕ) (old s : Making) (r : Outcome × Making)
    → IsRegistered t mem xs s r
    → let e = update_allocated size (leave_first t old (catch_all mem r)) in
      IsRegistered t mem xs s e × ((e.1.tables t).final ≡ true)
unfolding update_allocated leave_first catch_all use_child_pointers
finished t mem size xs old s (returned, m1) h = (
  record {
    outcome = refl;
    bits = λ k.
        let e : (update m1.tables t (record (m1.tables t) { final = true }) t).map
            ≡ (m1.tables t).map =
          ground arith in
        ap (λ f. map_bit f k) e ∙ h.bits k;
  },
  ground arith,
)
finished t mem size xs old s (thrown, m1) h = absurd (returned-thrown (sym h.outcome))
finished t mem size xs old s (invalid, m1) h = absurd (invalid-returned h.outcome)

-- Where the constructor starts.
abbrev start : ℕ → ℕ → ℕ → Making → Making
start t mem size m =
    set_place mem State.unique_lock (use_child_pointers mem (some t) (fill mem size (2 ^ 64 - 1) m))

start-map :
    (t mem size : ℕ) (m : Making) (k : ℕ)
    → map_bit ((start t mem size m).tables t).map k ≡ map_bit (m.tables t).map k
unfolding use_child_pointers fill
start-map t mem size m k = refl

start-IsFirst :
    (t mem size : ℕ) (xs : List ℕ) (m : Making)
    → mem + size ≤ 2 ^ 64
    → ((x : ℕ) → 0 < occurs x xs → (mem ≤ x) × (x + word_size ≤ mem + size) × ((x - mem) % 8 ≡ 0))
    → ((x : ℕ) → occurs x xs ≤ 1)
    → IsFirst t mem xs (start t mem size m)
unfolding use_child_pointers fill
start-IsFirst t mem size xs m le place once = record {
  map = refl;
  base = refl;
  place = λ x lt. let p = place x lt in (p.0, omega (arith, p.1), p.2);
  ones = λ x lt. let p = place x lt in ground (arith, p.0, p.1);
  once = once;
}

-- Making the first object of a type registers the words of its pointers in the type's map, besides those that
-- the map had, and makes the map final, where the pointers are constructed at different whole words
-- of the object.
pub first_registers :
    (t mem size : ℕ) (xs : List ℕ) (m : Making)
    → (m.tables t).final ≡ false
    → mem + size ≤ 2 ^ 64
    → ((x : ℕ) → 0 < occurs x xs → (mem ≤ x) × (x + word_size ≤ mem + size) × ((x - mem) % 8 ≡ 0))
    → ((x : ℕ) → occurs x xs ≤ 1)
    → let r = make t mem size (run (members xs)) m in
      (r.0 ≡ returned)
      × ((r.1.tables t).final ≡ true)
      × ((k : ℕ)
          → map_bit (r.1.tables t).map k
            ≡ map_bit (m.tables t).map k || ltb 0 (occurs (mem + k * 8) xs))
unfolding make make_first construct
first_registers t mem size xs m nf le place once = rw nf (
    let f =
      finished t mem size xs m (start t mem size m) _
        (run-members t mem xs (start t mem size m) (start-IsFirst t mem size xs m le place once)) in
    (
      f.0.outcome,
      f.1,
      λ k. f.0.bits k ∙ ap (λ b. b || ltb 0 (occurs (mem + k * 8) xs)) (start-map t mem size m k),
    ))
