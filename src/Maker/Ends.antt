-- ===== src/Maker/Ends.antt =====
-- sgcl/priv/maker.h: how the construction of an object ends, for the parts of `_make` one by one.
use sgcl.Base.{
  ℕ, ◌+◌, ◌%◌, ◌^◌, ◌≡◌, ◌≢◌, ◌∙◌, refl, sym, ap, arith, Bool, true, false, if◌then◌else◌, Option,
  none, some,
}
use sgcl.Counter.{Counter}
use sgcl.Maker.{
  Making, Outcome, returned, thrown, invalid, use_child_pointers, catch_all, leave_first,
  update_allocated, and_then,
}

-- The counters went up by `count` objects of `bytes` bytes.
pub record Counted (m : Making) (count bytes : ℕ) (m' : Making) : Type 0 where
  pub counted : m'.allocated.count % 2 ^ 64 ≡ (m.allocated.count + count) % 2 ^ 64
  pub sized : m'.allocated.size % 2 ^ 64 ≡ (m.allocated.size + bytes) % 2 ^ 64

-- Whether there is a map to register pointers in.
unfoldable pub has_map : Option ℕ → Bool
has_map none = false
has_map (some t) = true

-- What has ended: the thread's `child_pointers` are as they were, and the outcome is as meant, unless a
-- pointer had no map to be registered in.
pub record Ends (m : Making) (count bytes : ℕ) (ret : Bool) (r : Outcome × Making) : Type 0 where
  pub base : r.1.child_base ≡ m.child_base
  pub map : r.1.child_map ≡ m.child_map
  pub valid : has_map m.child_map ≡ true → r.0 ≢ invalid
  pub on_return : r.0 ≡ returned → (ret ≡ true) × Counted m count bytes r.1
  pub on_throw : r.0 ≡ thrown → (ret ≡ false) × Counted m count bytes r.1

code : Outcome → ℕ
code returned = 0
code thrown = 1
code invalid = 2

pub returned-thrown : returned ≢ thrown
unfolding code
returned-thrown e = omega (arith, ap code e)

pub invalid-returned : invalid ≢ returned
unfolding code
invalid-returned e = omega (arith, ap code e)

pub invalid-thrown : invalid ≢ thrown
unfolding code
invalid-thrown e = omega (arith, ap code e)

-- What is kept of an end that changes neither the counters nor the thread's `child_pointers`.
pub counted :
    (m m' : Making) (n k : ℕ) (m1 m2 : Making)
    → m1.allocated ≡ m.allocated
    → m2.allocated ≡ m'.allocated
    → Counted m n k m'
    → Counted m1 n k m2
counted m m' n k m1 m2 e e' c = record {
  counted =
      omega (arith, c.counted, ap (λ (x : Counter). x.count) e, ap (λ (x : Counter). x.count) e');
  sized = omega (arith, c.sized, ap (λ (x : Counter). x.size) e, ap (λ (x : Counter). x.size) e');
}

module _ (m : Making) (n k : ℕ) (ret : Bool) where
  pub thrown-Ends :
      (m1 : Making)
      → m1.child_base ≡ m.child_base
      → m1.child_map ≡ m.child_map
      → (ret ≡ false) × Counted m n k m1
      → Ends m n k ret (thrown, m1)
  thrown-Ends m1 eb em c = record {
    base = eb;
    map = em;
    valid = λ v e. invalid-thrown (sym e);
    on_return = λ e. absurd (returned-thrown (sym e));
    on_throw = λ e. c;
  }

  pub returned-Ends :
      (m1 : Making)
      → m1.child_base ≡ m.child_base
      → m1.child_map ≡ m.child_map
      → (ret ≡ true) × Counted m n k m1
      → Ends m n k ret (returned, m1)
  returned-Ends m1 eb em c = record {
    base = eb;
    map = em;
    valid = λ v e. invalid-returned (sym e);
    on_return = λ e. c;
    on_throw = λ e. absurd (returned-thrown e);
  }

  pub invalid-Ends :
      (m1 : Making)
      → m1.child_base ≡ m.child_base
      → m1.child_map ≡ m.child_map
      → has_map m.child_map ≢ true
      → Ends m n k ret (invalid, m1)
  invalid-Ends m1 eb em nm = record {
    base = eb;
    map = em;
    valid = λ v. absurd (nm v);
    on_return = λ e. absurd (invalid-returned e);
    on_throw = λ e. absurd (invalid-thrown e);
  }

  pub catch_all-Ends :
      (p : ℕ) (r : Outcome × Making) → Ends m n k ret r → Ends m n k ret (catch_all p r)
  unfolding catch_all
  catch_all-Ends p (returned, m1) h = h
  catch_all-Ends p (invalid, m1) h = h
  catch_all-Ends p (thrown, m1) h =
      let c = h.on_throw refl in
      thrown-Ends _ h.base h.map (c.0, counted m m1 n k m _ refl refl c.1)

  pub leave_first-Ends :
      (t : ℕ) (s : Making) (r : Outcome × Making)
      → s.allocated ≡ m.allocated
      → has_map s.child_map ≡ true
      → Ends s n k ret r
      → Ends m n k ret (leave_first t m r)
  unfolding leave_first use_child_pointers
  leave_first-Ends t s (returned, m1) a sm h =
      let c = h.on_return refl in
      returned-Ends _ refl refl (c.0, counted s m1 n k m _ (sym a) refl c.1)
  leave_first-Ends t s (thrown, m1) a sm h =
      let c = h.on_throw refl in
      thrown-Ends _ refl refl (c.0, counted s m1 n k m _ (sym a) refl c.1)
  leave_first-Ends t s (invalid, m1) a sm h = absurd (h.valid sm refl)

  pub update_allocated-Ends :
      (size : ℕ) (r : Outcome × Making)
      → Ends m n k ret r
      → Ends m
          (if ret then n + 1 else n)
          (if ret then k + size else k)
          ret
          (update_allocated size r)
  unfolding update_allocated
  update_allocated-Ends size (returned, m1) h =
      let c = h.on_return refl in
      record {
        base = h.base;
        map = h.map;
        valid = λ v e. invalid-returned (sym e);
        on_return = λ e. (
          c.0,
          record {
            counted = ground (arith, c.0, c.1.counted);
            sized = ground (arith, c.0, c.1.sized);
          },
        );
        on_throw = λ e. absurd (returned-thrown e);
      }
  update_allocated-Ends size (thrown, m1) h =
      let c = h.on_throw refl in
      record {
        base = h.base;
        map = h.map;
        valid = λ v e. invalid-thrown (sym e);
        on_return = λ e. absurd (returned-thrown (sym e));
        on_throw = λ e. (
          c.0,
          record {
            counted = ground (arith, c.0, c.1.counted);
            sized = ground (arith, c.0, c.1.sized);
          },
        );
      }
  update_allocated-Ends size (invalid, m1) h = record {
    base = h.base;
    map = h.map;
    valid = h.valid;
    on_return = λ e. absurd (invalid-returned e);
    on_throw = λ e. absurd (invalid-thrown e);
  }

  -- One part after another, of which the second runs if the first one returned.
  pub and_then-Ends :
      (n' k' : ℕ) (ret' : Bool) (r : Outcome × Making) (rest : Making → Outcome × Making)
      → Ends m n k ret r
      → ((m1 : Making) → Ends m1 n' k' ret' (rest m1))
      → Ends m
          (if ret then n + n' else n)
          (if ret then k + k' else k)
          (if ret then ret' else false)
          (and_then r rest)
  unfolding and_then
  and_then-Ends n' k' ret' (returned, m1) rest h h' =
      let c = h.on_return refl in
      let f = h' m1 in
      record {
        base = f.base ∙ h.base;
        map = f.map ∙ h.map;
        valid = λ v. f.valid (ap has_map h.map ∙ v);
        on_return = λ e.
            let d = f.on_return e in
            (
              ground (arith, c.0, d.0),
              record {
                counted = ground (arith, c.0, c.1.counted, d.1.counted);
                sized = ground (arith, c.0, c.1.sized, d.1.sized);
              },
            );
        on_throw = λ e.
            let d = f.on_throw e in
            (
              ground (arith, c.0, d.0),
              record {
                counted = ground (arith, c.0, c.1.counted, d.1.counted);
                sized = ground (arith, c.0, c.1.sized, d.1.sized);
              },
            );
      }
  and_then-Ends n' k' ret' (thrown, m1) rest h h' =
      let c = h.on_throw refl in
      record {
        base = h.base;
        map = h.map;
        valid = λ v e. invalid-thrown (sym e);
        on_return = λ e. absurd (returned-thrown (sym e));
        on_throw = λ e. (
          ground (arith, c.0),
          record {
            counted = ground (arith, c.0, c.1.counted);
            sized = ground (arith, c.0, c.1.sized);
          },
        );
      }
  and_then-Ends n' k' ret' (invalid, m1) rest h h' = record {
    base = h.base;
    map = h.map;
    valid = h.valid;
    on_return = λ e. absurd (invalid-returned e);
    on_throw = λ e. absurd (invalid-thrown e);
  }
