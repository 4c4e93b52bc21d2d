-- ===== src/Counter/Laws.antt =====
-- sgcl/priv/counter.h: the operators undo and agree with each other, but for `operator-=`.
use sgcl.Base.{◌+◌, ◌-◌, ◌*◌, ◌%◌, ◌^◌, ◌<◌, ◌≡◌, ◌↔◌, arith, ap, refl, false}
use sgcl.Counter.{
  Counter, signed_ltb, plus, minus, add_assign, sub_assign, max_counter, min_counter,
}

-- Both fields are words of 64 bits.
pub record IsWord (c : Counter) : Type 0 where
  pub count : c.count < 2 ^ 64
  pub size : c.size < 2 ^ 64

pub Counter-ext : (a b : Counter) → a.count ≡ b.count → a.size ≡ b.size → a ≡ b
Counter-ext a b p q = λ i. record { count = p i; size = q i }

-- A counter that is added to the first or to the second argument.
pub plus-add_assign : (a b c : Counter) → plus (add_assign a c) b ≡ add_assign (plus a b) c
unfolding plus add_assign
plus-add_assign a b c = Counter-ext _ _ (omega arith) (omega arith)

pub plus-add_assign_right : (a b c : Counter) → plus a (add_assign b c) ≡ plus (add_assign a c) b
unfolding plus add_assign
plus-add_assign_right a b c = Counter-ext _ _ (omega arith) (omega arith)

pub add_assign-plus : (a b : Counter) → add_assign a b ≡ plus a b
unfolding plus add_assign
add_assign-plus a b = refl

pub plus-plus : (a b c : Counter) → plus (plus a b) c ≡ add_assign (plus a c) b
unfolding plus add_assign
plus-plus a b c = Counter-ext _ _ (omega arith) (omega arith)

pub add_assign-minus : (a n : Counter) → IsWord n → IsWord a → add_assign a (minus n a) ≡ n
unfolding add_assign minus
add_assign-minus a n v w =
    Counter-ext _ _ (omega (arith, v.count, w.count)) (omega (arith, v.size, w.size))

-- What is left of a total `n`, of which `a` was counted before.
pub minus-plus-count :
    (a n r : Counter)
    → IsWord n
    → IsWord a
    → (minus (plus a (minus n a)) r).count ≡ (n.count + 2 ^ 64 - r.count) % 2 ^ 64
unfolding plus minus
minus-plus-count a n r v w = ground (arith, v.count, w.count)

-- Adding and taking away the same counter gives the counter back, in either order.
pub plus-minus :
    (a b : Counter) → IsWord a → IsWord b → (minus (plus a b) b ≡ a) × (plus (minus a b) b ≡ a)
unfolding plus minus
plus-minus a b v w = (
  Counter-ext _ _ (omega (arith, v.count, w.count)) (omega (arith, v.size, w.size)),
  Counter-ext _ _ (omega (arith, v.count, w.count)) (omega (arith, v.size, w.size)),
)

-- `operator-=` gives the difference exactly when twice the counter that is taken away is zero in
-- both words, since it adds.
pub sub_assign_lem :
    (a b : Counter)
    → IsWord a
    → IsWord b
    → (sub_assign a b ≡ minus a b) ↔ ((b.count * 2 % 2 ^ 64 ≡ 0) × (b.size * 2 % 2 ^ 64 ≡ 0))
unfolding sub_assign minus
sub_assign_lem a b v w = (there, back)
  where
    there : sub_assign a b ≡ minus a b → (b.count * 2 % 2 ^ 64 ≡ 0) × (b.size * 2 % 2 ^ 64 ≡ 0)
    there e = (
      omega (arith, v.count, w.count, ap (λ (c : Counter). c.count) e),
      omega (arith, v.size, w.size, ap (λ (c : Counter). c.size) e),
    )

    back : (b.count * 2 % 2 ^ 64 ≡ 0) × (b.size * 2 % 2 ^ 64 ≡ 0) → sub_assign a b ≡ minus a b
    back e =
        Counter-ext _ _ (omega (arith, v.count, w.count, e.0)) (omega (arith, v.size, w.size, e.1))

-- `max` and `min` of two counters split their sum, and neither word of the maximum is below the
-- minimum's in the signed order.
max_counter-min_counter :
    (a b : Counter)
    → IsWord a
    → IsWord b
    → (plus (max_counter a b) (min_counter a b) ≡ plus a b)
      × (signed_ltb (max_counter a b).count (min_counter a b).count ≡ false)
      × (signed_ltb (max_counter a b).size (min_counter a b).size ≡ false)
unfolding plus max_counter min_counter
max_counter-min_counter a b v w = (
  Counter-ext _ _ (ground (arith, v.count, w.count)) (ground (arith, v.size, w.size)),
  ground (arith, v.count, w.count),
  ground (arith, v.size, w.size),
)
