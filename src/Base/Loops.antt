-- ===== src/Base/Loops.antt =====
-- The loops of the source: counted loops and walks along a linked list.
use Prim.Native.Nat.{ℕ, zero, suc, ◌+◌, ◌≤◌, ◌<◌}
use mathlib.Core.Path.{◌≡◌, refl, ap, ◌∙◌}
use mathlib.Core.Bool.{Bool, true, false}
use mathlib.Core.List.{List, [], ◌∷◌, ◌++◌}
use mathlib.Core.Logic.{inl, inr}
use native.Mathlib.Omega.{arith}
use sgcl.Base.Tests.{Bool-cases}

-- for (k = i; k < i + n; ++k) st = act(k, st): recursion on the rounds that are left.
unfoldable pub for_range {ℓ} : {S : Type ℓ} → ℕ → ℕ → (ℕ → S → S) → S → S
for_range zero i act st = st
for_range (suc n) i act st = for_range n (i + 1) act (act i st)

-- The invariant rule of a counted loop.
pub for_range_inv {ℓ κ} :
    {S : Type ℓ} (P : ℕ → S → Type κ) (act : ℕ → S → S) (n i j : ℕ) (st : S)
    → i + n ≡ j
    → ((k : ℕ) (st : S) → i ≤ k → k < j → P k st → P (k + 1) (act k st))
    → P i st
    → P j (for_range n i act st)
unfolding for_range
for_range_inv P act zero i j st e keep h = let e' : i ≡ j = omega arith in rw (← e') h
for_range_inv P act (suc n) i j st e keep h =
    for_range_inv P act n (i + 1) j (act i st) (omega arith)
      (λ k st lo hi. keep k st (omega arith) hi) (keep i st (omega arith) (omega arith) h)

-- for (x : xs) s = body(x, s)
unfoldable pub for_each {ℓ κ} : {A : Type ℓ} {S : Type κ} → (A → S → S) → List A → S → S
for_each body [] s = s
for_each body (x ∷ xs) s = for_each body xs (body x s)

-- while (test(st)) st = act(st), on fuel: the theorems about a loop say how much is enough.
unfoldable pub while {ℓ} : {S : Type ℓ} → ℕ → (S → Bool) → (S → S) → S → S
while zero test act st = st
while (suc fuel) test act st = elim (test st) [ true ↦ while fuel test act (act st) | false ↦ st ]

pub for_each-append {ℓ κ} :
    {A : Type ℓ} {S : Type κ} (body : A → S → S) (xs ys : List A) (s : S)
    → for_each body (xs ++ ys) s ≡ for_each body ys (for_each body xs s)
unfolding for_each
for_each-append body [] ys s = refl
for_each-append body (x ∷ xs) ys s = for_each-append body xs ys (body x s)

-- A loop that collects what another loop visits.
pub for_range-collect {ℓ κ} :
    {A : Type ℓ} {S : Type κ} (body : A → S → S) (collect : ℕ → List A → List A) (visit : ℕ → S → S)
    → ((k : ℕ) (os : List A) (s : S)
        → for_each body (collect k os) s ≡ visit k (for_each body os s))
    → (n i : ℕ) (os : List A) (s : S)
    → for_each body (for_range n i collect os) s ≡ for_range n i visit (for_each body os s)
unfolding for_range
for_range-collect body collect visit step zero i os s = refl
for_range-collect body collect visit step (suc n) i os s =
    for_range-collect body collect visit step n (i + 1) (collect i os) s
    ∙ ap (for_range n (i + 1) visit) (step i os s)

pub for_range-ext {ℓ} :
    {S : Type ℓ} (f g : ℕ → S → S)
    → ((k : ℕ) (s : S) → f k s ≡ g k s)
    → (n i : ℕ) (s : S) → for_range n i f s ≡ for_range n i g s
unfolding for_range
for_range-ext f g e zero i s = refl
for_range-ext f g e (suc n) i s =
    for_range-ext f g e n (i + 1) (f i s) ∙ ap (for_range n (i + 1) g) (e i s)

pub for_range_skip {ℓ} :
    {S : Type ℓ} (f : ℕ → S → S)
    → ((k : ℕ) (s : S) → f k s ≡ s)
    → (n i : ℕ) (s : S) → for_range n i f s ≡ s
unfolding for_range
for_range_skip f e zero i s = refl
for_range_skip f e (suc n) i s = for_range_skip f e n (i + 1) (f i s) ∙ e i s

-- A loop keeps what each round keeps, with whatever fuel.
pub while_keeps {ℓ κ} :
    {S : Type ℓ} (P : S → Type κ) (fuel : ℕ) (test : S → Bool) (body : S → S)
    → ((s : S) → test s ≡ true → P s → P (body s))
    → (s : S) → P s
    → P (while fuel test body s)
unfolding while
while_keeps P zero test body keep s p = p
while_keeps P (suc fuel) test body keep s p = elim (Bool-cases (test s)) [
  | inl t ↦ rw (t, while) (while_keeps P fuel test body keep (body s) (keep s t p))
  | inr f ↦ rw (f, while) p
]

-- A loop whose test fails makes no round.
pub while_done {ℓ} :
    {S : Type ℓ} (fuel : ℕ) (test : S → Bool) (body : S → S) (s : S)
    → test s ≡ false
    → while fuel test body s ≡ s
unfolding while
while_done zero test body s f = refl
while_done (suc fuel) test body s f = rw (f, while) refl
