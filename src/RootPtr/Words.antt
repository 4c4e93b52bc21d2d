-- ===== src/RootPtr/Words.antt =====
-- sgcl/root_ptr.h: the words of root pointers, the flag in bit 0, and the words of a new page.
use sgcl.Base.{
  ℕ, zero, suc, ◌+◌, ◌*◌, ◌/◌, ◌%◌, ◌^◌, ◌≤◌, ◌<◌, ◌≡◌, ◌≢◌, ◌∙◌, refl, ap, arith, true, false,
  Bool-cases, ==→eq, inl, inr, ◌==◌, List, [], ◌∷◌, update,
}
use sgcl.Base.Bits.{bit_or-one, bit_and-complement, testbit, has, has-pow}
use sgcl.Base.Lists.{occurs}
use sgcl.Types.{word_size, page_size}
use sgcl.PointerPool.Stack.{slice}
use sgcl.HeapRoots.Count.{page_pointers}
use sgcl.RootPtr.{set_flag, remove_flags, heap_root_flag}

-- What an address of a word is like.
pub record IsWord (x : ℕ) : Type 0 where
  pub not_null : x ≢ 0
  pub even : x % 2 ≡ 0
  pub bound : x < 2 ^ 64

-- The word of an address with or without the flag.
abbrev pub untagged : ℕ → ℕ
untagged x = x / 2 * 2

-- The flag is read back, and can be removed, also where it was there before.
pub set_flag-untagged : (x : ℕ) → set_flag x heap_root_flag ≡ untagged x + 1
unfolding set_flag
set_flag-untagged x = bit_or-one x

pub remove_flags-set_flag :
    (x : ℕ) → IsWord (untagged x) → remove_flags (set_flag x heap_root_flag) ≡ untagged x
unfolding remove_flags
remove_flags-set_flag x w =
    bit_and-complement 1 64 _ (omega arith) (omega (arith, set_flag-untagged x, w.bound))
    ∙ omega (arith, set_flag-untagged x)

pub has-set_flag : (x : ℕ) → has (set_flag x heap_root_flag) heap_root_flag ≡ true
unfolding testbit
has-set_flag x = has-pow (set_flag x heap_root_flag) 0 ∙ ground (arith, set_flag-untagged x)

-- The words of the root pointers at some places.
unfoldable pub held : (ℕ → ℕ) → List ℕ → List ℕ
held refs [] = []
held refs (a ∷ live) = remove_flags (refs a) ∷ held refs live

pub held-update :
    (refs : ℕ → ℕ) (a r : ℕ) (live : List ℕ)
    → occurs a live ≡ 0
    → held (update refs a r) live ≡ held refs live
unfolding held occurs
held-update refs a r [] e = refl
held-update refs a r (b ∷ live) e =
    let ne : (a == b) ≡ false = ground arith in
    rw ne (ap (λ xs. remove_flags (refs b) ∷ xs) (held-update refs a r live (ground arith)))

pub occurs-held :
    (refs : ℕ → ℕ) (a : ℕ) (live : List ℕ)
    → 0 < occurs a live
    → 0 < occurs (remove_flags (refs a)) (held refs live)
unfolding held occurs
occurs-held refs a [] lt = omega arith
occurs-held refs a (b ∷ live) lt = elim (Bool-cases (b == a)) [
  | inl e ↦
      let e' : remove_flags (refs b) ≡ remove_flags (refs a) =
        ap (λ c. remove_flags (refs c)) (==→eq _ _ e) in
      ground arith
  | inr e ↦ omega (arith, occurs-held refs a live (ground arith))
]

-- Words one after the other are in bounds, in line, and each is there once.
slice_words :
    (node i n x : ℕ)
    → node + (i + n) * word_size ≤ 2 ^ 64
    → 0 < occurs x (slice (λ k. (node + k * word_size) % 2 ^ 64) i n)
    → (node + i * word_size ≤ x) × (x < node + (i + n) * word_size) × (x % 8 ≡ node % 8)
unfolding slice occurs
slice_words node i zero x le lt = absurd (omega arith)
slice_words node i (suc n) x le lt = elim (Bool-cases ((node + i * word_size) % 2 ^ 64 == x)) [
  | inl e ↦ (ground arith, ground arith, ground arith)
  | inr e ↦
      let h = slice_words node (i + 1) n x (omega arith) (ground arith) in
      (omega (arith, h.0), omega (arith, h.1), h.2)
]

slice_once :
    (node i n x : ℕ)
    → node + (i + n) * word_size ≤ 2 ^ 64
    → occurs x (slice (λ k. (node + k * word_size) % 2 ^ 64) i n) ≤ 1
unfolding slice occurs
slice_once node i zero x le = omega arith
slice_once node i (suc n) x le =
    elim (Bool-cases (0 == occurs x (slice (λ k. (node + k * word_size) % 2 ^ 64) (i + 1) n))) [
      | inl e ↦ ground arith
      | inr e ↦
          let h = slice_words node (i + 1) n x (omega arith) (ground arith) in
          ground (arith, h.0, slice_once node (i + 1) n x (omega arith))
    ]

-- What `new` returns for a page.
pub record IsPage (node : ℕ) : Type 0 where
  pub not_null : node ≢ 0
  pub aligned : node % word_size ≡ 0
  pub bound : node + page_size ≤ 2 ^ 64

pub page_pointers-IsWord : (node x : ℕ) → IsPage node → 0 < occurs x (page_pointers node) → IsWord x
unfolding page_pointers
page_pointers-IsWord node x p lt =
    let h = slice_words node 0 512 x (omega (arith, p.bound)) lt in
    record {
      not_null = λ e. p.not_null (omega (arith, h.0));
      even = omega (arith, h.2, p.aligned);
      bound = omega (arith, h.1, p.bound);
    }

pub page_pointers-in_page :
    (node x : ℕ)
    → IsPage node
    → 0 < occurs x (page_pointers node)
    → (node ≤ x) × (x < node + page_size)
unfolding page_pointers
page_pointers-in_page node x p lt =
    let h = slice_words node 0 512 x (omega (arith, p.bound)) lt in
    (omega (arith, h.0), omega (arith, h.1))

pub page_pointers_once : (node x : ℕ) → IsPage node → occurs x (page_pointers node) ≤ 1
unfolding page_pointers
page_pointers_once node x p = slice_once node 0 512 x (omega (arith, p.bound))

-- Two places with one word have it twice.
pub held-distinct :
    (refs : ℕ → ℕ) (a b x : ℕ) (live : List ℕ)
    → a ≢ b
    → 0 < occurs a live
    → 0 < occurs b live
    → remove_flags (refs a) ≡ x
    → remove_flags (refs b) ≡ x
    → 2 ≤ occurs x (held refs live)
unfolding held occurs
held-distinct refs a b x [] ne la lb ea eb = omega arith
held-distinct refs a b x (c ∷ live) ne la lb ea eb = elim (Bool-cases (c == a)) [
  | inl ta ↦
      let r : remove_flags (refs c) ≡ x = ap (λ d. remove_flags (refs d)) (==→eq _ _ ta) ∙ ea in
      let h = occurs-held refs b live (ground arith) in
      ground (arith, r, h, eb, ap (λ y. occurs y (held refs live)) eb)
  | inr na ↦ elim (Bool-cases (c == b)) [
    | inl tb ↦
        let r : remove_flags (refs c) ≡ x = ap (λ d. remove_flags (refs d)) (==→eq _ _ tb) ∙ eb in
        let h = occurs-held refs a live (ground arith) in
        ground (arith, r, h, ea, ap (λ y. occurs y (held refs live)) ea)
    | inr nb ↦ omega (arith, held-distinct refs a b x live ne (ground arith) (ground arith) ea eb)
  ]
]
