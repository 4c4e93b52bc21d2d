-- ===== src/RootPtr/Valid.antt =====
-- sgcl/root_ptr.h: which states of a thread's root pointers are well-formed, and what a root pointer holds.
use sgcl.Base.{ℕ, ◌+◌, ◌%◌, ◌≤◌, ◌<◌, ◌≡◌, ◌≢◌, refl, arith, true, false, ◌==◌, some, List}
use sgcl.Base.Bits.{has}
use sgcl.Base.Lists.{occurs}
use sgcl.Types.{page_size}
use sgcl.HeapRoots.Count.{free_count, IsRoots}
use sgcl.TrackedPtr.{load}
use sgcl.RootPtr.{Thread, heap_root_flag, remove_flags, ptr, get}
use sgcl.RootPtr.Words.{IsWord, IsPage, untagged, held}

-- What the `_ref` of a root pointer outside the stack is like.
pub record IsHeapRef (r : ℕ) : Type 0 where
  pub word : IsWord (remove_flags r)
  pub flag : has r heap_root_flag ≡ true
  pub not_null : r ≢ 0
  pub tag : r ≡ remove_flags r + 1

-- Addresses, with or without the flag, of words that are not held and are null.
pub record IsSpare (count : ℕ → ℕ) (s : Thread) (live : List ℕ) : Type 0 where
  pub word : (x : ℕ) → 0 < count x → IsWord (untagged x)
  pub null : (x : ℕ) → 0 < count x → s.memory.words (untagged x) ≡ 0
  pub once : (x : ℕ) → x % 2 ≡ 0 → count x + count (x + 1) + occurs x (held s.refs live) ≤ 1

-- The root pointers at the places `live`, outside the stack, are those that exist.
pub record IsThread (s : Thread) (live : List ℕ) : Type 0 where
  pub roots : IsRoots s.heap_roots
  pub spare : IsSpare (λ x. free_count x s.heap_roots) s live
  pub refs : (a : ℕ) → 0 < occurs a live → IsHeapRef (s.refs a)
  pub places : (a : ℕ) → occurs a live ≤ 1

-- What `new` returns for a page of heap roots: memory that is null and not in use.
pub record IsNew (node : ℕ) (s : Thread) (live : List ℕ) : Type 0 where
  pub page : IsPage node
  pub unused :
      (x : ℕ)
      → node ≤ x
      → x < node + page_size
      → free_count x s.heap_roots + occurs x (held s.refs live) ≡ 0
  pub null : (x : ℕ) → node ≤ x → x < node + page_size → s.memory.words x ≡ 0

-- `this` holds `p`, and each pointer of `live` but `this` holds what it held.
pub record Holds (this p : ℕ) (live : List ℕ) (s s' : Thread) : Type 0 where
  pub value : get this s' ≡ some p
  pub others : (b : ℕ) → this ≢ b → 0 < occurs b live → get b s' ≡ get b s

pub get-word :
    (this : ℕ) (s : Thread) (x : ℕ) → ptr this s ≡ x → x ≢ 0 → get this s ≡ some (s.memory.words x)
unfolding get load
get-word this s x e n = let z : (x == 0) ≡ false = ground arith in rw (e, z) refl

pub get-same :
    (b : ℕ) (s s' : Thread)
    → ptr b s' ≡ ptr b s
    → s'.memory.words (ptr b s) ≡ s.memory.words (ptr b s)
    → get b s' ≡ get b s
unfolding get load
get-same b s s' e w = rw (e, w) refl
