-- ===== src/Collector/Measure.antt =====
-- How much is left to mark: the registered objects that are not marked, and those that are not even
-- reachable, counted over the pages `pages` with `size` objects each.
use mathlib.Core.List.{Memᴰ}
use sgcl.Base.{ℕ, ◌+◌, ◌/◌, ◌%◌, ◌≤◌, ◌<◌, ◌≡◌, ap, sym, ◌∙◌, arith, true, false, not, ◌&&◌, List}
use sgcl.Base.Bits.{testbit}
use sgcl.Base.Count.{count_in, count_in_mono, count_in_strict}
use sgcl.Base.Lists.{length}
use sgcl.Heap.{Heap}
use sgcl.Collector.Bits.{is_registered, is_marked, is_reached}
use sgcl.Collector.Frame.{Frame}

module _ (size : ℕ → ℕ) (pages : List ℕ) where
  -- Every registered object is on one of the pages, below the number of its objects.
  abbrev pub IsWithin : Heap → Type 0
  IsWithin h = (a k : ℕ) → is_registered h a k ≡ true → Memᴰ a pages × (k < size a)

  abbrev pub unmarked : Heap → ℕ
  unmarked h = count_in (λ a k. is_registered h a k && not (is_marked h a k)) size pages

  abbrev pub unreached : Heap → ℕ
  unreached h = count_in (λ a k. is_registered h a k && not (is_reached h a k)) size pages

  -- A page comes to the list of reachable pages only for an object that was not reached.
  abbrev pub potential : Heap → ℕ
  potential h = unreached h + length h.reachable_pages

pub is_registered-Frame :
    {h h' : Heap} (a k : ℕ) → Frame h h' → is_registered h' a k ≡ is_registered h a k
is_registered-Frame a k f = ap (λ w. testbit w (k % 64)) (f.registered a (k / 64))

pub IsWithin-Frame :
    (size : ℕ → ℕ) (pages : List ℕ) {h h' : Heap}
    → Frame h h'
    → IsWithin size pages h
    → IsWithin size pages h'
IsWithin-Frame size pages f w a k r = w a k (sym (is_registered-Frame a k f) ∙ r)

pub unmarked_mono :
    (size : ℕ → ℕ) (pages : List ℕ) {h h' : Heap}
    → Frame h h'
    → ((a k : ℕ) → is_marked h a k ≡ true → is_marked h' a k ≡ true)
    → unmarked size pages h' ≤ unmarked size pages h
unmarked_mono size pages {h} {h'} f m =
    count_in_mono _ _ size pages (λ a k r. ground (arith, is_registered-Frame a k f, m a k))

pub unmarked_strict :
    (size : ℕ → ℕ) (pages : List ℕ) {h h' : Heap} (a k : ℕ)
    → Frame h h'
    → ((a k : ℕ) → is_marked h a k ≡ true → is_marked h' a k ≡ true)
    → IsWithin size pages h
    → is_registered h a k ≡ true
    → is_marked h a k ≡ false
    → is_marked h' a k ≡ true
    → unmarked size pages h' < unmarked size pages h
unmarked_strict size pages {h} {h'} a k f m w r before after =
    let place = w a k r in
    count_in_strict _ _ size pages a k (λ b n t. ground (arith, is_registered-Frame b n f, m b n))
      place.0 place.1 (ground arith) (ground arith)

pub unreached_mono :
    (size : ℕ → ℕ) (pages : List ℕ) {h h' : Heap}
    → Frame h h'
    → ((a k : ℕ) → is_reached h a k ≡ true → is_reached h' a k ≡ true)
    → unreached size pages h' ≤ unreached size pages h
unreached_mono size pages {h} {h'} f m =
    count_in_mono _ _ size pages (λ a k r. ground (arith, is_registered-Frame a k f, m a k))

pub unreached_strict :
    (size : ℕ → ℕ) (pages : List ℕ) {h h' : Heap} (a k : ℕ)
    → Frame h h'
    → ((a k : ℕ) → is_reached h a k ≡ true → is_reached h' a k ≡ true)
    → IsWithin size pages h
    → is_registered h a k ≡ true
    → is_reached h a k ≡ false
    → is_reached h' a k ≡ true
    → unreached size pages h' < unreached size pages h
unreached_strict size pages {h} {h'} a k f m w r before after =
    let place = w a k r in
    count_in_strict _ _ size pages a k (λ b n t. ground (arith, is_registered-Frame b n f, m b n))
      place.0 place.1 (ground arith) (ground arith)
