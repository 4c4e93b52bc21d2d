-- ===== src/Collector/Cycle/Live.antt =====
-- The objects that a cycle must keep: those that a chain of pointers leads to from the roots and from the
-- objects whose states say that they were touched.
use mathlib.Core.List.{Memᴰ}
use sgcl.Base.{ℕ, ◌≡◌, subst, arith, true, false, List, []}
use sgcl.Heap.{Heap, page_at, flag_at}
use sgcl.Collector.Bits.{is_registered, is_reached}
use sgcl.Collector.Frame.{Frame, CacheOk}
use sgcl.Collector.Measure.{IsWithin}
use sgcl.Collector.Mark.Pointers.{IsHeld, IsHeld-Frame}
use sgcl.Collector.Reach.{slots, slots-Frame, Reach, found, follow}
use sgcl.Collector.Roots.Effect.{IsRoot}
use sgcl.Collector.Scan.Finish.{IsGrouped}
use sgcl.Collector.Updated.Effect.{touched}

pub data Live (roots : List ℕ) (h : Heap) : ℕ → ℕ → Type 0 where
  root : {a k : ℕ} → IsRoot h roots a k → Live roots h a k
  kept : {a k : ℕ} → touched h a k ≡ true → Live roots h a k
  child : {a k b n : ℕ} → Live roots h a k → IsHeld h (slots h a k) b n → Live roots h b n

-- A heap as it is when the objects have been registered: no object is marked or reachable, the lists of
-- the marking are empty, and every page with a registered object is on the list of registered pages.
pub record IsIdle (size : ℕ → ℕ) (pages : List ℕ) (h : Heap) : Type 0 where
  pub cache : CacheOk h
  pub marked : (a i : ℕ) → (flag_at h a i).marked ≡ 0
  pub reachable : (a i : ℕ) → (flag_at h a i).reachable ≡ 0
  pub waiting : (a : ℕ) → (page_at h a).reachable ≡ false
  pub sweeping : (a : ℕ) → (page_at h a).unreachable ≡ false
  pub no_waiting : h.reachable_pages ≡ []
  pub no_sweeping : h.unreachable_pages ≡ []
  pub listed : (a k : ℕ) → is_registered h a k ≡ true → Memᴰ a h.registered_pages
  pub within : IsWithin size pages h
  pub grouped : IsGrouped h

pub Reach-Live :
    (roots : List ℕ) {h₀ h : Heap}
    → Frame h₀ h
    → ((a k : ℕ) → is_reached h a k ≡ true → Live roots h₀ a k)
    → (a k : ℕ) → Reach h a k
    → Live roots h₀ a k
Reach-Live roots f s a k (found r) = s a k r
Reach-Live roots {h₀} {h} f s b n (follow {a} {k} r held) =
    child (Reach-Live roots f s a k r)
      (IsHeld-Frame (slots h₀ a k) b n f (subst (λ xs. IsHeld h xs b n) (slots-Frame a k f) held))

pub Live-registered :
    (roots : List ℕ) (h : Heap) (a k : ℕ) → Live roots h a k → is_registered h a k ≡ true
Live-registered roots h a k (root (x, m, p, r)) = r
Live-registered roots h a k (kept t) = ground (arith, t)
Live-registered roots h b n (child l (x, m, p, r)) = r
