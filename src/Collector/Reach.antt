-- ===== src/Collector/Reach.antt =====
-- What the marking must find: the objects that a chain of pointers leads to from those that were
-- found already; and the invariant that the passes keep.
use sgcl.Base.{ℕ, ◌+◌, ◌*◌, ◌%◌, ◌^◌, ◌≡◌, true, List}
use sgcl.Base.Lists.{All}
use sgcl.Page.{pointer_of}
use sgcl.Heap.{Heap, page_at}
use sgcl.Collector.Bits.{is_marked, is_reached}
use sgcl.Collector.Frame.{Frame, Frame-trans, CacheOk}
use sgcl.Collector.Mark.Cover.{Step, slot_covered}
use sgcl.Collector.Mark.Pointers.{IsHeld, All-slot_covered}
use sgcl.Collector.Mark.Slots.{object_slots, slots_in}

-- The addresses of the pointers of object `k` of page `a`.
abbrev pub slots : Heap → ℕ → ℕ → List ℕ
slots h a k = object_slots h (page_at h a) (pointer_of (page_at h a) k)

-- Reached at the start, or pointed to by the slots of such an object.
pub data Reach (h : Heap) : ℕ → ℕ → Type 0 where
  found : {a k : ℕ} → is_reached h a k ≡ true → Reach h a k
  follow : {a k b n : ℕ} → Reach h a k → IsHeld h (slots h a k) b n → Reach h b n

pub slots-Frame : {h h' : Heap} (a k : ℕ) → Frame h h' → slots h' a k ≡ slots h a k
unfolding pointer_of
slots-Frame a k f = λ i.
    slots_in (f.memory i) (f.arrays i) (λ c. f.maps c i) (f.metadata a i)
      ((f.data_address a i + k * (f.metadata a i).object_size) % 2 ^ 64)

-- The invariant of marking from the heap `h₀`.
pub record Inv (h₀ h : Heap) : Type 0 where
  pub frame : Frame h₀ h
  pub cache : CacheOk h
  pub grows : (a k : ℕ) → is_reached h₀ a k ≡ true → is_reached h a k ≡ true
  pub sound : (a k : ℕ) → is_reached h a k ≡ true → Reach h₀ a k
  pub closed :
      (a k : ℕ) → is_marked h a k ≡ true → All (λ x. slot_covered h x ≡ true) (slots h₀ a k)

-- A step that marks nothing and reaches nothing new keeps the invariant.
pub Inv-Step :
    {h₀ h h' : Heap}
    → Inv h₀ h
    → Step h h'
    → ((a k : ℕ) → is_marked h' a k ≡ true → is_marked h a k ≡ true)
    → ((a k : ℕ) → is_reached h' a k ≡ true → is_reached h a k ≡ true)
    → Inv h₀ h'
Inv-Step {h₀} v s m r = record {
  frame = Frame-trans v.frame s.frame;
  cache = s.cache v.cache;
  grows = λ a k p. s.grows a k (v.grows a k p);
  sound = λ a k p. v.sound a k (r a k p);
  closed = λ a k p. All-slot_covered (slots h₀ a k) s (v.closed a k (m a k p));
}
