-- ===== src/Collector/Scan/Visit.antt =====
-- Visiting one reachable object: it is marked, its pointers are covered, and nothing is reached but
-- what they point into.
use Prim.Native.Nat.{bit_or}
use sgcl.Base.{
  ℕ, ◌+◌, ◌*◌, ◌/◌, ◌%◌, ◌^◌, ◌<◌, ◌≡◌, refl, sym, ap, ◌∙◌, arith, Bool, true, false, ◌&&◌, ◌||◌,
  ◌==◌, if◌then◌else◌, inl, inr, ◌⊎◌, List, [], ◌∷◌, ◌++◌,
}
use sgcl.Base.Bits.{testbit}
use sgcl.Base.Lists.{All}
use sgcl.Page.{Flags, pointer_of}
use sgcl.Heap.{Heap, page_at, flag_at, put_flag}
use sgcl.Collector.Bits.{is_reachable, is_marked, testbit-set}
use sgcl.Collector.Frame.{CacheOk}
use sgcl.Collector.Mark.{mark_pointers}
use sgcl.Collector.Mark.Cover.{Step, Step-refl, Step-trans, slot_covered}
use sgcl.Collector.Mark.Pointers.{
  Marked, IsHeld, mark_pointers-Marked, All-slot_covered, IsHeld-Frame,
}
use sgcl.Collector.Reach.{slots}
use sgcl.Collector.Scan.{record_live, visit}
use sgcl.Collector.Scan.Flag.{
  put_flag-Step, set_marked-IsLater, is_reachable-put_flag, is_marked-put_flag,
}

add_live-Step : (os : List ℕ) (h : Heap) → Step h (record h { live_objects = os })
add_live-Step os h = record {
  frame = record {
    memory = refl;
    header = refl;
    arrays = refl;
    maps = λ c. refl;
    metadata = λ a. refl;
    data_address = λ a. refl;
    multiplier = λ a. refl;
    states = λ a. refl;
    registered = λ a i. refl;
    lists = refl;
  };
  cache = λ c. c;
  grows = λ a k r. r;
  marks = λ a k m. m;
  lists = record { listed = λ a m. m; fresh = λ a r. inl r; keeps = λ a r. r };
  sweeping = record { pages = refl; flags = λ a. refl };
  spends = λ size pages w. omega arith;
  flags = λ v. record { flagged = v.flagged; registered = v.registered; small = v.small };
}

live-Step : (ptr : ℕ) (h : Heap) → Step h (record_live ptr h)
unfolding record_live
live-Step ptr h = go h.live_objects_request
  where
    go :
        (b : Bool)
        → Step h (if b then record h { live_objects = h.live_objects ++ ptr ∷ [] } else h)
    go true = add_live-Step _ h
    go false = Step-refl h

flag_at-record_live :
    (ptr : ℕ) (h : Heap) (a i : ℕ) → flag_at (record_live ptr h) a i ≡ flag_at h a i
unfolding record_live
flag_at-record_live ptr h a i = ground arith

module _ (a i j : ℕ) (h : Heap) where
  abbrev object : ℕ
  object = i * 64 + j

  -- The heap after `flag.marked |= mask`.
  abbrev set : Heap
  set = put_flag a i (record (flag_at h a i) { marked = bit_or (flag_at h a i).marked (2 ^ j) }) h

  pub record Visited (h' : Heap) : Type 0 where
    pub step : Step h h'
    pub marks : (b n : ℕ) → is_marked h' b n ≡ (is_marked h b n || ((a == b) && (object == n)))
    pub sound :
        (b n : ℕ)
        → is_reachable h' b n ≡ true
        → (is_reachable h b n ≡ true) ⊎ IsHeld h (slots h a object) b n
    pub fresh :
        (b n : ℕ) → is_reachable h' b n ≡ true → is_marked h' b n ≡ true → is_reachable h b n ≡ true
    pub cover : All (λ x. slot_covered h' x ≡ true) (slots h a object)

  set-Step : Step h set
  set-Step = put_flag-Step a i _ h (set_marked-IsLater (flag_at h a i) j)

  is_marked-set :
      (b n : ℕ) → j < 64 → is_marked set b n ≡ (is_marked h b n || ((a == b) && (object == n)))
  is_marked-set b n lt =
      is_marked-put_flag a i _ h b n ∙ ground (arith, testbit-set (flag_at h a i).marked j (n % 64))

  is_reachable-set : (b n : ℕ) → is_reachable set b n ≡ is_reachable h b n
  is_reachable-set b n = is_reachable-put_flag a i _ h b n ∙ ground arith

  pub visit-Visited : j < 64 → CacheOk h → Visited (visit a i j h)
  unfolding visit
  visit-Visited lt ok = record {
    step = Step-trans set-Step (Step-trans m.step live);
    marks = λ b n. is_marked_end b n ∙ is_marked-set b n lt;
    sound = λ b n r. elim (m.sound b n (sym (is_reachable_end b n) ∙ r)) [
      | inl old ↦ inl (sym (is_reachable-set b n) ∙ old)
      | inr held ↦ inr (IsHeld-Frame (slots h a object) b n set-Step.frame held)
    ];
    fresh = λ b n r k.
        sym (is_reachable-set b n)
        ∙ m.fresh b n (sym (is_reachable_end b n) ∙ r) (sym (is_marked_end b n) ∙ k);
    cover = All-slot_covered (slots h a object) live m.cover;
  }
    where
      ptr : ℕ
      ptr = pointer_of (page_at h a) object

      m : Marked (slots h a object) set (mark_pointers (page_at h a) ptr set)
      m = mark_pointers-Marked (page_at h a) ptr set (set-Step.cache ok)

      live : Step (mark_pointers (page_at h a) ptr set) (visit a i j h)
      live = live-Step ptr (mark_pointers (page_at h a) ptr set)

      flags_end :
          (b n : ℕ)
          → flag_at (visit a i j h) b n ≡ flag_at (mark_pointers (page_at h a) ptr set) b n
      flags_end b n = flag_at-record_live ptr (mark_pointers (page_at h a) ptr set) b n

      is_reachable_end :
          (b n : ℕ)
          → is_reachable (visit a i j h) b n
            ≡ is_reachable (mark_pointers (page_at h a) ptr set) b n
      is_reachable_end b n = ap (λ (f : Flags). testbit f.reachable (n % 64)) (flags_end b (n / 64))

      is_marked_end : (b n : ℕ) → is_marked (visit a i j h) b n ≡ is_marked set b n
      is_marked_end b n =
          ap (λ (f : Flags). testbit f.marked (n % 64)) (flags_end b (n / 64))
          ∙ ap (λ w. testbit w (n % 64)) (m.kept b (n / 64))
