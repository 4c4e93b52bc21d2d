-- ===== src/Collector/Scan/Flag.antt =====
-- Writing a group of flags as a step of marking: setting marked bits, and dropping reachable bits of
-- objects that are marked.
use Prim.Native.Nat.{bit_and, bit_or}
use sgcl.Base.{
  ℕ, ◌/◌, ◌%◌, ◌^◌, ◌<◌, ◌≡◌, refl, ◌∙◌, arith, true, ◌&&◌, ◌||◌, ◌==◌, if◌then◌else◌, inl,
}
use sgcl.Base.Bits.{testbit, complement, bit_and-lt}
use sgcl.Page.{Flags}
use sgcl.Heap.{Heap, flag_at, put_flag}
use sgcl.Collector.Bits.{
  is_reachable, is_marked, is_reached, flag_at-put_flag, testbit-set, testbit-drop,
}
use sgcl.Collector.Measure.{unreached_mono, is_registered-Frame}
use sgcl.Collector.Mark.Effect.{put_flag-Frame, put_flag-SameSweep}
use sgcl.Collector.Mark.Cover.{Step}

-- The bits of an object after a group was written.
pub is_reachable-put_flag :
    (a i : ℕ) (f : Flags) (h : Heap) (b n : ℕ)
    → is_reachable (put_flag a i f h) b n
      ≡ (if (a == b) && (i == n / 64) then testbit f.reachable (n % 64) else is_reachable h b n)
is_reachable-put_flag a i f h b n = rw (flag_at-put_flag a i f h b (n / 64)) (ground arith)

pub is_marked-put_flag :
    (a i : ℕ) (f : Flags) (h : Heap) (b n : ℕ)
    → is_marked (put_flag a i f h) b n
      ≡ (if (a == b) && (i == n / 64) then testbit f.marked (n % 64) else is_marked h b n)
is_marked-put_flag a i f h b n = rw (flag_at-put_flag a i f h b (n / 64)) (ground arith)

-- A group may replace the old one if it keeps the registered word and every object that is marked or
-- reached, and makes none reachable.
pub record IsLater (f g : Flags) : Type 0 where
  pub registered : g.registered ≡ f.registered
  pub reachable : (j : ℕ) → j < 64 → testbit g.reachable j ≡ true → testbit f.reachable j ≡ true
  pub marked : (j : ℕ) → j < 64 → testbit f.marked j ≡ true → testbit g.marked j ≡ true
  pub reached :
      (j : ℕ)
      → j < 64
      → testbit f.reachable j ≡ true
      → (testbit g.marked j || testbit g.reachable j) ≡ true
  pub small : f.reachable < 2 ^ 64 → g.reachable < 2 ^ 64

module _ (a i : ℕ) (g : Flags) (h : Heap) (v : IsLater (flag_at h a i) g) where
  grows : (b n : ℕ) → is_reached h b n ≡ true → is_reached (put_flag a i g h) b n ≡ true
  grows b n r = ground (
    arith,
    is_reachable-put_flag a i g h b n,
    is_marked-put_flag a i g h b n,
    v.reached (n % 64),
    v.marked (n % 64),
  )

  less : (b n : ℕ) → is_reachable (put_flag a i g h) b n ≡ true → is_reachable h b n ≡ true
  less b n r = ground (arith, is_reachable-put_flag a i g h b n, v.reachable (n % 64))

  pub put_flag-Step : Step h (put_flag a i g h)
  put_flag-Step = record {
    frame = put_flag-Frame a i g h v.registered;
    cache = λ c. c;
    grows = grows;
    marks = λ b n m. ground (arith, is_marked-put_flag a i g h b n, v.marked (n % 64));
    lists = record {
      listed = λ b m. m;
      fresh = λ b r. inl (ground arith);
      keeps = λ b r. ground arith;
    };
    sweeping = put_flag-SameSweep a i g h;
    spends = λ size pages w.
        omega (arith, unreached_mono size pages (put_flag-Frame a i g h v.registered) grows);
    flags = λ o. record {
      flagged = λ b n r. ground (arith, o.flagged b n, less b n r);
      registered = λ b n r.
          is_registered-Frame b n (put_flag-Frame a i g h v.registered)
          ∙ o.registered b n (less b n r);
      small = λ b j. ground (arith, o.small b j, v.small);
    };
  }

-- flag.reachable &= ~flag.marked
pub drop_marked-IsLater :
    (f : Flags) → IsLater f (record f { reachable = bit_and f.reachable (complement 64 f.marked) })
drop_marked-IsLater f = record {
  registered = refl;
  reachable = λ j lt r. ground (arith, testbit-drop f.reachable f.marked j);
  marked = λ j lt m. m;
  reached = λ j lt r. ground (arith, testbit-drop f.reachable f.marked j);
  small = λ s. bit_and-lt 64 f.reachable _ s;
}

-- flag.marked |= mask
pub set_marked-IsLater :
    (f : Flags) (j : ℕ) → IsLater f (record f { marked = bit_or f.marked (2 ^ j) })
set_marked-IsLater f j = record {
  registered = refl;
  reachable = λ k lt r. r;
  marked = λ k lt m. ground (arith, testbit-set f.marked j k);
  reached = λ k lt r. ground arith;
  small = λ s. s;
}
