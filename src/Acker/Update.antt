-- ===== src/Acker/Update.antt =====
-- Every packet takes a valid window to the one that the reassembly buffer prescribes.
use saps_extended.Base.{
  ℕ, ◌+◌, ◌≤◌, ◌<◌, ◌≡◌, ◌≢◌, ◌∙◌, ap, Bool, true, false, arith, lt→ltb, le→not-ltb, le→leb,
}
use native.Mathlib.Decide.{dec_lt}
use saps_extended.Base.Circular.{read}
use saps_extended.Base.Int.{pos}
use saps_extended.Acker.{update, Acker, slot, grow, extend, accept, place, update_at}
use saps_extended.Acker.Refine.{IsValid, held, arrive, Updated, Ready, Ready-Updated}
use saps_extended.Acker.Grow.{Shape, Same, grow_lem}
use saps_extended.Acker.Deliver.{slot-extend, extend-Shape, accept-Accepted}

module _ (a : Acker) (seq bytes : ℕ) (v : IsValid a) where
  grown : Acker
  grown = grow (seq + 2) (record a { is_dup = false }) seq

  cleared-Shape : Shape (record a { is_dup = false })
  unfolding slot
  cleared-Shape = record {
    ring = v.shape.ring;
    wide = v.shape.wide;
    ordered = v.shape.ordered;
    fits = v.shape.fits;
    open_right = v.shape.open_right;
  }

  grown_lem :
      Shape grown
      × Same (record a { is_dup = false }) grown
      × (seq + 1 < grown.next + grown.wndmask)
  unfolding grown
  grown_lem = grow_lem (seq + 2) (record a { is_dup = false }) seq cleared-Shape (omega arith)

  slot-grown : (j : ℕ) → a.next ≤ j → j ≤ a.maxseen + 1 → slot grown j ≡ slot a j
  unfolding slot
  slot-grown j p q = grown_lem.1.slots j p q

  held-grown : (j : ℕ) → a.next ≤ j → j ≤ a.maxseen + 1 → slot grown j ≡ held a j
  unfolding held
  held-grown j p q = ground (arith, slot-grown j p q, v.shape.open_right)

  Ready-inside : a.next ≤ seq → seq ≤ a.maxseen → Ready a seq false grown
  Ready-inside p q = record {
    shape = grown_lem.0;
    next = grown_lem.1.next;
    low = p;
    high = omega (arith, grown_lem.1.maxseen);
    grows = omega (arith, grown_lem.1.maxseen);
    slots = λ j h k n. held-grown j h (omega (arith, grown_lem.1.maxseen));
    dup = ground (arith, grown_lem.1.is_dup, held-grown seq p (omega arith));
  }

  above_beyond : a.maxseen < seq → (j : ℕ) → a.maxseen < j → held a j ≡ 0
  unfolding held
  above_beyond p j h = ground arith

  slot-above :
      a.maxseen < seq
      → (j : ℕ) → a.next ≤ j
      → j ≤ seq + 1
      → seq ≢ j
      → slot (extend grown seq bytes) j ≡ held a j
  slot-above p j h k n = ground (
    arith,
    grown_lem.1.next,
    grown_lem.1.maxseen,
    slot-extend grown seq bytes grown_lem.0 (omega (arith, grown_lem.1.maxseen)) grown_lem.2 j
        (omega (arith, grown_lem.1.next)) k,
    held-grown j h,
    above_beyond p j,
  )

  Ready-above : a.maxseen < seq → Ready a seq true (extend grown seq bytes)
  unfolding extend
  Ready-above p = record {
    shape =
        extend-Shape grown seq bytes grown_lem.0 (omega (arith, grown_lem.1.maxseen)) grown_lem.2;
    next = grown_lem.1.next;
    low = omega (arith, v.shape.ordered);
    high = omega arith;
    grows = omega arith;
    slots = unfold extend in slot-above p;
    dup = ground (arith, grown_lem.1.is_dup, above_beyond p seq);
  }

  slot-left : slot grown a.next ≡ 0
  slot-left = slot-grown a.next (omega arith) v.shape.ordered ∙ v.open_left

  held-left : held a (a.next + 0) ≡ 0
  unfolding held
  held-left = ground (arith, v.open_left)

  held-below :
      seq < a.next
      → (i : ℕ) → grown.next ≤ i
      → held (record grown { is_dup = true }) i ≡ arrive (held a) a.next seq bytes i
  unfolding held slot
  held-below p i h = ground (arith, grown_lem.1.next, grown_lem.1.maxseen, slot-grown i)

  Updated-below : seq < a.next → Updated a seq bytes (record grown { is_dup = true }, 0)
  unfolding slot held
  Updated-below p = record {
    valid = record {
      shape = record {
        ring = grown_lem.0.ring;
        wide = grown_lem.0.wide;
        ordered = grown_lem.0.ordered;
        fits = grown_lem.0.fits;
        open_right = grown_lem.0.open_right;
      };
      open_left = ap (read grown.seen grown.wndmask) grown_lem.1.next ∙ slot-left;
    };
    taken = record {
      count = 0;
      edge = omega (arith, grown_lem.1.next);
      sum = omega arith;
      full = λ i h k. absurd (omega arith);
      stop = ground (arith, held-left);
    };
    kept = λ i h. held-below p i h;
    dup = ground arith;
  }

  place-below :
      (b : Acker) (fresh : Bool)
      → seq < b.next
      → place b seq bytes fresh ≡ (record b { is_dup = true }, 0)
  unfolding place
  place-below b fresh h = rw (lt→ltb seq b.next h)

  place-inside :
      (b : Acker) (fresh : Bool)
      → b.next ≤ seq
      → seq ≤ b.maxseen
      → place b seq bytes fresh ≡ accept b seq bytes fresh
  unfolding place
  place-inside b fresh h k = rw (le→not-ltb seq b.next h, le→leb seq b.maxseen k)

  place-Updated :
      (fresh : Bool) (b : Acker)
      → Ready a seq fresh b
      → Updated a seq bytes (place b seq bytes fresh)
  place-Updated fresh b y = rw (place-inside b fresh (omega (arith, y.next, y.low)) y.high) (
      Ready-Updated a seq bytes fresh b _ y
        (accept-Accepted b seq bytes fresh y.shape (omega (arith, y.next, y.low)) y.high))

  -- Whatever packet comes, the window is kept valid and does what the reassembly buffer does.
  pub update_at-Updated : Updated a seq bytes (update_at a seq bytes)
  unfolding update_at grown
  update_at-Updated = elim (dec_lt a.maxseen seq) [
    | yes above ↦
        rw (lt→ltb grown.maxseen seq (omega (arith, grown_lem.1.maxseen)))
          (place-Updated true _ (Ready-above above))
    | no inside ↦
        rw (le→not-ltb grown.maxseen seq (omega (arith, grown_lem.1.maxseen)))
          (elim (dec_lt seq a.next) [
            | yes below ↦
                rw (place-below grown false (omega (arith, grown_lem.1.next))) (Updated-below below)
            | no in_window ↦ place-Updated false grown (Ready-inside (omega arith) (omega arith))
          ])
  ]

-- Let the window be valid: its array has a power of two of at least 64 entries, the packets from
-- the left edge to one past the highest fit into it, and the entries at the left edge and past
-- the highest are empty. Then for every packet number from 0 up and every size, update gives a
-- valid window again and does what a reassembly buffer with a left edge does: the packet is put
-- in if it is not below the left edge, the packets from the left edge up to the first gap are
-- taken out and their bytes are returned, the rest is kept, and is_dup_ says whether the packet
-- was below the left edge or already held.
pub update-Updated :
    (a : Acker) (seq bytes : ℕ) → IsValid a → Updated a seq bytes (update a (pos seq) bytes)
unfolding update
update-Updated a seq bytes v = update_at-Updated a seq bytes v
