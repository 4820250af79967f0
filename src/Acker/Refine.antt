-- ===== src/Acker/Refine.antt =====
-- `Acker::update` against a reassembly buffer: a left edge and, for each packet number, the
-- bytes that are held for it.
use saps_extended.Base.{
  ℕ, ◌+◌, ◌≤◌, ◌≡◌, ◌≢◌, refl, ◌∙◌, ap, subst, Bool, ◌&&◌, ◌||◌, not, ltb, leb, ◌==◌, arith,
  if◌then◌else◌, length-replicate,
}
use saps_extended.Base.Circular.{read-replicate}
use saps_extended.Acker.{Acker, new, reset, slot, mws}
use saps_extended.Acker.Grow.{Shape, Same}
use saps_extended.Acker.Deliver.{Collected, Collected-ext, Accepted}

-- Between two packets the left edge stands at a packet that has not come.
pub record IsValid (a : Acker) : Type 0 where
  pub shape : Shape a
  pub open_left : slot a a.next ≡ 0

-- The bytes held for packet `i`: those in the window, and nothing outside it.
unfoldable pub held : Acker → ℕ → ℕ
held a i = if leb a.next i && leb i a.maxseen then slot a i else 0

-- The buffer `f` with left edge `next` when packet `seq` of `bytes` bytes has come.
abbrev pub arrive : (ℕ → ℕ) → ℕ → ℕ → ℕ → ℕ → ℕ
arrive f next seq bytes i = if leb next seq && (seq == i) then bytes else f i

-- `r` is the buffer of `a` with the packet put in and the packets from the left edge up to the
-- first gap taken out.
pub record Updated (a : Acker) (seq bytes : ℕ) (r : Acker × ℕ) : Type 0 where
  pub valid : IsValid r.0
  pub taken : Collected (arrive (held a) a.next seq bytes) a.next 0 (r.1, r.0.next)
  pub kept : (i : ℕ) → r.0.next ≤ i → held r.0 i ≡ arrive (held a) a.next seq bytes i
  pub dup : r.0.is_dup ≡ (ltb seq a.next || not (held a seq == 0))

-- Nothing is held at the left edge.
pub held-next : (a : Acker) → IsValid a → held a a.next ≡ 0
unfolding held
held-next a v = ground (arith, v.open_left)

-- The constructor gives a valid window that holds nothing.
pub new-IsValid : IsValid new
unfolding new slot
new-IsValid = record {
  shape = record {
    ring = record { bits = 6; ones = refl; sized = length-replicate {A = ℕ} mws 0 };
    wide = omega arith;
    ordered = omega arith;
    fits = omega arith;
    open_right = read-replicate mws 63 1;
  };
  open_left = read-replicate mws 63 0;
}

pub reset-IsValid : {a : Acker} → IsValid a → IsValid (reset a)
unfolding reset slot
reset-IsValid {a} v = record {
  shape = record {
    ring = record {
      bits = v.shape.ring.bits;
      ones = v.shape.ring.ones;
      sized = length-replicate (a.wndmask + 1) 0;
    };
    wide = v.shape.wide;
    ordered = omega arith;
    fits = omega (arith, v.shape.wide);
    open_right = read-replicate (a.wndmask + 1) a.wndmask 1;
  };
  open_left = read-replicate (a.wndmask + 1) a.wndmask 0;
}

-- A window that holds what `a` held is updated as `a` is.
held-Same : {a b : Acker} (i : ℕ) → Same a b → held b i ≡ held a i
unfolding held
held-Same {a} {b} i s = ground (arith, s.next, s.maxseen, s.slots i)

-- `b` is the window of `a` once there is room for packet `seq`, which is not marked yet or marked
-- with its new size.
pub record Ready (a : Acker) (seq : ℕ) (fresh : Bool) (b : Acker) : Type 0 where
  pub shape : Shape b
  pub next : b.next ≡ a.next
  pub low : a.next ≤ seq
  pub high : seq ≤ b.maxseen
  pub grows : a.maxseen ≤ b.maxseen
  pub slots : (j : ℕ) → a.next ≤ j → j ≤ b.maxseen + 1 → seq ≢ j → slot b j ≡ held a j
  pub dup : (b.is_dup || (not (slot b seq == 0) && not fresh)) ≡ not (held a seq == 0)

module _ (a : Acker) (seq bytes : ℕ) (fresh : Bool) (b : Acker) (r : Acker × ℕ)
    (y : Ready a seq fresh b) (c : Accepted b seq bytes fresh r) where
  slot-arrive :
      (j : ℕ) → a.next ≤ j → j ≤ b.maxseen + 1 → slot r.0 j ≡ arrive (held a) a.next seq bytes j
  slot-arrive j p q = ground (arith, y.low, y.next, c.slots j, y.slots j p q)

  held-arrive : (i : ℕ) → r.0.next ≤ i → held r.0 i ≡ arrive (held a) a.next seq bytes i
  unfolding held
  held-arrive i p =
      ground (arith, c.maxseen, c.collected.edge, y.next, y.high, y.grows, slot-arrive i)

  pub Ready-Updated : Updated a seq bytes r
  Ready-Updated = record {
    valid = record {
      shape = c.shape;
      open_left = ap (slot r.0) c.collected.edge ∙ c.collected.stop;
    };
    taken =
        Collected-ext (slot r.0) _ a.next 0 (r.1, r.0.next)
          (λ i p q. slot-arrive i p (omega (arith, c.reach)))
          (subst (λ n. Collected (slot r.0) n 0 (r.1, r.0.next)) y.next c.collected);
    kept = held-arrive;
    dup = ground (arith, c.dup, y.dup, y.low);
  }
