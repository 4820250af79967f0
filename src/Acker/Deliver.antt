-- ===== src/Acker/Deliver.antt =====
-- What the two blocks of `update` do to a window that has room for the packet.
use saps_extended.Base.{
  sym, ◌||◌, ◌&&◌, not, refl, ℕ, zero, suc, ◌+◌, ◌-◌, ◌≤◌, ◌<◌, ◌≡◌, ◌≢◌, ◌∙◌, ap, Bool, ◌&&◌, ◌||◌,
  not, leb, ◌==◌, arith, if◌then◌else◌, Bool-cases, inl, inr,
}
use saps_extended.Base.Circular.{write, IsRing, write-IsRing, read-write}
use saps_extended.Acker.{accept, Acker, clear_slots, extend, collect, slot}
use saps_extended.Acker.Window.{clear_slots-IsRing, read-clear_slots}
use saps_extended.Acker.Grow.{Shape}

-- f i + … + f (i + n - 1)
abbrev pub sum_range : (ℕ → ℕ) → ℕ → ℕ → ℕ
sum_range f i zero = 0
sum_range f i (suc n) = f i + sum_range f (i + 1) n

module _ (a : Acker) (seq bytes : ℕ) (s : Shape a) (above : a.maxseen < seq)
    (room : seq + 1 < a.next + a.wndmask) where
  cleared-IsRing :
      IsRing a.wndmask (clear_slots (seq - (a.maxseen + 1)) (a.maxseen + 1) a.wndmask a.seen)
  cleared-IsRing = clear_slots-IsRing (seq - (a.maxseen + 1)) (a.maxseen + 1) s.ring

  -- The packets between the old highest and the new one are marked as not received.
  pub slot-extend :
      (j : ℕ)
      → a.next ≤ j
      → j ≤ seq + 1
      → slot (extend a seq bytes) j
        ≡ (if seq == j then bytes else if leb j a.maxseen then slot a j else 0)
  unfolding slot extend
  slot-extend j p q = ground (
    arith,
    s.ordered,
    read-write a.next (seq + 1) j 0 (write-IsRing seq bytes cleared-IsRing)
        (omega (arith, s.ordered)) (omega arith) p (omega arith),
    read-write a.next seq j bytes cleared-IsRing (omega (arith, s.ordered)) (omega arith) p
        (omega arith),
    read-clear_slots (seq - (a.maxseen + 1)) (a.maxseen + 1) a.next j s.ring s.ordered
        (omega (arith, s.ordered)) p (omega arith),
  )

  pub extend-Shape : Shape (extend a seq bytes)
  unfolding extend
  extend-Shape = record {
    ring = write-IsRing (seq + 1) 0 (write-IsRing seq bytes cleared-IsRing);
    wide = s.wide;
    ordered = omega (arith, s.ordered);
    fits = room;
    open_right = ground (arith, slot-extend (seq + 1) (omega (arith, s.ordered)) (omega arith));
  }

-- The result `r` of collecting entries of `f` from `n` on.
pub record Collected (f : ℕ → ℕ) (n total : ℕ) (r : ℕ × ℕ) : Type 0 where
  pub count : ℕ
  pub edge : r.1 ≡ n + count
  pub sum : r.0 ≡ total + sum_range f n count
  pub full : (i : ℕ) → n ≤ i → i < n + count → f i ≢ 0
  pub stop : f (n + count) ≡ 0

Collected-none : (f : ℕ → ℕ) (n total : ℕ) → f n ≡ 0 → Collected f n total (total, n)
Collected-none f n total z = record {
  count = 0;
  edge = omega arith;
  sum = omega arith;
  full = λ i h k. absurd (omega arith);
  stop = ground arith;
}

Collected-more :
    (f : ℕ → ℕ) (n total : ℕ) (r : ℕ × ℕ)
    → f n ≢ 0
    → Collected f (n + 1) (total + f n) r
    → Collected f n total r
Collected-more f n total r taken c = record {
  count = suc c.count;
  edge = omega (arith, c.edge);
  sum = omega (arith, c.sum);
  full = λ i h k. ground (arith, c.full i);
  stop = ap f (omega arith) ∙ c.stop;
}

pub sum_range-ext :
    (f g : ℕ → ℕ) (n k : ℕ)
    → ((i : ℕ) → n ≤ i → i < n + k → f i ≡ g i)
    → sum_range f n k ≡ sum_range g n k
sum_range-ext f g n zero h = refl
sum_range-ext f g n (suc k) h = omega (
  arith,
  h n (omega arith) (omega arith),
  sum_range-ext f g (n + 1) k (λ i p q. h i (omega arith) (omega arith)),
)

-- Only the entries up to the end of the run matter.
pub Collected-ext :
    (f g : ℕ → ℕ) (n total : ℕ) (r : ℕ × ℕ)
    → ((i : ℕ) → n ≤ i → i ≤ r.1 → f i ≡ g i)
    → Collected f n total r
    → Collected g n total r
Collected-ext f g n total r h c = record {
  count = c.count;
  edge = c.edge;
  sum =
      c.sum
      ∙ ap (λ t. total + t) (sum_range-ext f g n c.count (λ i p q. h i p (omega (arith, c.edge))));
  full = λ i p q. rw (← h i p (omega (arith, c.edge))) (c.full i p q);
  stop = sym (h (n + c.count) (omega arith) (omega (arith, c.edge))) ∙ c.stop;
}

-- With an empty entry ahead the loop ends by its test, at the first empty entry.
pub collect-Collected :
    (fuel : ℕ) (a : Acker) (n total e : ℕ)
    → n ≤ e
    → e < n + fuel
    → slot a e ≡ 0
    → Collected (slot a) n total (collect fuel a n total) × ((collect fuel a n total).1 ≤ e)
unfolding collect
collect-Collected zero a n total e p q z = absurd (omega arith)
collect-Collected (suc fuel) a n total e p q z = elim (Bool-cases (slot a n == 0)) [
  | inl empty ↦ rw empty (Collected-none (slot a) n total (ground arith), p)
  | inr taken ↦
      let (c, le) =
        collect-Collected fuel a (n + 1) (total + slot a n) e (ground arith) (omega arith) z in
      rw taken (Collected-more (slot a) n total _ (ground arith) c, le)
]

-- What `accept` returns: the packets from the old left edge up to the new one are all there and
-- are delivered, the entry at the new one is empty, and nothing else has changed.
pub record Accepted (a : Acker) (seq bytes : ℕ) (fresh : Bool) (r : Acker × ℕ) : Type 0 where
  pub shape : Shape r.0
  pub maxseen : r.0.maxseen ≡ a.maxseen
  pub reach : r.0.next ≤ a.maxseen + 1
  pub slots :
      (j : ℕ) → a.next ≤ j → j ≤ a.maxseen + 1 → slot r.0 j ≡ (if seq == j then bytes else slot a j)
  pub collected : Collected (slot r.0) a.next 0 (r.1, r.0.next)
  pub dup : r.0.is_dup ≡ (a.is_dup || (not (slot a seq == 0) && not fresh))

module _ (a : Acker) (seq bytes : ℕ) (fresh : Bool) (s : Shape a) (low : a.next ≤ seq)
    (high : seq ≤ a.maxseen) where
  marked : Acker
  marked = record a {
    seen = write a.seen a.wndmask seq bytes;
    is_dup = a.is_dup || (not (slot a seq == 0) && not fresh);
  }

  slot-marked :
      (j : ℕ)
      → a.next ≤ j
      → j ≤ a.maxseen + 1
      → slot marked j ≡ (if seq == j then bytes else slot a j)
  unfolding slot marked
  slot-marked j p q =
      read-write a.next seq j bytes s.ring low (omega (arith, s.fits)) p (omega (arith, s.fits))

  end-marked : slot marked (a.maxseen + 1) ≡ 0
  end-marked = ground (arith, slot-marked (a.maxseen + 1) s.ordered (omega arith), s.open_right)

  collected :
      Collected (slot marked) a.next 0 (collect (a.maxseen + 2 - a.next) marked a.next 0)
      × ((collect (a.maxseen + 2 - a.next) marked a.next 0).1 ≤ a.maxseen + 1)
  collected =
      collect-Collected (a.maxseen + 2 - a.next) marked a.next 0 (a.maxseen + 1) s.ordered
        (omega (arith, s.ordered)) end-marked

  pub accept-Accepted : Accepted a seq bytes fresh (accept a seq bytes fresh)
  unfolding accept marked slot
  accept-Accepted = record {
    shape = record {
      ring = write-IsRing seq bytes s.ring;
      wide = s.wide;
      ordered = collected.1;
      fits = omega (arith, s.fits, collected.0.edge);
      open_right = end-marked;
    };
    maxseen = refl;
    reach = collected.1;
    slots = slot-marked;
    collected = collected.0;
    dup = refl;
  }
