-- ===== src/Red/Limit.antt =====
-- The queue stays within its limit, and every packet that arrives is queued, dropped or sent on.
use saps_extended.Base.{
  leb, Bool-cases, inl, inr, arith, ℕ, ◌+◌, ◌<◌, ◌≤◌, ◌≡◌, List, [], ◌∷◌, Bool, true, false, Option,
  none, some,
}
use saps_extended.Red.{
  Double, Packet, Fifo, Params, Vars, Chance, DropType, no_drop, forced, unforced, or_full,
}
use saps_extended.Red.Arrival.{
  victim, forced_drop, judge, settle, is_full, note_arrival, enque, deque,
}

-- `q_` counts its packets; `pull` gives one exactly if there is one.
pub record IsFifo {Q : Type 0} (fifo : Fifo Q) : Type 0 where
  pub len-push : (p : Packet) (q : Q) → fifo.len (fifo.push p q) ≡ fifo.len q + 1
  pub len-remove : (i : ℕ) (q : Q) → i < fifo.len q → fifo.len (fifo.remove_at i q) + 1 ≡ fifo.len q
  pub len-pull :
      (q : Q)
      → fifo.len (fifo.pull q).1 + (elim ((fifo.pull q).0) [ none ↦ 0 | some p ↦ 1 ]) ≡ fifo.len q

-- `Random::integer` gives a number below its bound.
abbrev pub InRange : {R : Type 0} → Chance R → Type 0
InRange r = (k : ℕ) → 0 < k → r.integer k < k

module _ {R Q : Type 0} (d : Double R) (fifo : Fifo Q) (laws : IsFifo fifo) (c : Params R) where
  victim-lt : (q : Q) (r : Chance R) → InRange r → 0 < fifo.len q → victim d fifo c q r < fifo.len q
  unfolding victim
  victim-lt q r ranged h = ground (arith, ranged (fifo.len q))

  forced_drop-len :
      (q : Q) (r : Chance R) (p : Packet) (v : Vars R)
      → InRange r
      → fifo.len (forced_drop d fifo c q r p v).0 ≡ fifo.len q
  unfolding forced_drop
  forced_drop-len q r p v ranged =
      let q' = fifo.push p q in
      let more : fifo.len q' ≡ fifo.len q + 1 = laws.len-push p q in
      omega (
        arith,
        more,
        laws.len-remove (victim d fifo c q' r) q' (victim-lt q' r ranged (omega (arith, more))),
      )

  -- Of a full queue a packet is dropped.
  settle-len :
      (q : Q) (r : Chance R) (t : DropType × Packet × Vars R) (full : Bool)
      → InRange r
      → let (q', v', drops) = settle d fifo c q r (or_full full t) in
        (fifo.len q' + drops ≡ fifo.len q + 1) × (drops ≤ 1) × (full ≡ true → drops ≡ 1)
  unfolding settle
  settle-len q r (no_drop, p, v) full ranged =
      ground (arith, forced_drop-len q r p v ranged, laws.len-push p q)
  settle-len q r (forced, p, v) full ranged =
      ground (arith, forced_drop-len q r p v ranged, laws.len-push p q)
  settle-len q r (unforced, p, v) full ranged =
      ground (arith, forced_drop-len q r p v ranged, laws.len-push p q)

  enque-len :
      (q : Q) (r : Chance R) (now : R) (p : Packet) (v : Vars R)
      → InRange r
      → let (q', v', drops) = enque d fifo c q r now p v in
        (fifo.len q' + drops ≡ fifo.len q + 1)
        × (drops ≤ 1)
        × (is_full d fifo c q ≡ true → drops ≡ 1)
  unfolding enque
  enque-len q r now p v ranged =
      settle-len q r (judge d fifo c q r p (note_arrival d fifo c q now p v)) (is_full d fifo c q)
        ranged

-- A packet comes, with the random numbers for it, or the link takes one.
pub data Event (R : Type 0) : Type 0 where
  arrive : Chance R → R → Packet → Event R
  take : R → Event R

abbrev pub AllInRange : {R : Type 0} → List (Event R) → Type 0
AllInRange [] = Unit
AllInRange (arrive r now p ∷ events) = InRange r × AllInRange events
AllInRange (take now ∷ events) = AllInRange events

-- How many packets came.
abbrev pub arrivals : {R : Type 0} → List (Event R) → ℕ
arrivals [] = 0
arrivals (arrive r now p ∷ events) = arrivals events + 1
arrivals (take now ∷ events) = arrivals events

-- The queue, the variables, and how many packets were dropped and sent on.
pub record Run (R Q : Type 0) : Type 0 where
  pub queue : Q
  pub vars : Vars R
  pub dropped : ℕ
  pub gone : ℕ

abbrev one_if : Option Packet → ℕ
one_if none = 0
one_if (some p) = 1

-- An arrival by its numbers: the packets queued before and after, and those dropped.
counts-arrive :
    (n n' drops dropped gone limit : ℕ)
    → n' + drops ≡ n + 1
    → drops ≤ 1
    → (leb limit n ≡ true → drops ≡ 1)
    → n ≤ limit
    → (n' ≤ limit) × (n' + (dropped + drops) + gone ≡ n + dropped + gone + 1)
counts-arrive n n' drops dropped gone limit sum few full h = elim (Bool-cases (leb limit n)) [
  | inl hit ↦ let one = full hit in (omega (arith, one), omega arith)
  | inr above ↦ (ground arith, omega arith)
]

module _ {R Q : Type 0} (d : Double R) (fifo : Fifo Q) (c : Params R) where
  pub react : Run R Q → Event R → Run R Q
  unfolding enque deque
  react s (arrive r now p) =
      let (q, v, drops) = enque d fifo c s.queue r now p s.vars in
      record s { queue = q; vars = v; dropped = s.dropped + drops }
  react s (take now) =
      let (p, q, v) = deque d fifo s.queue now s.vars in
      record s { queue = q; vars = v; gone = s.gone + one_if p }

  pub react_all : Run R Q → List (Event R) → Run R Q
  unfolding react
  react_all s [] = s
  react_all s (e ∷ events) = react_all (react s e) events

  module _ (laws : IsFifo fifo) (packets : c.qib ≡ false) where
    is_full-packets : (q : Q) → leb c.qlim (fifo.len q) ≡ true → is_full d fifo c q ≡ true
    is_full-packets q hit = rw packets hit

    react-arrive :
        (s : Run R Q) (r : Chance R) (now : R) (p : Packet)
        → InRange r
        → fifo.len s.queue ≤ c.qlim
        → let s' = react s (arrive r now p) in
          (fifo.len s'.queue ≤ c.qlim)
          × (fifo.len s'.queue + s'.dropped + s'.gone ≡ fifo.len s.queue + s.dropped + s.gone + 1)
    unfolding react
    react-arrive s r now p ranged h =
        let (sum, few, full) = enque-len d fifo laws c s.queue r now p s.vars ranged in
        counts-arrive _ _ _ _ _ _ sum few (λ hit. full (is_full-packets s.queue hit)) h

    react-take :
        (s : Run R Q) (now : R)
        → fifo.len s.queue ≤ c.qlim
        → let s' = react s (take now) in
          (fifo.len s'.queue ≤ c.qlim)
          × (fifo.len s'.queue + s'.dropped + s'.gone ≡ fifo.len s.queue + s.dropped + s.gone)
    unfolding react deque
    react-take s now h = ground (arith, laws.len-pull s.queue)

    -- For a packet queue that counts its packets, random integers below their bounds, a length
    -- measured in packets, and at first not more than qlim_ packets: over any sequence of
    -- arrivals and departures the queue stays within qlim_, and every packet that came is in the
    -- queue, dropped or sent on, each counted once.
    pub react_all-len :
        (s : Run R Q) (events : List (Event R))
        → AllInRange events
        → fifo.len s.queue ≤ c.qlim
        → let s' = react_all s events in
          (fifo.len s'.queue ≤ c.qlim)
          × (fifo.len s'.queue + s'.dropped + s'.gone
              ≡ fifo.len s.queue + s.dropped + s.gone + arrivals events)
    unfolding react_all
    react_all-len s [] all h = (h, omega arith)
    react_all-len s (arrive r now p ∷ events) all h =
        let (below, sum) = react-arrive s r now p all.0 h in
        let (below', sum') = react_all-len (react s (arrive r now p)) events all.1 below in
        (below', omega (arith, sum, sum'))
    react_all-len s (take now ∷ events) all h =
        let (below, sum) = react-take s now h in
        let (below', sum') = react_all-len (react s (take now)) events all below in
        (below', omega (arith, sum, sum'))
