-- ===== src/Red/Mark.antt =====
-- The queue as DCTCP uses it: packets are marked, and dropped only if the queue is full.
use saps_extended.Base.{◌≡◌, true, false, arith}
use saps_extended.Red.{
  Double, Packet, Fifo, Params, Vars, Chance, one, at_most_one, calculate_p_new, or_full,
}
use saps_extended.Red.Arrival.{set_prob, drop_early, judge, settle, is_full, note_arrival, enque}

-- 1.0 compares with other numbers as a number does.
pub record IsUnit {R : Type 0} (d : Double R) : Type 0 where
  pub le_one : d.le (one d) (one d) ≡ true
  pub le_of_not_lt : (p : R) → d.lt (one d) p ≡ false → d.le p (one d) ≡ true

-- Packets are marked at every probability, and the average forces no drop.
pub record Marks {R : Type 0} (d : Double R) (c : Params R) : Type 0 where
  pub marking : c.setbit ≡ true
  pub by_mark_p : c.use_mark_p ≡ true
  pub at_one : c.mark_p ≡ one d

module _ {R Q : Type 0} (d : Double R) (fifo : Fifo Q) (laws : IsUnit d) (c : Params R)
    (m : Marks d c) where
  at_most_one-le : (p : R) → d.le (at_most_one d p) (one d) ≡ true
  unfolding at_most_one
  at_most_one-le p = ground (arith, laws.le_one, laws.le_of_not_lt p)

  prob1-le : (p : Packet) (v : Vars R) → d.le (set_prob d fifo c p v).v_prob1 c.mark_p ≡ true
  unfolding set_prob calculate_p_new
  prob1-le p v = rw (m.at_one) (at_most_one-le _)

  drop_early-marks :
      (q : Q) (r : Chance R) (p : Packet) (v : Vars R)
      → p.ect ≡ true
      → (drop_early d fifo c q r p v).0 ≡ false
  unfolding drop_early
  drop_early-marks q r p v ect = ground (arith, prob1-le p v, m.marking, ect)

  settle-none :
      (q : Q) (r : Chance R) (p : Packet) (v : Vars R)
      → p.ect ≡ true
      → (settle d fifo c q r (or_full false (judge d fifo c q r p v))).2 ≡ 0
  unfolding settle judge
  settle-none q r p v ect = ground (arith, drop_early-marks q r p v ect, m.by_mark_p)

-- With setbit and use_mark_p set and mark_p at 1.0, and if 1.0 compares with numbers as a number
-- does, an ECN-capable packet that comes when the queue is not full is not dropped, and no other
-- is dropped for it.
pub enque-Marks :
    {R Q : Type 0} (d : Double R) (fifo : Fifo Q) (c : Params R) (q : Q) (r : Chance R) (now : R)
    (p : Packet) (v : Vars R)
    → IsUnit d
    → Marks d c
    → p.ect ≡ true
    → is_full d fifo c q ≡ false
    → (enque d fifo c q r now p v).2 ≡ 0
unfolding enque
enque-Marks d fifo c q r now p v laws m ect room =
    rw room (settle-none d fifo laws c m q r p (note_arrival d fifo c q now p v) ect)
