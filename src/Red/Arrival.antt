-- ===== src/Red/Arrival.antt =====
-- What `class REDQueue` of queue/red.cc does with a packet that comes or leaves: enque, deque and
-- drop_early, over the queue of packets, which is a parameter.
use saps_extended.Base.{
  ℕ, ◌+◌, ◌*◌, ◌-◌, Bool, true, false, not, ◌&&◌, ◌||◌, Option, none, some, ltb, leb, ◌==◌,
  if◌then◌else◌,
}
use saps_extended.Red.{
  Double, Packet, Fifo, Params, Vars, Chance, DropType, calculate_p_new, modify_p, estimator,
  or_full, no_drop, forced, unforced,
}

module _ {R Q : Type 0} (d : Double R) (fifo : Fifo Q) where
  open d use {num, of_int, trunc, add, sub, mul, over, pow, lt, le}
  open fifo use {len, byte_length, push, remove_at, pull}

  -- qib_ ? q_->byteLength() : q_->length()
  abbrev pub queued : Params R → Q → ℕ
  queued c q = if c.qib then byte_length q else len q

  -- The number of packets that could have left in the idle time.
  unfoldable pub missed : Params R → R → Vars R → ℕ
  missed c now v =
      if v.idle
      then if c.cautious == 3
        then trunc (
            mul (over (mul c.ptc (of_int c.mean_pktsize)) (of_int c.idle_pktsize))
              (sub now v.idletime))
        else trunc (mul c.ptc (sub now v.idletime))
      else 0

  -- The probabilities of `drop_early`.
  unfoldable pub set_prob : Params R → Packet → Vars R → Vars R
  set_prob c p v =
      let prob1 = calculate_p_new d v.v_ave c.th_max c.gentle v.v_a v.v_b v.v_c v.v_d v.cur_max_p in
      record v {
        v_prob1 = prob1;
        v_prob = modify_p d prob1 v.count v.count_bytes c.bytes c.mean_pktsize c.wait p.size;
      }

  -- pow((1 - q_w), ptc * 0.05)
  abbrev pub recent : Params R → R
  recent c = pow (sub (num 1 1) c.q_w) (mul c.ptc (num 5 100))

  -- The random number, raised if `cautious` is 2 and the queue is short.
  unfoldable pub luck : Params R → Q → Chance R → Vars R → R
  luck c q r v =
      let ratio = over (of_int (queued c q)) (mul (recent c) v.v_ave) in
      if c.cautious == 2 && lt ratio (num 1 1)
      then mul r.uniform (over (num 1 1) ratio)
      else r.uniform

  -- `drop_early`: whether to drop, the packet, which may be marked, and the variables.
  unfoldable pub drop_early : Params R → Q → Chance R → Packet → Vars R → Bool × Packet × Vars R
  unfolding set_prob luck
  drop_early c q r p v =
      let v1 = set_prob c p v in
      let v2 = record v1 { count = 0; count_bytes = 0 } in
      if c.cautious == 1 && lt (of_int (queued c q)) (mul (recent c) v.v_ave)
      then (false, p, v1)
      else if le (luck c q r v1) v1.v_prob
      then if c.setbit && p.ect && (not c.use_mark_p || le v1.v_prob1 c.mark_p)
        then (false, record p { ce = true }, v2)
        else (true, p, v2)
      else (false, p, v1)

  -- `pickPacketToDrop`: its index.
  unfoldable pub victim : Params R → Q → Chance R → ℕ
  victim c q r =
      if c.drop_front
      then if ltb 1 (len q - 1) then 1 else len q - 1
      else if c.drop_rand
      then r.integer (len q)
      else len q - 1

  -- The average is so high that the packet is dropped in any case.
  abbrev pub forced_by_average : Params R → Vars R → Bool
  forced_by_average c v =
      not c.use_mark_p
      && (if c.gentle then le (mul (num 2 1) c.th_max) v.v_ave else le c.th_max v.v_ave)

  -- The drop type by the average, the packet and the variables.
  unfoldable pub judge : Params R → Q → Chance R → Packet → Vars R → DropType × Packet × Vars R
  unfolding drop_early
  judge c q r p v =
      let (drop, p', v') = drop_early c q r p v in
      if le c.th_min v.v_ave && ltb 1 (queued c q)
      then if forced_by_average c v
        then (forced, p, v)
        else if not v.old
        then (no_drop, p, record v { count = 1; count_bytes = p.size; old = true })
        else if drop
        then (unforced, p', v')
        else (no_drop, p', v')
      else (no_drop, p, record v { v_prob = num 0 1; old = false })

  -- The packet is put into the queue, and a victim is taken out.
  unfoldable pub forced_drop : Params R → Q → Chance R → Packet → Vars R → Q × Vars R
  unfolding victim
  forced_drop c q r p v =
      let q' = push p q in
      (
        remove_at (victim c q' r) q',
        if c.ns1_compat then v else record v { count = 0; count_bytes = 0 },
      )

  -- What is done with the packet: the queue, the variables, and the packets dropped.
  unfoldable pub settle : Params R → Q → Chance R → DropType × Packet × Vars R → Q × Vars R × ℕ
  unfolding forced_drop
  settle c q r (no_drop, p, v) = (push p q, v, 0)
  settle c q r (forced, p, v) = let (q', v') = forced_drop c q r p v in (q', v', 1)
  settle c q r (unforced, p, v) = (q, v, 1)

  -- The queue is full.
  abbrev pub is_full : Params R → Q → Bool
  is_full c q = leb (if c.qib then c.qlim * c.mean_pktsize else c.qlim) (queued c q)

  -- The arrival is counted, in the average too.
  unfoldable pub note_arrival : Params R → Q → R → Packet → Vars R → Vars R
  unfolding missed
  note_arrival c q now p v =
      let v1 = estimator d c now (queued c q) (missed c now v + 1) (record v { idle = false }) in
      record v1 { count = v1.count + 1; count_bytes = v1.count_bytes + p.size }

  -- `enque`, at time `now`.
  unfoldable pub enque : Params R → Q → Chance R → R → Packet → Vars R → Q × Vars R × ℕ
  unfolding note_arrival judge settle
  enque c q r now p v =
      settle c q r (or_full (is_full c q) (judge c q r p (note_arrival c q now p v)))

  abbrev pub note_departure : R → Vars R → Option Packet → Vars R
  note_departure now v (some p) = record v { idle = false }
  note_departure now v none = record v { idle = true; idletime = now }

  -- `deque`
  unfoldable pub deque : Q → R → Vars R → Option Packet × Q × Vars R
  deque q now v = let (p, q') = pull q in (p, q', note_departure now v p)
