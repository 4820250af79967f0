-- ===== src/Red/Tests.antt =====
-- A queue of at most two packets, with numbers in thousandths.
use saps_extended.Base.{
  ℕ, zero, suc, ◌+◌, ◌<◌, ◌≤◌, ◌≡◌, refl, List, [], ◌∷◌, ◌++◌, true, false, Option, none, some,
  arith, ltb, leb, length,
}
use saps_extended.Red.Thousandths.{thousandths}
use saps_extended.Red.{Packet, Fifo, Params, between, Vars, Chance}
use saps_extended.Red.Arrival.{enque}
use saps_extended.Red.Limit.{IsFifo, Event, arrive, take, arrivals, Run, react_all, react_all-len}
use saps_extended.Red.Mark.{enque-Marks}

abbrev remove_at : ℕ → List Packet → List Packet
remove_at i [] = []
remove_at zero (p ∷ q) = q
remove_at (suc i) (p ∷ q) = p ∷ remove_at i q

abbrev pull : List Packet → Option Packet × List Packet
pull [] = (none, [])
pull (p ∷ q) = (some p, q)

abbrev bytes_of : List Packet → ℕ
bytes_of [] = 0
bytes_of (p ∷ q) = p.size + bytes_of q

abbrev lists : Fifo (List Packet)
lists = record {
  len = length;
  byte_length = bytes_of;
  push = λ p q. q ++ p ∷ [];
  remove_at = remove_at;
  pull = pull;
}

length-push : (p : Packet) (q : List Packet) → length (q ++ p ∷ []) ≡ length q + 1
length-push p [] = omega arith
length-push p (x ∷ q) = omega (arith, length-push p q)

length-remove_at : (i : ℕ) (q : List Packet) → i < length q → length (remove_at i q) + 1 ≡ length q
length-remove_at i [] h = absurd (omega arith)
length-remove_at zero (p ∷ q) h = omega arith
length-remove_at (suc i) (p ∷ q) h = omega (arith, length-remove_at i q (omega arith))

length-pull :
    (q : List Packet) → length (pull q).1 + (elim ((pull q).0) [ none ↦ 0 | some p ↦ 1 ]) ≡ length q
length-pull [] = refl
length-pull (p ∷ q) = omega arith

lists-IsFifo : IsFifo lists
lists-IsFifo = record {
  len-push = length-push;
  len-remove = length-remove_at;
  len-pull = length-pull;
}

abbrev params : Params ℕ
params = record {
  mean_pktsize = 1500;
  idle_pktsize = 100;
  bytes = false;
  wait = false;
  setbit = true;
  gentle = false;
  th_min = 1000;
  th_max = 1000;
  q_w = 1000;
  adaptive = false;
  feng_adaptive = false;
  cautious = 0;
  alpha = 10;
  beta = 900;
  interval = 500;
  top = 500;
  bottom = 0;
  ptc = 100;
  use_mark_p = true;
  mark_p = 1000;
  qib = false;
  qlim = 2;
  ns1_compat = false;
  drop_front = false;
  drop_rand = false;
}

abbrev vars : Vars ℕ
vars = record {
  v_ave = 0;
  v_prob1 = 0;
  v_a = 1000;
  v_b = 0;
  v_c = 0;
  v_d = 0;
  v_prob = 0;
  count = 0;
  count_bytes = 0;
  old = false;
  cur_max_p = 1000;
  lastset = 0;
  status = between;
  idle = true;
  idletime = 0;
}

abbrev zeros : Chance ℕ
zeros = record { uniform = 0; integer = λ k. 0 }

abbrev packet : Packet
packet = record { size = 1500; ect = true; ce = false }

abbrev empty : Run ℕ (List Packet)
empty = record { queue = []; vars = vars; dropped = 0; gone = 0 }

abbrev events : List (Event ℕ)
events = arrive zeros 10 packet ∷ arrive zeros 20 packet ∷ arrive zeros 30 packet ∷ take 40 ∷ []

react_all-len_example :
    let s' = react_all thousandths lists params empty events in
    (length s'.queue ≤ 2) × (length s'.queue + s'.dropped + s'.gone ≡ 0 + 0 + 0 + arrivals events)
react_all-len_example =
    react_all-len thousandths lists params lists-IsFifo refl empty events
      ((λ k h. h), ((λ k h. h), ((λ k h. h), tt))) (omega arith)

le_of_not_lt : (p : ℕ) → ltb 1000 p ≡ false → leb p 1000 ≡ true
le_of_not_lt p h = ground arith

enque-Marks_example : (enque thousandths lists params (packet ∷ []) zeros 10 packet vars).2 ≡ 0
enque-Marks_example =
    enque-Marks thousandths lists params (packet ∷ []) zeros 10 packet vars
      (record { le_one = refl; le_of_not_lt = le_of_not_lt })
      (record { marking = refl; by_mark_p = refl; at_one = refl }) refl refl
