-- ===== src/Dctcp/Tests.antt =====
-- Fractions in thousandths.
use saps_extended.Base.{
  ℕ, ◌+◌, ◌*◌, ◌-◌, ◌/◌, ◌≡◌, refl, List, [], ◌∷◌, Bool, true, false, arith, ltb, length,
}
use saps_extended.Base.Int.{pos, ◌-ℤ◌}
use saps_extended.Dctcp.{Double, Ack, Counts, acked_bytes, fraction}
use saps_extended.Dctcp.Bytes.{
  Event, acked, sent, Estimate, Holds, see_all, learn_all, see_all-Holds,
}
use saps_extended.Dctcp.Reroute.{IsFresh, score, trips, trips-congested}

abbrev thousandths : Double ℕ
thousandths = record {
  of_int = λ n. n * 1000;
  one = 1000;
  nought = 0;
  add = ◌+◌;
  sub = ◌-◌;
  mul = λ a b. a * b / 1000;
  over = λ a b. a * 1000 / b;
  gt = λ a b. ltb b a;
}

abbrev ack : Bool → ℕ → ℕ → Ack
ack marked seqno highest = record { ecnecho = marked; seqno = pos seqno; highest_ack = pos highest }

abbrev fresh : Counts ℕ
fresh = record {
  total = 0;
  marked = 0;
  alpha = 0;
  update_seq = pos 0;
  maxseq = pos 0;
  total_acks = 0;
  marked_acks = 0;
  congested = 1;
  ttl = 32;
}

abbrev nothing : Estimate ℕ
nothing = record { since = []; alpha = 0; update_seq = pos 0; maxseq = pos 0 }

abbrev events : List Event
events = sent (pos 9) ∷ acked (ack true 3 0) ∷ acked (ack false 7 3) ∷ acked (ack true 12 7) ∷ []

see_all-Holds_example :
    Holds (see_all thousandths 62 fresh events) (learn_all thousandths 62 nothing events)
see_all-Holds_example = see_all-Holds thousandths 62 fresh nothing events (record {
  total_is = refl;
  marked_is = refl;
  alpha_is = refl;
  update_is = refl;
  maxseq_is = refl;
})

-- Three congested round-trip times after one: two reroutes, with a limit of 2.
abbrev marked_trips : List (List Ack)
marked_trips = (ack true 3 0 ∷ []) ∷ (ack true 5 3 ∷ ack false 6 5 ∷ []) ∷ (ack true 9 6 ∷ []) ∷ []

trips-congested_example :
    IsFresh thousandths 62 50 2 (trips thousandths 62 50 2 fresh marked_trips)
    × (score thousandths 62 50 2 (trips thousandths 62 50 2 fresh marked_trips)
        ≡ score thousandths 62 50 2 fresh + length marked_trips)
unfolding acked_bytes ◌-ℤ◌ fraction
trips-congested_example =
    trips-congested thousandths 62 50 2 fresh marked_trips
      (record { no_acks = refl; no_marks = refl; few = omega arith })
      ((omega arith, refl), ((omega arith, refl), ((omega arith, refl), tt)))
