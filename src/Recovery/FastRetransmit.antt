-- ===== src/Recovery/FastRetransmit.antt =====
-- Duplicate acknowledgements in a row: the first ones are counted, and the last one of
-- `numdupacks` has the missing segment sent again, once.
pub mod Once
use saps_extended.Base.{
  ℕ, zero, suc, ◌+◌, ◌-◌, ◌/◌, ◌<◌, ◌≡◌, refl, ap, sym, subst, ◌∙◌, List, [], ◌∷◌, ◌++◌, map, Bool,
  true, false, not, ◌&&◌, ◌||◌, some, arith, ltb, ◌==◌, if◌then◌else◌,
}
use saps_extended.Base.Int.{ℤ, pos, pos_part, neg_part, ◌+ℤ◌, ◌-ℤ◌, leb_ℤ, ltb_ℤ, eqb_ℤ}
use mathlib.Core.List.{append-nil}
use saps_extended.SackStack.{Block}
use saps_extended.Packet.{Packet}
use saps_extended.Cwnd.{dupack}
use saps_extended.Sender.{Sender, Segment}
use saps_extended.Sender.Window.{IsData, output-seqno}
use saps_extended.Sender.Pipe.{output-pipe}
use saps_extended.Recovery.{Setup, Sack1, ecnecho, slow, reset_timer}
use saps_extended.Recovery.Loss.{
  num_dupacks, flight, set_pipe, set_recover, set_action, set_fastrecov, halves, retransmit,
  sack_action, dupack_action,
}
use saps_extended.Recovery.Recv.{
  update_board, count_marks, note_ack, count_duplicate, sfrto_step, duplicate, send_normal,
  recv_normal, recv,
}
use saps_extended.Recovery.Timeout.{Event, acked}
use saps_extended.Recovery.Calm.{slow-Calm, output-Same}
use saps_extended.Recovery.Events.{run, go_on, and_then}
use saps_extended.Recovery.FastRetransmit.Once.{
  Plain, Waits, Ready, IsDuplicate, Resent, dupacks_for, more, more-is, step_counts, step_acts,
}

-- Each is a duplicate.
abbrev pub AllDuplicates : {R B : Type 0} → Setup R B → Sender → List (ℕ × Packet) → Type 0
AllDuplicates e s [] = Unit
AllDuplicates e s ((now, p) ∷ acks) = IsDuplicate e s p × AllDuplicates e s acks

abbrev pub acks_of : List (ℕ × Packet) → List Event
acks_of [] = []
acks_of ((now, p) ∷ acks) = acked now p ∷ acks_of acks

abbrev pub length : List (ℕ × Packet) → ℕ
length [] = 0
length (a ∷ acks) = suc (length acks)

module _ {R B : Type 0} (e : Setup R B) (s : Sender) (x : R) (ready : Ready s)
    (plain : Plain e) where
  duplicates :
      (k j : ℕ) (a : Sack1 R B) (acks : List (ℕ × Packet))
      → Waits s x k a
      → length acks ≡ suc j
      → k + suc j ≡ dupacks_for e x
      → AllDuplicates e s acks
      → (r : Sack1 R B × List Segment) × (run e a (acks_of acks) ≡ some r)
        × Resent s (dupacks_for e x) r
  unfolding run
  duplicates k j a [] w len sum all = absurd (omega (arith, len))
  duplicates k zero a ((now, p) ∷ []) w len sum all =
      let (r, eq, resent) = step_acts e s x ready plain p k a all.0 w now (omega (arith, sum)) in
      (
        (r.0, r.1 ++ []),
        ap (λ o. go_on o (λ b. run e b [])) eq,
        let whole = ap (map (λ (g : Segment). g.seqno)) (append-nil r.1) in
            record {
              again = whole ∙ resent.again;
              fast = resent.fast;
              recover = resent.recover;
              pipe =
                  resent.pipe ∙ ap (λ n. s.maxseq -ℤ s.highest_ack -ℤ pos n) (omega (arith, sum));
              highest = resent.highest;
            },
      )
  duplicates k zero a (x1 ∷ (x2 ∷ acks)) w len sum all = absurd (omega (arith, len))
  duplicates k (suc j) a (x1 ∷ []) w len sum all = absurd (omega (arith, len))
  duplicates k (suc j) a ((now, p) ∷ (x2 ∷ acks)) w len sum all =
      let m = more e s x ready plain p k a all.0 w in
      let (r, eq', resent) =
        duplicates (k + 1) j m (x2 ∷ acks) (more-is e s x ready plain p k a all.0 w)
          (omega (arith, len)) (omega (arith, sum)) all.1 in
      (
        r,
        ap (λ o. go_on o (λ b. run e b (acks_of (x2 ∷ acks))))
              (step_counts e s x ready plain p k a all.0 w now (omega (arith, sum)))
            ∙ ap (and_then []) eq',
        resent,
      )

-- Let every acknowledgement bring news to the scoreboard, with singledup_ and oldCode_ off; let
-- the sender be outside of fast recovery and of F-RTO, with highest_ack_ above recover_,
-- last_ack_ + 1 above 0, no timeout_, no duplicate counted, and numdupacks(cwnd_) above 0. When
-- numdupacks(cwnd_) duplicates of last_ack_ come, none with ECN-Echo or from an earlier
-- connection, then exactly one segment is sent, last_ack_ + 1; the sender is in fast recovery
-- with recover_ = maxseq_ and pipe_ = maxseq_ - highest_ack_ - numdupacks(cwnd_), and
-- highest_ack_ stays.
pub run-Resent :
    {R B : Type 0} (e : Setup R B) (a : Sack1 R B) (acks : List (ℕ × Packet))
    → Plain e
    → Ready a.sender
    → a.timeout ≡ false
    → a.sender.dupacks ≡ 0
    → 0 < dupacks_for e a.cut.cwnd
    → length acks ≡ dupacks_for e a.cut.cwnd
    → AllDuplicates e a.sender acks
    → (r : Sack1 R B × List Segment) × (run e a (acks_of acks) ≡ some r)
      × Resent a.sender (dupacks_for e a.cut.cwnd) r
run-Resent e a acks plain ready calm none_yet some_needed len all =
    let n = dupacks_for e a.cut.cwnd in
    let count : ℕ → Sender = λ k. record a.sender { dupacks = k } in
    duplicates e a.sender a.cut.cwnd ready plain 0 (n - 1) a acks
      (record { sender = ap count none_yet; window = refl; calm = calm })
      (omega (arith, len, some_needed)) (omega (arith, some_needed)) all
