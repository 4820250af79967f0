-- ===== src/Recovery/Restart.antt =====
-- When the retransmission timer runs out, sending starts again after the last acknowledged segment.
pub mod Resets
use saps_extended.Base.{
  ℕ, zero, suc, ◌+◌, ◌≤◌, ◌<◌, ◌≡◌, ◌≢◌, refl, ap, sym, subst, ◌∙◌, List, Bool, true, false, not,
  ◌&&◌, ◌||◌, Option, none, some, arith, Bool-cases, inl, inr, ltb, if◌then◌else◌,
}
use saps_extended.Base.Int.{
  ℤ, pos, negsuc, pos_part, ◌+ℤ◌, ◌≤ℤ◌, ltb_ℤ, eqb_ℤ, +ℤ_parts, eq_of_parts,
}
use saps_extended.Rto.Timeout.{reset_rtx_timer-t_seqno}
use saps_extended.Cwnd.{How, nothing, timed_out}
use saps_extended.Cwnd.Cuts.{slowdown-IsFloored}
use saps_extended.Red.{Double}
use saps_extended.Sender.{Sender, Segment, window}
use saps_extended.Sender.Sack.{sack_send_much}
use saps_extended.Sender.Window.{IsData}
use saps_extended.Sender.First.{CanSend, StartsWith, sack_send_much-first}
use saps_extended.Recovery.Calm.{much-Calm}
use saps_extended.Recovery.{
  Setup, Sack1, settings, cut_of, rtx_of, is_some, set_cwnd, slow, reset_timer, much,
}
use saps_extended.Recovery.Loss.{set_recover, set_action, is_ecn}
use saps_extended.Recovery.Timeout.{
  rtx, set_frto, leave_recovery, restart_fl_bndr, outstanding, lower_init, may_frto, cut_at_timeout,
  before_resend, tcp_timeout, sack_timeout, no_frto, timeout,
}
use saps_extended.Recovery.Restart.Resets.{
  CountsOne, Facts, Ready, before_resend-Ready, leave_recovery-is,
}

-- What is outstanding may be sent: the windows are open, and nothing delays a segment.
pub record CanResend {R B : Type 0} (e : Setup R B) (a : Sack1 R B) : Type 0 where
  pub ordered : a.sender.last_ack ≤ℤ a.sender.highest_ack
  pub out : ltb_ℤ a.sender.highest_ack a.sender.maxseq ≡ true
  pub data_there : ltb_ℤ a.sender.maxseq a.sender.curseq ≡ true
  pub no_wait : a.sender.delsnd ≡ false
  pub no_overhead : a.sender.overhead ≡ false
  pub receiver : 1 ≤ a.sender.wnd
  pub opened : IsData (a.sender.highest_ack +ℤ pos 1)
  pub cleared : e.scb.board.next_retran (e.scb.clear a.board) ≡ negsuc 0
  pub some_fuel : 0 < e.fuel

-- What is acknowledged stays, fast recovery is over, and sending starts again.
pub record Restarted {R B : Type 0} (a : Sack1 R B) (r : Sack1 R B × List Segment) : Type 0 where
  pub first : StartsWith (a.sender.highest_ack +ℤ pos 1) r.1
  pub highest : r.0.sender.highest_ack ≡ a.sender.highest_ack
  pub last : r.0.sender.last_ack ≡ a.sender.highest_ack
  pub slow : r.0.sender.fastrecov ≡ false

module _ {R B : Type 0} (e : Setup R B) (law : CountsOne e.double) where
  -- The larger one of the two.
  top : Sack1 R B → ℤ
  top a =
      if ltb_ℤ a.sender.last_ack a.sender.highest_ack
      then a.sender.highest_ack
      else a.sender.last_ack

  top-is :
      (a : Sack1 R B) → a.sender.last_ack ≤ℤ a.sender.highest_ack → top a ≡ a.sender.highest_ack
  unfolding top
  top-is a ordered =
      let s = a.sender in
      elim (Bool-cases (ltb_ℤ s.last_ack s.highest_ack)) [
        | inl below ↦ simp (below)
        | inr same ↦ simp (same) (eq_of_parts s.last_ack s.highest_ack (ground (arith, same)))
      ]

  module _ (now : ℕ) (a : Sack1 R B) (can : CanResend e a) where
    left : Sack1 R B
    left = leave_recovery e a

    again : Sack1 R B
    again = before_resend e now left

    ready : Ready e law (record left.sender { frto = 0 }) left.board again
    unfolding again left
    ready =
        let (sender, board) = leave_recovery-is e law a in
        let some_out : outstanding e a ≡ true = ground (arith, can.out) in
        before_resend-Ready e law now left
          (ap (λ t. not (eqb_ℤ t.highest_ack t.maxseq)) sender ∙ some_out)

    next-is : again.sender.t_seqno ≡ a.sender.highest_ack +ℤ pos 1
    unfolding left
    next-is =
        let (sender, board) = leave_recovery-is e law a in
        ready.next ∙ ap (λ t. t.highest_ack +ℤ pos 1) sender

    highest-is : again.sender.highest_ack ≡ a.sender.highest_ack
    unfolding left
    highest-is =
        let (sender, board) = leave_recovery-is e law a in
        ready.facts.highest ∙ ap (λ t. t.highest_ack) sender

    last-is : again.sender.last_ack ≡ a.sender.highest_ack
    unfolding left top
    last-is =
        let (sender, board) = leave_recovery-is e law a in
        ready.facts.last ∙ (ap (λ t. t.last_ack) sender ∙ top-is a can.ordered)

    slow-is : again.sender.fastrecov ≡ false
    unfolding left
    slow-is =
        let (sender, board) = leave_recovery-is e law a in
        ready.facts.fast ∙ ap (λ t. t.fastrecov) sender

    can_send : CanSend e.scb.board again.sender again.board
    unfolding left
    can_send =
        let (sender, board) = leave_recovery-is e law a in
        let f = ready.facts in
        let there : ltb_ℤ (a.sender.highest_ack +ℤ pos 1) a.sender.curseq ≡ true =
          ground (arith, can.out, can.data_there, +ℤ_parts a.sender.highest_ack (pos 1)) in
        record {
          slow = slow-is;
          no_wait = f.delsnd ∙ (ap (λ t. t.delsnd) sender ∙ can.no_wait);
          no_overhead = f.overhead ∙ (ap (λ t. t.overhead) sender ∙ can.no_overhead);
          small = f.small refl;
          window = f.big;
          receiver = subst (λ n. 1 ≤ n) (sym (f.wnd ∙ ap (λ t. t.wnd) sender)) can.receiver;
          next = next-is ∙ ap (λ x. x +ℤ pos 1) (sym highest-is);
          last = last-is ∙ sym highest-is;
          to_send =
              ap (λ x. ltb_ℤ x again.sender.curseq) next-is
              ∙ (ap (λ y. ltb_ℤ (a.sender.highest_ack +ℤ pos 1) y)
                    (f.curseq ∙ ap (λ t. t.curseq) sender)
                  ∙ there);
          none_lost = ap e.scb.board.next_retran (f.board ∙ board) ∙ can.cleared;
          opened = subst (λ x. IsData x) (sym next-is) can.opened;
        }

    with_fuel :
        (fuel : ℕ)
        → 0 < fuel
        → StartsWith again.sender.t_seqno
            (sack_send_much e.scb.board fuel now false 1 e.maxburst again.sender again.board).2
    with_fuel zero h = elim h [ ]
    with_fuel (suc n) h =
        sack_send_much-first e.scb.board again.sender again.board can_send now 1 e.maxburst n

    resend : Sack1 R B × List Segment
    resend = much e now false 1 again

    resend-Restarted : Restarted a resend
    unfolding resend much
    resend-Restarted =
        let s = (much-Calm e now false 1 again).sender in
        record {
          first = subst (λ x. StartsWith x resend.1) next-is (with_fuel e.fuel can.some_fuel);
          highest = s.highest ∙ highest-is;
          last = s.last ∙ last-is;
          slow = s.fast ∙ slow-is;
        }

  no_frto-first :
      (b : Bool) (a : Sack1 R B) (r : Sack1 R B × List Segment)
      → Restarted a r
      → Restarted a (no_frto e b r)
  no_frto-first true a (b, out) h = record {
    first = h.first;
    highest = h.highest;
    last = h.last;
    slow = h.slow;
  }
  no_frto-first false a (b, out) h = h

-- Let the arithmetic not find 1 less than 1, and truncate what is not less than 1 to at least 1.
-- When the retransmission timer runs out with segments outstanding and more data there, last_ack_
-- not above highest_ack_, highest_ack_ + 1 above 0, a receiver's window of at least 1, no send
-- timer pending, no overhead_, some fuel, and a cleared scoreboard with nothing to resend: the
-- first segment sent is highest_ack_ + 1, highest_ack_ stays, last_ack_ is equal to it, and fast
-- recovery is over.
pub timeout-Restarted :
    {R B : Type 0} (e : Setup R B) (now : ℕ) (a : Sack1 R B)
    → CountsOne e.double
    → CanResend e a
    → Restarted a (timeout e now rtx a)
unfolding timeout tcp_timeout sack_timeout resend again left
timeout-Restarted e now a law can =
    no_frto-first e law a.sender.fastrecov a (resend e law now a can)
      (resend-Restarted e law now a can)
