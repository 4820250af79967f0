-- ===== src/Recovery/Loss.antt =====
-- `dupack_action` and `partial_ack_action` of `class Sack1TcpAgent` (tcp/tcp-sack1.cc), with
-- `numdupacks` of tcp/tcp.cc. Each gives the segments that it sends, in order.
use saps_extended.Base.{
  ℕ, ◌/◌, List, [], ◌++◌, Bool, true, false, not, ◌&&◌, ◌||◌, ltb, if◌then◌else◌,
}
use saps_extended.Base.Int.{ℤ, pos, ◌+ℤ◌, ◌-ℤ◌, ltb_ℤ, eqb_ℤ}
use saps_extended.Cwnd.{How, nothing, Action, initial, dupack, timed_out, ecn_bit, exited}
use saps_extended.Sender.{Segment, output}
use saps_extended.Recovery.{Setup, Sack1, put_sender, slow, reset_timer}

-- What is sent first, and what then.
abbrev pub after :
    {R B : Type 0} → List Segment → Sack1 R B × List Segment → Sack1 R B × List Segment
after out (a, more) = (a, out ++ more)

-- last_cwnd_action_ == CWND_ACTION_ECN
abbrev pub is_ecn : Action → Bool
is_ecn ecn_bit = true
is_ecn initial = false
is_ecn dupack = false
is_ecn timed_out = false
is_ecn exited = false

-- CLOSE_SSTHRESH_HALF|CLOSE_CWND_HALF
abbrev pub halves : How
halves = record nothing { close_ssthresh_half = true; close_cwnd_half = true }

abbrev pub set_pipe : {R B : Type 0} → ℤ → Sack1 R B → Sack1 R B
set_pipe pipe a = record a { sender = record a.sender { pipe = pipe } }

abbrev pub set_action : {R B : Type 0} → Action → Sack1 R B → Sack1 R B
set_action action a = record a { cut = record a.cut { last_action = action } }

abbrev pub set_recover : {R B : Type 0} → ℤ → Sack1 R B → Sack1 R B
set_recover recover a = record a { sender = record a.sender { recover = recover } }

module _ {R B : Type 0} (e : Setup R B) where
  -- `numdupacks`
  abbrev pub num_dupacks : Sack1 R B → ℕ
  num_dupacks a =
      let part = e.double.trunc a.cut.cwnd / e.numdupacks_frac in
      if ltb part e.numdupacks then e.numdupacks else part

  -- `pipe_`, when a loss is seen.
  abbrev pub flight : Sack1 R B → ℤ
  flight a =
      let out = a.sender.maxseq -ℤ a.sender.highest_ack in
      if e.singledup && e.lim_transmit_fix then out -ℤ pos 1 else out -ℤ pos (num_dupacks a)

  -- fastrecov_ = TRUE; scb_->MarkRetran(highest_ack_+1);
  abbrev pub set_fastrecov : Sack1 R B → Sack1 R B
  set_fastrecov a = record a {
    sender = record a.sender { fastrecov = true };
    board = e.scb.board.mark_retran (a.sender.highest_ack +ℤ pos 1) a.board;
  }

  -- output(last_ack_ + 1, TCP_REASON_DUPACK)
  unfoldable pub retransmit : ℕ → Sack1 R B → Sack1 R B × List Segment
  retransmit now a = put_sender e a (output now (a.sender.last_ack +ℤ pos 1) 2 a.sender)

  -- After an answer to ECN-Echo: its cut counts for this loss too, but for DCTCP.
  unfoldable pub recover_after_ecn : ℕ → Sack1 R B → Sack1 R B × List Segment
  recover_after_ecn now a =
      let acted = set_action dupack a in
      let slowed = (if e.cwnd.dctcp then slow e halves acted else acted) in
      let timed = reset_timer e now true false slowed in
      retransmit now (set_fastrecov (set_pipe (flight timed) timed))

  -- `sack_action`
  unfoldable pub sack_action : ℕ → Sack1 R B → Sack1 R B × List Segment
  sack_action now a =
      let pipe =
        (if e.old_code then pos (e.double.trunc a.cut.cwnd) -ℤ pos (num_dupacks a) else flight a) in
      let timed = reset_timer e now true false (set_pipe pipe (set_recover a.sender.maxseq a)) in
      retransmit now (slow e halves (set_action dupack (set_fastrecov timed)))

  -- `dupack_action`
  unfoldable pub dupack_action : ℕ → Sack1 R B → Sack1 R B × List Segment
  dupack_action now a =
      let s = a.sender in
      if ltb_ℤ s.recover s.highest_ack
        || (not e.bug_fix && not s.ecn)
        || (e.bugfix_ss && eqb_ℤ s.highest_ack (pos 0))
      then sack_action now a
      else if s.ecn && is_ecn a.cut.last_action
      then recover_after_ecn now a
      else if e.bug_fix
      then (a, [])
      else sack_action now a

  -- A round of `partial_ack_action`.
  unfoldable pub partial_round : ℕ → Sack1 R B → Sack1 R B × List Segment
  partial_round now a =
      let unacked = e.scb.next_unacked a.next_pkt a.board in
      let next = (if ltb_ℤ a.next_pkt unacked then unacked else a.next_pkt) in
      let s = record a.sender {
        t_seqno = if ltb_ℤ a.sender.t_seqno next then next else a.sender.t_seqno;
      } in
      let (a', out) = put_sender e a (output now next 4 s) in
      (record a' { next_pkt = next +ℤ pos 1; board = e.scb.board.mark_retran next a'.board }, out)

  -- `partial_ack_action`
  unfoldable pub partial_ack_action : ℕ → Sack1 R B → Sack1 R B × List Segment
  partial_ack_action now a =
      let next = a.sender.highest_ack +ℤ pos 1 in
      let (a1, out1) =
        partial_round now
          (record a { next_pkt = if ltb_ℤ a.next_pkt next then next else a.next_pkt }) in
      after out1 (partial_round now a1)
