-- ===== src/Recovery/Timeout.antt =====
-- `timeout` of `class Sack1TcpAgent` (tcp/tcp-sack1.cc) and of `class TcpAgent` (tcp/tcp.cc), for
-- the timers that the models have, and what comes to the sender as a sequence of events.
use saps_extended.Base.{
  ℕ, ◌+◌, ◌==◌, List, [], Bool, true, false, not, ◌&&◌, ◌||◌, Option, none, some, ltb,
  if◌then◌else◌,
}
use saps_extended.Base.Int.{negsuc, ltb_ℤ, eqb_ℤ, pos_part}
use saps_extended.Packet.{Packet}
use saps_extended.Rto.{rtt_timeout}
use saps_extended.Cwnd.{nothing, timed_out}
use saps_extended.Dctcp.{check_congestion, bend_at_timeout}
use saps_extended.Sender.{Segment, window}
use saps_extended.Recovery.{Setup, Sack1, set_cwnd, slow, reset_timer, much}
use saps_extended.Recovery.Loss.{set_recover, set_action, is_ecn}
use saps_extended.Recovery.Recv.{recv, doubles}

-- TCP_TIMER_RTX, TCP_TIMER_DELSND and TCP_FB_TIMER
pub data Timer : Type 0 where
  rtx delsnd fb : Timer

module _ {R B : Type 0} (e : Setup R B) where
  abbrev pub set_frto : ℕ → Sack1 R B → Sack1 R B
  set_frto frto a = record a { sender = record a.sender { frto = frto } }

  -- fl_bndr_timer.resched(rtt_timeout());
  unfoldable pub restart_fl_bndr : Sack1 R B → Sack1 R B
  restart_fl_bndr a =
      let (rto, delay) = rtt_timeout e.timing a.cut.rto in
      record a { cut = record a.cut { rto = rto }; fl_bndr = some delay }

  -- What `Sack1TcpAgent::timeout` does first for the retransmission timer.
  unfoldable pub leave_recovery : Sack1 R B → Sack1 R B
  leave_recovery a =
      let s = a.sender in
      let counted = record a {
        counts = record a.counts { update_seq = s.t_seqno; maxseq = s.t_seqno };
        sender = record s { dctcp_maxseq = s.t_seqno };
      } in
      let bent =
        (if e.flow_bender
          then restart_fl_bndr
              (record counted { counts = bend_at_timeout (doubles e) counted.counts })
          else counted) in
      record bent {
        timeout = true;
        board = e.scb.clear bent.board;
        sender = record bent.sender {
          dupacks = 0;
          fastrecov = false;
          last_ack = if ltb_ℤ s.last_ack s.highest_ack then s.highest_ack else s.last_ack;
          recover = s.maxseq;
        };
      }

  abbrev pub outstanding : Sack1 R B → Bool
  outstanding a = not (eqb_ℤ a.sender.highest_ack a.sender.maxseq)

  -- The first packet was lost: no larger initial window.
  unfoldable pub lower_init : Sack1 R B → Sack1 R B
  lower_init a =
      if eqb_ℤ a.sender.highest_ack (negsuc 0)
      then if a.wnd_init_option == 2
        then record a { wnd_init_option = 1 }
        else if (a.wnd_init_option == 1) && e.double.lt (e.double.num 1 1) a.wnd_init && e.bugfix_ss
        then record a { wnd_init = e.double.num 1 1 }
        else a
      else a

  abbrev pub may_frto : Sack1 R B → Sack1 R B
  may_frto a = if e.frto_enabled || e.sfrto_enabled then set_frto 1 a else a

  -- The cut of the window, by what is outstanding and by the last cut.
  unfoldable pub cut_at_timeout : Sack1 R B → Sack1 R B
  cut_at_timeout a =
      let one = record nothing { close_cwnd_one = true } in
      if not (outstanding a) && e.restart_bugfix
      then slow e (record one { no_outstanding_data = true }) a
      else if ltb_ℤ a.sender.highest_ack a.sender.recover && is_ecn a.cut.last_action
      then may_frto (slow e one a)
      else may_frto (
          slow e (record nothing { close_ssthresh_half = true; close_cwnd_restart = true })
            (set_action timed_out (record a { nrexmit = a.nrexmit + 1 })))

  -- The state in which `TcpAgent::timeout` sends again.
  unfoldable pub before_resend : ℕ → Sack1 R B → Sack1 R B
  before_resend now a =
      let d = e.double in
      let zero_frto = set_frto 0 a in
      let win = pos_part (window zero_frto.sender) in
      let kept = record zero_frto {
        pipe_prev = if ltb a.cut.ssthresh win then win else a.cut.ssthresh;
      } in
      let one = (if d.lt kept.cut.cwnd (d.num 1 1) then set_cwnd e (d.num 1 1) kept else kept) in
      let cut =
        (if not (outstanding one) && not e.slow_start_restart
          then one
          else cut_at_timeout (lower_init (set_recover one.sender.maxseq one))) in
      set_action timed_out (reset_timer e now false (outstanding cut || not e.restart_bugfix) cut)

  -- `TcpAgent::timeout`
  unfoldable pub tcp_timeout : ℕ → Timer → Sack1 R B → Sack1 R B × List Segment
  tcp_timeout now rtx a = much e now false 1 (before_resend now a)
  tcp_timeout now delsnd a = much e now true 1 a
  tcp_timeout now fb a = (a, [])

  -- `Sack1TcpAgent::timeout`, before it calls that of `TcpAgent`.
  unfoldable pub sack_timeout : Timer → Sack1 R B → Sack1 R B
  sack_timeout rtx a = leave_recovery a
  sack_timeout delsnd a = a
  sack_timeout fb a =
      restart_fl_bndr (record a {
        counts = check_congestion (doubles e) e.flow_bender_t e.flow_bender_n a.counts;
      })

  abbrev pub no_frto : Bool → Sack1 R B × List Segment → Sack1 R B × List Segment
  no_frto true (a, out) = (set_frto 0 a, out)
  no_frto false (a, out) = (a, out)

  -- `Sack1TcpAgent::timeout`
  unfoldable pub timeout : ℕ → Timer → Sack1 R B → Sack1 R B × List Segment
  timeout now t a = no_frto a.sender.fastrecov (tcp_timeout now t (sack_timeout t a))

-- A timer that has run out is no longer pending.
abbrev pub run_out : {R B : Type 0} → Timer → Sack1 R B → Sack1 R B
run_out rtx a = record a { sender = record a.sender { rtx_pending = false } }
run_out delsnd a = record a { sender = record a.sender { delsnd = false } }
run_out fb a = record a { fl_bndr = none }

-- An acknowledgement comes, or a timer runs out.
pub data Event : Type 0 where
  acked : ℕ → Packet → Event
  expired : ℕ → Timer → Event

abbrev pub step : {R B : Type 0} → Setup R B → Sack1 R B → Event → Option (Sack1 R B × List Segment)
step e a (acked now p) = recv e now p a
step e a (expired now t) = some (timeout e now t (run_out t a))
