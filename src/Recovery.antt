-- ===== src/Recovery.antt =====
-- The state of `class Sack1TcpAgent` (tcp/tcp-sack1.cc) when acknowledgements and timers come to
-- it, over the parts that other modules model: Sender, Cwnd, Rto and Dctcp, with the calls of
-- their operations. Quick-Start and `QOption_` are off,
-- the scoreboard and the arithmetic of `double` are arguments, `wnd_` is a whole number, and
-- `none` is the end of the program by `abort`.
pub mod Newack
pub mod Loss
pub mod Recv
pub mod Timeout
pub mod Calm
pub mod Receipt
pub mod Sound
pub mod Duplicate
pub mod Noted
pub mod Normal
pub mod Partial
pub mod Resend
pub mod Events
pub mod FastRetransmit
pub mod Restart
mod Tests
use saps_extended.Base.{
  ℕ, ◌*◌, ◌+◌, ◌-◌, ◌==◌, List, [], ◌∷◌, ◌++◌, Bool, true, false, not, ◌&&◌, ◌||◌, Option, none,
  some, ltb, if◌then◌else◌,
}
use saps_extended.Base.Int.{ℤ, pos, ◌+ℤ◌, ◌-ℤ◌, ltb_ℤ, leb_ℤ, eqb_ℤ, pos_part}
use saps_extended.SackStack.{Block}
use saps_extended.Packet.{Packet, is_set}
use saps_extended.Red.{Double}
use saps_extended.Rto.{rtt_timeout, Timing, Rto, Rtx, rtt_update, newtimer, reset_rtx_timer}
use saps_extended.Cwnd.{Settings, Cwnd, How, slowdown}
use saps_extended.Cwnd.Growth.{GrowSettings, Growth, opencwnd}
use saps_extended.Dctcp.{Counts}
use saps_extended.Sender.{
  Resched, set_rtx, rtx_long, set_fl_bndr, Sender, Segment, window, network_limited,
}
use saps_extended.Sender.Sack.{Board, sack_send_much}

-- What the sender uses of `scb_`: `UpdateScoreBoard`, `CheckUpdate`, `IsChanged`, `GetNextUnacked`
-- and `ClearScoreBoard` beside the operations of `Board`.
pub record Scoreboard (B : Type 0) : Type 0 where
  pub board : Board B
  pub update : ℤ → ℕ → List Block → B → B
  pub check_update : B → Bool
  pub is_changed : B → Bool
  pub next_unacked : ℤ → B → ℤ
  pub clear : B → B

-- The arithmetic, the scoreboard, and the members that are bound from Tcl, of which `sender` keeps
-- those that sending reads; `second` is the number of units of time in a second, `fuel` is for the
-- rounds of `send_much`.
pub record Setup (R B : Type 0) : Type 0 where
  pub double : Double R
  pub log : R → R
  pub exp : R → R
  pub scb : Scoreboard B
  pub cwnd : Settings R
  pub grow : GrowSettings R
  pub timing : Timing
  pub wnd_th : R
  pub dctcp_g : R
  pub flow_bender : Bool
  pub flow_bender_t : R
  pub flow_bender_n : ℕ
  pub numdupacks : ℕ
  pub numdupacks_frac : ℕ
  pub maxburst : ℕ
  pub lastreset : ℕ
  pub spurious_response : ℕ
  pub timerfix : Bool
  pub ts_reset_rto : Bool
  pub old_ecn : Bool
  pub control_increase : Bool
  pub delay_growth : Bool
  pub bug_fix : Bool
  pub bugfix_ss : Bool
  pub restart_bugfix : Bool
  pub slow_start_restart : Bool
  pub singledup : Bool
  pub lim_transmit_fix : Bool
  pub old_code : Bool
  pub partial_ack : Bool
  pub aggressive_maxburst : Bool
  pub frto_enabled : Bool
  pub sfrto_enabled : Bool
  pub second : ℕ
  pub fuel : ℕ

-- The agent. `sender` keeps the integer part of `cwnd_`; `rtx_delay` is what the retransmission
-- timer was set to, `fl_bndr` the same of FlowBender's timer.
pub record Sack1 (R B : Type 0) : Type 0 where
  pub sender : Sender
  pub cut : Cwnd R
  pub growth : Growth R
  pub counts : Counts R
  pub board : B
  pub timeout : Bool
  pub firstpartial : Bool
  pub next_pkt : ℤ
  pub nackpack : ℕ
  pub nrexmit : ℕ
  pub pipe_prev : ℕ
  pub wnd_init : R
  pub wnd_init_option : ℕ
  pub ect : Bool
  pub ecn_burst : Bool
  pub dup_case1_count : ℕ
  pub dup_case2_count : ℕ
  pub ts_echo : ℕ
  pub rtx_delay : ℕ
  pub fl_bndr : Option ℕ

abbrev pub is_some : Option ℕ → Bool
is_some none = false
is_some (some n) = true

abbrev pub or_zero : Option ℕ → ℕ
or_zero none = 0
or_zero (some n) = n

abbrev pub ecnecho : Packet → Bool
ecnecho p = is_set p.flags.ecn

module _ {R B : Type 0} (e : Setup R B) where
  -- The members that the code of Cwnd uses, and back.
  abbrev pub cut_of : Sack1 R B → Cwnd R
  cut_of a = record a.cut {
    recover = a.sender.recover;
    maxseq = a.sender.maxseq;
    cong_action = a.sender.cong_action;
  }

  abbrev pub put_cut : Sack1 R B → Cwnd R → Sack1 R B
  put_cut a k = record a {
    cut = k;
    sender = record a.sender {
      cwnd = e.double.trunc k.cwnd;
      recover = k.recover;
      cong_action = k.cong_action;
    };
  }

  abbrev pub settings : Sack1 R B → Settings R
  settings a = record e.cwnd { wnd_init = a.wnd_init }

  abbrev pub set_cwnd : R → Sack1 R B → Sack1 R B
  set_cwnd x a = put_cut a (record (cut_of a) { cwnd = x })

  -- A call of `slowdown`.
  unfoldable pub slow : How → Sack1 R B → Sack1 R B
  slow how a =
      put_cut a (slowdown e.double e.log (settings a) (pos_part (window a.sender)) how (cut_of a))

  -- The members that the code of Rto uses, and back.
  abbrev pub rtx_of : Sack1 R B → Rtx e.timing
  rtx_of a = record {
    rto = a.cut.rto;
    t_seqno = a.sender.t_seqno;
    highest_ack = a.sender.highest_ack;
    maxseq = a.sender.maxseq;
    rtt_active = a.sender.rtt_active;
    timer = if a.sender.rtx_pending then some a.rtx_delay else none;
  }

  abbrev pub put_rtx : ℕ → Sack1 R B → Rtx e.timing → Sack1 R B
  put_rtx now a x = record a {
    cut = record a.cut { rto = x.rto };
    rtx_delay = or_zero x.timer;
    sender = record a.sender {
      t_seqno = x.t_seqno;
      rtt_active = x.rtt_active;
      rtx_pending = is_some x.timer;
      rtx_from = now;
    };
  }

  -- Calls of `newtimer` and of `reset_rtx_timer`.
  unfoldable pub new_timer : ℕ → ℤ → Sack1 R B → Sack1 R B
  new_timer now seqno a =
      put_rtx now a (newtimer e.timing (rtx_of a) seqno (e.double.lt a.cut.cwnd (e.double.num 1 1)))

  unfoldable pub reset_timer : ℕ → Bool → Bool → Sack1 R B → Sack1 R B
  reset_timer now mild backoff a = put_rtx now a (reset_rtx_timer e.timing (rtx_of a) mild backoff)

  -- The estimate, the delay of the retransmission timer and that of FlowBender's, after a call of
  -- `resched`.
  abbrev pub resched : Rto × ℕ × Option ℕ → Resched → Rto × ℕ × Option ℕ
  resched (rto, delay, bender) set_rtx =
      let (rto', d) = rtt_timeout e.timing rto in (rto', d, bender)
  resched (rto, delay, bender) rtx_long = (rto, 10000 * e.second, bender)
  resched (rto, delay, bender) set_fl_bndr =
      let (rto', d) = rtt_timeout e.timing rto in (rto', delay, some d)

  pub resched_all : Rto × ℕ × Option ℕ → List Resched → Rto × ℕ × Option ℕ
  resched_all t [] = t
  resched_all t (r ∷ rest) = resched_all (resched t r) rest

  -- What has been sent, with the timers that it has set.
  abbrev pub put_sender : Sack1 R B → Sender × List Segment → Sack1 R B × List Segment
  put_sender a (s, out) =
      let t = resched_all (a.cut.rto, a.rtx_delay, a.fl_bndr) s.rescheds in
      (
        record a {
          sender = record s { rescheds = [] };
          cut = record a.cut { rto = t.0 };
          rtx_delay = t.1;
          fl_bndr = t.2;
        },
        out,
      )

  -- `send_much`, which is virtual.
  unfoldable pub much : ℕ → Bool → ℕ → Sack1 R B → Sack1 R B × List Segment
  much now force reason a =
      let (s, b, out) =
        sack_send_much e.scb.board e.fuel now force reason e.maxburst a.sender a.board in
      put_sender (record a { board = b }) (s, out)
