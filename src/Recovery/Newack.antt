-- ===== src/Recovery/Newack.antt =====
-- `newack`, `spurious_timeout` and `recv_newack_helper` of `class TcpAgent` (tcp/tcp.cc): what a
-- new acknowledgement does.
use saps_extended.Base.{
  ℕ, ◌-◌, ◌==◌, Bool, true, false, not, ◌&&◌, ◌||◌, Option, none, some, if◌then◌else◌,
}
use saps_extended.Base.Int.{ℤ, pos, ◌+ℤ◌, ◌-ℤ◌, ltb_ℤ, leb_ℤ, eqb_ℤ, pos_part}
use saps_extended.Packet.{Packet, is_set}
use saps_extended.Rto.{rtt_update}
use saps_extended.Cwnd.{Cwnd}
use saps_extended.Cwnd.Growth.{Growth, opencwnd}
use saps_extended.Sender.{network_limited}
use saps_extended.Recovery.{Setup, Sack1, ecnecho, cut_of, put_cut, settings, set_cwnd, new_timer}

module _ {R B : Type 0} (e : Setup R B) where
  -- t_backoff_ = 1;
  abbrev pub end_backoff : Sack1 R B → Sack1 R B
  end_backoff a = record a { cut = record a.cut { rto = record a.cut.rto { t_backoff = 1 } } }

  -- Not in ECN-Echo with a window of one packet, the back-off ends.
  abbrev pub may_end_backoff : Packet → Sack1 R B → Sack1 R B
  may_end_backoff p a =
      if not a.ect || (not a.cut.ecn_backoff || not (ecnecho p))
      then record a {
        cut = record a.cut { ecn_backoff = false; rto = record a.cut.rto { t_backoff = 1 } };
      }
      else a

  abbrev pub update_rtt : ℕ → ℕ → Sack1 R B → Sack1 R B
  update_rtt now from a = record a {
    cut = record a.cut { rto = rtt_update e.timing a.cut.rto now (now - from) };
  }

  -- What `newack` does with the time stamp, and then with the segment that is timed.
  unfoldable pub take_stamp : ℕ → Packet → Sack1 R B → Sack1 R B
  take_stamp now p a =
      if e.timing.ts_option
      then (let timed = update_rtt now p.tcp.ts_echo (record a { ts_echo = p.tcp.ts_echo }) in
          if e.ts_reset_rto then may_end_backoff p timed else timed)
      else a

  unfoldable pub take_timed : ℕ → Packet → Sack1 R B → Sack1 R B
  take_timed now p a =
      if a.sender.rtt_active && leb_ℤ a.sender.rtt_seq p.tcp.seqno
      then (let ended = may_end_backoff p a in
          let idle = record ended { sender = record ended.sender { rtt_active = false } } in
          if e.timing.ts_option then idle else update_rtt now a.sender.rtt_ts idle)
      else a

  -- What is acknowledged moves to `seqno`.
  unfoldable pub advance : ℤ → Sack1 R B → Sack1 R B
  advance seqno a =
      let next = seqno +ℤ pos 1 in
      record a {
        sender = record a.sender {
          dupacks = 0;
          last_ack = seqno;
          prev_highest_ack = a.sender.highest_ack;
          highest_ack = seqno;
          t_seqno = if ltb_ℤ a.sender.t_seqno next then next else a.sender.t_seqno;
        };
      }

  -- `awnd_`
  unfoldable pub average_window : Sack1 R B → Sack1 R B
  average_window a =
      let d = e.double in
      record a {
        growth = record a.growth {
          awnd =
              d.add (d.mul a.growth.awnd (d.sub (d.num 1 1) e.wnd_th)) (d.mul e.wnd_th a.cut.cwnd);
        };
      }

  -- `newack`
  unfoldable pub newack : ℕ → Packet → Sack1 R B → Sack1 R B
  unfolding new_timer take_stamp take_timed advance average_window
  newack now p a =
      let moved = advance p.tcp.seqno (if e.timerfix then a else new_timer e now p.tcp.seqno a) in
      let timed =
        (if is_set p.flags.no_ts then moved else take_timed now p (take_stamp now p moved)) in
      average_window (if e.timerfix then new_timer e now p.tcp.seqno timed else timed)

  -- `spurious_timeout`; `t_seqno_` is above `prev_highest_ack_` here.
  unfoldable pub spurious_timeout : Sack1 R B → Sack1 R B
  spurious_timeout a =
      let d = e.double in
      let back =
        set_cwnd e
          (if e.spurious_response == 2
            then d.of_int a.cut.ssthresh
            else if e.spurious_response == 3
            then d.num 1 1
            else d.of_int (pos_part (a.sender.t_seqno -ℤ a.sender.prev_highest_ack)))
          a in
      record back {
        cut = record back.cut { ssthresh = a.pipe_prev };
        sender = record back.sender { frto = 0; recover = a.sender.highest_ack -ℤ pos 1 };
      }

  -- A call of `opencwnd`.
  abbrev pub put_open : Sack1 R B → Option (Cwnd R × Growth R) → Option (Sack1 R B)
  put_open a none = none
  put_open a (some (k, w)) = some (record (put_cut e a k) { growth = w })

  unfoldable pub open_window : Sack1 R B → Option (Sack1 R B)
  open_window a =
      put_open a (opencwnd e.double e.log e.exp (settings e a) e.grow (cut_of e a) a.growth)

  -- `ecn_backoff_`, `ecn_burst_` and `ect_` after a new acknowledgement.
  unfoldable pub note_echo : Packet → Sack1 R B → Sack1 R B
  note_echo p a =
      if a.ect
      then record a {
        cut = record a.cut { ecn_backoff = ecnecho p && a.cut.ecn_backoff };
        ecn_burst = ecnecho p;
      }
      else record a { ect = ecnecho p && not (is_set p.flags.cong_action) }

  -- The connection is done: `closed_`, with the call of the Tcl procedure `done`.
  unfoldable pub close : Sack1 R B → Sack1 R B
  close a =
      if leb_ℤ (a.sender.curseq -ℤ pos 1) a.sender.highest_ack
      then record a { sender = record a.sender { closed = true } }
      else a

  -- F-RTO at a new acknowledgement.
  unfoldable pub frto_step : Sack1 R B → Sack1 R B
  unfolding spurious_timeout
  frto_step a =
      let s = a.sender in
      let next = s.recover +ℤ pos 1 in
      if s.frto == 1
      then if leb_ℤ (s.highest_ack +ℤ pos s.wnd) next
          || leb_ℤ s.curseq next
          || eqb_ℤ s.highest_ack s.recover
        then record a { sender = record s { frto = 0 } }
        else record a { sender = record s { t_seqno = next; frto = 2 } }
      else if s.frto == 2
      then spurious_timeout a
      else a

  -- The window may be opened.
  abbrev pub may_open : Packet → Sack1 R B → Bool
  may_open p a =
      (not a.ect || (not (ecnecho p) || (e.old_ecn && a.ecn_burst)))
      && (not e.control_increase || network_limited a.sender)

  abbrev pub after_open : Packet → Option (Sack1 R B) → Option (Sack1 R B)
  after_open p none = none
  after_open p (some a) = some (frto_step (close (note_echo p a)))

  -- `recv_newack_helper`
  unfoldable pub recv_newack_helper : ℕ → Packet → Sack1 R B → Option (Sack1 R B)
  unfolding open_window
  recv_newack_helper now p a =
      let acked = newack now p a in
      after_open p (if may_open p acked then open_window acked else some acked)
