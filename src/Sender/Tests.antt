-- ===== src/Sender/Tests.antt =====
-- A window of four segments, of which two are outstanding, and data up to 100.
use saps_extended.Base.{
  ℕ, zero, suc, ◌+◌, ◌<◌, ◌≡◌, ◌⊎◌, inl, inr, refl, List, [], ◌∷◌, map, Bool, true, false, not,
  ◌||◌, arith, if◌then◌else◌, ltb,
}
use saps_extended.Base.Int.{ℤ, pos, negsuc, pos_part, neg_part}
use saps_extended.Sender.{
  Sender, send_much, many, send_next, window, output, hand_over, note_new, flags_of,
}
use saps_extended.Sender.Sack.{Board, sack_send_much}
use saps_extended.Sender.Many.{Sent, seqnos, send_much-Sent}
use saps_extended.Sender.Pipe.{Filled, sack_send_much-Filled}

abbrev sender : Sender
sender = record {
  t_seqno = pos 12;
  highest_ack = pos 9;
  prev_highest_ack = pos 8;
  last_ack = pos 9;
  maxseq = pos 11;
  curseq = pos 100;
  recover = pos 0;
  pipe = pos 0;
  dctcp_maxseq = pos 11;
  rtt_seq = pos 10;
  rtt_ts = 50;
  cwnd = 4;
  wnd = 20;
  frto = 0;
  dupacks = 0;
  size = 1000;
  ndatapack = 12;
  ndatabytes = 12000;
  nrexmitpack = 0;
  nrexmitbytes = 0;
  syn_connects = 1;
  max_connects = 0;
  rtx_from = 50;
  rtx_pending = true;
  rtt_active = true;
  syn = true;
  ecn = true;
  dctcp = true;
  cong_action = false;
  cwr_on_retransmit = true;
  fastrecov = false;
  closed = false;
  delsnd = false;
  burstsnd = false;
  overhead = false;
  flow_bender = false;
  rescheds = [];
}

sends_two : seqnos (send_much 20 60 false 0 0 sender).1 ≡ pos 12 ∷ pos 13 ∷ []
unfolding send_much many send_next window output hand_over note_new flags_of
    saps_extended.Base.Int.◌+ℤ◌
sends_two = refl

send_much-Sent_example : (k : ℕ) × Sent 0 0 sender (send_much 100 60 false 0 0 sender) k
send_much-Sent_example =
    send_much-Sent 60 false 0 0 100 sender (omega arith) refl refl refl (omega arith)

-- In fast recovery with one segment in the pipe; the scoreboard gives 10, and then nothing.
abbrev board : Board Bool
board = record { next_retran = λ b. if b then pos 10 else negsuc 0; mark_retran = λ x b. false }

board-Answers : (b : Bool) → (board.next_retran b ≡ negsuc 0) ⊎ (0 < pos_part (board.next_retran b))
board-Answers true = inr (omega arith)
board-Answers false = inl refl

abbrev recovering : Sender
recovering = record sender { fastrecov = true; recover = pos 11; pipe = pos 1 }

sack_send_much-Filled_example :
    (k : ℕ) × Filled board 0 0 recovering (sack_send_much board 5 60 false 0 0 recovering true) k
sack_send_much-Filled_example =
    sack_send_much-Filled board 5 60 false 0 0 recovering true board-Answers (omega arith) refl refl
      refl (omega arith)
