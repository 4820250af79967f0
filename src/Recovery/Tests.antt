-- ===== src/Recovery/Tests.antt =====
-- A sender with a window of four segments, in thousandths: 9 is acknowledged, 10 to 13 are sent.
use saps_extended.Base.{ℕ, ◌≡◌, refl, inl, List, [], ◌∷◌, Bool, true, false, none, some, arith}
use saps_extended.Base.Int.{pos, negsuc, ◌+ℤ◌}
use saps_extended.Packet.{qs_disable, Packet}
use saps_extended.Red.Thousandths.{thousandths}
use saps_extended.Rto.{Timing}
use saps_extended.Cwnd.{Settings, Cwnd, initial}
use saps_extended.Cwnd.Growth.{GrowSettings}
use saps_extended.Sender.{Sender, Segment}
use saps_extended.Sender.Sack.{Board}
use saps_extended.Recovery.{Scoreboard, Setup, Sack1}
use saps_extended.Recovery.Timeout.{step, delsnd, rtx, Event, acked, expired, timeout}
use saps_extended.Recovery.Sound.{IsValid, Goes}
use saps_extended.Recovery.Events.{run, IfSome-all, run-Goes}
use saps_extended.Recovery.FastRetransmit.Once.{IsDuplicate, Resent}
use saps_extended.Recovery.FastRetransmit.{acks_of, run-Resent}
use saps_extended.Recovery.Restart.Resets.{CountsOne}
use saps_extended.Recovery.Restart.{Restarted, timeout-Restarted}

abbrev timing : Timing
timing = record {
  tcp_tick = 10;
  ts_option = true;
  rfc2988 = true;
  boot_time = 0;
  srtt_bits = 3;
  rttvar_bits = 2;
  rttvar_exp = 2;
  srtt_init = 0;
  rttvar_init = 12000;
  rtxcur_init = 3000;
  minrto = 200;
  maxrto = 60000;
}

abbrev settings : Settings ℕ
settings = record {
  wnd = 20000;
  wnd_option = 1;
  wnd_restart = 1000;
  wnd_init = 2000;
  precision_reduce = true;
  low_window = 38000;
  l_parameter = 1000;
  dec1 = 0;
  dec2 = 0;
  dctcp = true;
}

abbrev grow : GrowSettings ℕ
grow = record {
  increase_num = 1000;
  wnd_const = 4000;
  k_parameter = 0;
  cwnd_range = 0;
  p1 = 0;
  p2 = 0;
  tcp_tick = 10;
  srtt_bits = 3;
  max_ssthresh = 0;
  maxcwnd = 0;
}

-- A scoreboard that only notes whether it has news.
abbrev board : Board Bool
board = record { next_retran = λ b. negsuc 0; mark_retran = λ x b. b }

abbrev scoreboard : Scoreboard Bool
scoreboard = record {
  board = board;
  update = λ h n area b. true;
  check_update = λ b. b;
  is_changed = λ b. b;
  next_unacked = λ x b. x;
  clear = λ b. false;
}

abbrev setup : Setup ℕ Bool
setup = record {
  double = thousandths;
  log = λ x. x;
  exp = λ x. x;
  scb = scoreboard;
  cwnd = settings;
  grow = grow;
  timing = timing;
  wnd_th = 2;
  dctcp_g = 62;
  flow_bender = false;
  flow_bender_t = 50;
  flow_bender_n = 1;
  numdupacks = 3;
  numdupacks_frac = 10;
  maxburst = 0;
  lastreset = 0;
  spurious_response = 1;
  timerfix = true;
  ts_reset_rto = false;
  old_ecn = false;
  control_increase = false;
  delay_growth = false;
  bug_fix = true;
  bugfix_ss = true;
  restart_bugfix = true;
  slow_start_restart = true;
  singledup = false;
  lim_transmit_fix = false;
  old_code = false;
  partial_ack = true;
  aggressive_maxburst = false;
  frto_enabled = false;
  sfrto_enabled = false;
  second = 1000;
  fuel = 20;
}

abbrev sender : Sender
sender = record {
  t_seqno = pos 14;
  highest_ack = pos 9;
  prev_highest_ack = pos 8;
  last_ack = pos 9;
  maxseq = pos 13;
  curseq = pos 100;
  recover = pos 0;
  pipe = pos 0;
  dctcp_maxseq = pos 13;
  rtt_seq = pos 10;
  rtt_ts = 50;
  cwnd = 4;
  wnd = 20;
  frto = 0;
  dupacks = 0;
  size = 1000;
  ndatapack = 14;
  ndatabytes = 14000;
  nrexmitpack = 0;
  nrexmitbytes = 0;
  syn_connects = 1;
  max_connects = 0;
  rtx_from = 50;
  rtx_pending = true;
  rtt_active = true;
  syn = true;
  ecn = true;
  dctcp = true;
  cong_action = false;
  cwr_on_retransmit = true;
  fastrecov = false;
  closed = false;
  delsnd = false;
  burstsnd = false;
  overhead = false;
  flow_bender = false;
  rescheds = [];
}

abbrev cut : Cwnd ℕ
cut = record {
  cwnd = 4000;
  ssthresh = 20;
  w_used = 0;
  decrease_num = 500;
  dctcp_alpha = 400;
  fcnt = 0;
  count = 0;
  first_decrease = true;
  cong_action = false;
  ncwndcuts = 0;
  ncwndcuts1 = 0;
  necnresponses = 0;
  last_action = initial;
  recover = pos 0;
  maxseq = pos 13;
  ecn_backoff = false;
  rto = record {
    t_rtt = 5;
    t_srtt = 40;
    t_rttvar = 8;
    t_rtxcur = 130;
    t_backoff = 1;
    use_rtt = false;
  };
}

abbrev agent : Sack1 ℕ Bool
agent = record {
  sender = sender;
  cut = cut;
  growth = record { awnd = 4000; cwnd_last = 0; increase_last = 0 };
  counts = record {
    total = 0;
    marked = 0;
    alpha = 400;
    update_seq = pos 13;
    maxseq = pos 13;
    total_acks = 0;
    marked_acks = 0;
    congested = 0;
    ttl = 32;
  };
  board = false;
  timeout = false;
  firstpartial = false;
  next_pkt = pos 0;
  nackpack = 9;
  nrexmit = 0;
  pipe_prev = 0;
  wnd_init = 2000;
  wnd_init_option = 1;
  ect = true;
  ecn_burst = false;
  dup_case1_count = 0;
  dup_case2_count = 0;
  ts_echo = 0;
  rtx_delay = 200;
  fl_bndr = none;
}

-- An acknowledgement of all up to `n`, without a mark.
abbrev ack : ℕ → Packet
ack n = record {
  cmn = record { uid = 0; ptype = 0; size = 40; timestamp = 0; error = 0 };
  ip = record { saddr = 0; sport = 0; daddr = 0; dport = 0; flowid = 0; prio = 0; ttl = 32 };
  flags = record {
    ecn = 0;
    ecn_to_echo = 0;
    eln = 0;
    fs = 0;
    no_ts = 0;
    pri = 0;
    ecn_capable = 0;
    cong_action = 0;
    qs = 0;
    is_elephant = 0;
    visited_tor = 0;
    agg_decision = 0;
    dup_case1_count = 0;
    dup_case2_count = 0;
    flowcell_uplink = 0;
    flowcell_seq = 0;
    failure_detected = 0;
  };
  qs = record { flag = qs_disable; ttl = pos 0; rate = 0 };
  tcp = record { ts = 60; ts_echo = 40; link_id = 0; seqno = pos n; sack_area = []; sa_length = 0 };
}

agent-IsValid : IsValid setup agent
agent-IsValid = record {
  sound = record {
    below = omega arith;
    sent = omega arith;
    recovering = λ fast. cc fast;
    normal = λ _. omega arith;
    init = inl refl;
  };
  first = λ on _. cc;
}

abbrev duplicates : List (ℕ × Packet)
duplicates = (61, ack 9) ∷ (62, ack 9) ∷ (63, ack 9) ∷ []

is_duplicate : IsDuplicate setup sender (ack 9)
is_duplicate = record { same = refl; fresh = refl; no_echo = refl }

run-Resent_example :
    (r : Sack1 ℕ Bool × List Segment) × (run setup agent (acks_of duplicates) ≡ some r)
    × Resent sender 3 r
unfolding ◌+ℤ◌
run-Resent_example =
    run-Resent setup agent duplicates
      (record { news = λ h n area b. refl; no_single = refl; no_old_code = refl })
      (record { no_recovery = refl; no_frto = refl; recovered = refl; opened = omega arith }) refl
      refl (omega arith) refl (is_duplicate, (is_duplicate, (is_duplicate, tt)))

thousandths-CountsOne : CountsOne thousandths
thousandths-CountsOne = record { not_less = refl; trunc_one = λ x h. ground arith }

timeout-Restarted_example : Restarted agent (timeout setup 200 rtx agent)
unfolding ◌+ℤ◌
timeout-Restarted_example = timeout-Restarted setup 200 agent thousandths-CountsOne (record {
  ordered = omega arith;
  out = refl;
  data_there = refl;
  no_wait = refl;
  no_overhead = refl;
  receiver = omega arith;
  opened = omega arith;
  cleared = refl;
  some_fuel = omega arith;
})

abbrev events : List Event
events = acked 61 (ack 11) ∷ expired 70 delsnd ∷ expired 300 rtx ∷ []

run-Goes_example :
    (r : Sack1 ℕ Bool × List Segment) × (run setup agent events ≡ some r) × Goes setup (pos 9) r.0
run-Goes_example =
    run-Goes setup (inl (omega arith)) (omega arith) agent events agent-IsValid
      (omega arith, IfSome-all (step setup agent (acked 61 (ack 11))) (λ b. (tt, (tt, tt))))
