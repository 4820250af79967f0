-- ===== src/Sink/Tests.antt =====
-- A sink at work: theorems at concrete sinks and packets.
use saps_extended.Base.{ℕ, ◌+◌, refl, true, false, none, List, [], ◌∷◌, replicate, arith}
use saps_extended.Base.Int.{pos, negsuc}
use saps_extended.Acker
use saps_extended.Acker.{Acker}
use saps_extended.Acker.Refine.{new-IsValid}
use saps_extended.SackStack
use saps_extended.SackStack.{Block, unused}
use saps_extended.Sacker.{Sacker, nsa, configure}
use saps_extended.Sacker.Invariant.{configure-IsSacker}
use saps_extended.Packet.{Packet, Flags, qs_disable}
use saps_extended.Sink.{sack, Sink, Env, recv}
use saps_extended.Sink.Delay.{Event, arrives, fires, Tally, Balanced, run, run-Balanced}
use saps_extended.Sink.Ack.{IsReceiver, Received, recv_lem}

abbrev no_flags : Flags
no_flags = record {
  ecn = 0;
  ecn_to_echo = 0;
  eln = 0;
  fs = 0;
  no_ts = 0;
  pri = 0;
  ecn_capable = 0;
  cong_action = 0;
  qs = 0;
  is_elephant = 0;
  visited_tor = 0;
  agg_decision = 0;
  dup_case1_count = 0;
  dup_case2_count = 0;
  flowcell_uplink = 0;
  flowcell_seq = 0;
  failure_detected = 0;
}

-- Packet 0, of 1000 bytes, sent at time 5.
abbrev packet : Packet
packet = record {
  cmn = record { uid = 1; ptype = 0; size = 1000; timestamp = 5; error = 0 };
  ip = record { saddr = 1; sport = 0; daddr = 2; dport = 0; flowid = 3; prio = 0; ttl = 32 };
  flags = no_flags;
  qs = record { flag = qs_disable; ttl = pos 0; rate = 0 };
  tcp = record {
    ts = 5;
    ts_echo = 0;
    link_id = 2;
    seqno = pos 0;
    sack_area = replicate (nsa + 1) unused;
    sa_length = 0;
  };
}

abbrev env : Env
env = record { now = 9; uid = 2; blank = packet }

abbrev unconfigured : Sacker
unconfigured = record {
  acker = Acker.new;
  base_nblocks = negsuc 0;
  dsacks = false;
  sf = SackStack.new 0;
}

abbrev sink : Sink
sink = record {
  agent = record {
    ptype = 1;
    size = 40;
    here_addr = 2;
    here_port = 0;
    dst_addr = 1;
    dst_port = 0;
    fid = 3;
    prio = 0;
    defttl = 32;
    is_elephant = 0;
  };
  receiver = sack (configure unconfigured 3).0;
  ts_echo_bugfix = true;
  ts_echo_rfc1323 = false;
  qs_enabled = false;
  rfc2581_immediate_ack = true;
  ecn_syn = false;
  realistic_failure = false;
  ack_on_same_path = false;
  bytes = 0;
  lastreset = 0;
  save = none;
  timer_pending = false;
}

sink-IsReceiver : IsReceiver sink.receiver
sink-IsReceiver = (configure-IsSacker unconfigured 3 new-IsValid).0

recv_lem_example : (n : ℕ) × (npkt : Packet) × Received sink packet n npkt (recv sink env packet)
recv_lem_example = recv_lem sink env packet sink-IsReceiver refl (omega arith)

abbrev nothing_yet : Tally
nothing_yet = record { fresh = 0; acked = 0; restarted = 0 }

-- Packet 0 is stashed, the timer fires, packet 0 comes again.
abbrev events : List Event
events = arrives env packet ∷ fires env ∷ arrives env packet ∷ []

run-Balanced_example : let (s, t) = run events sink nothing_yet in Balanced s t
run-Balanced_example =
    run-Balanced events sink nothing_yet
      (record { paired = refl; at_most = omega arith; at_least = omega arith })
