-- ===== src/Packet.antt =====
-- The headers of a packet, as far as the modelled code reads and writes them, and `initpkt` of
-- common/agent.cc. `hdr_flags` is common/flags.h, `hdr_tcp` is tcp/tcp.h; `hdr_cmn`, `hdr_ip` and
-- `hdr_qs` are headers of ns that the code names. A byte or an `int` flag is a number, times are
-- clock ticks.
use saps_extended.Base.{ℕ, Bool, not, ◌==◌, List}
use saps_extended.Base.Int.{ℤ}
use saps_extended.SackStack.{Block}

pub record Cmn : Type 0 where
  pub uid : ℕ
  pub ptype : ℕ
  pub size : ℕ
  pub timestamp : ℕ
  pub error : ℕ

pub record Ip : Type 0 where
  pub saddr : ℕ
  pub sport : ℕ
  pub daddr : ℕ
  pub dport : ℕ
  pub flowid : ℕ
  pub prio : ℕ
  pub ttl : ℕ

-- `ect()` is ecn_capable, `ecnecho()` is ecn, `ce()` is ecn_to_echo.
pub record Flags : Type 0 where
  pub ecn : ℕ
  pub ecn_to_echo : ℕ
  pub eln : ℕ
  pub fs : ℕ
  pub no_ts : ℕ
  pub pri : ℕ
  pub ecn_capable : ℕ
  pub cong_action : ℕ
  pub qs : ℕ
  pub is_elephant : ℕ
  pub visited_tor : ℕ
  pub agg_decision : ℕ
  pub dup_case1_count : ℕ
  pub dup_case2_count : ℕ
  pub flowcell_uplink : ℕ
  pub flowcell_seq : ℕ
  pub failure_detected : ℕ

pub data QsFlag : Type 0 where
  qs_disable qs_request qs_response : QsFlag

pub record Qs : Type 0 where
  pub flag : QsFlag
  pub ttl : ℤ
  pub rate : ℕ

pub record Tcp : Type 0 where
  pub ts : ℕ
  pub ts_echo : ℕ
  pub link_id : ℕ
  pub seqno : ℤ
  pub sack_area : List Block
  pub sa_length : ℕ

pub record Packet : Type 0 where
  pub cmn : Cmn
  pub ip : Ip
  pub flags : Flags
  pub qs : Qs
  pub tcp : Tcp

-- A flag that is set, as an `if` reads it.
abbrev pub is_set : ℕ → Bool
is_set n = not (n == 0)

-- The members of `Agent` that `initpkt` copies.
pub record Agent : Type 0 where
  pub ptype : ℕ
  pub size : ℕ
  pub here_addr : ℕ
  pub here_port : ℕ
  pub dst_addr : ℕ
  pub dst_port : ℕ
  pub fid : ℕ
  pub prio : ℕ
  pub defttl : ℕ
  pub is_elephant : ℕ

-- `initpkt`, for the packet with number `uid` at time `now`; `p` is what `Packet::alloc` gave, of
-- which the other headers stay. Interfaces and NixVector routing are left out.
unfoldable pub initpkt : Agent → ℕ → ℕ → Packet → Packet
initpkt a uid now p = record p {
  cmn = record { uid = uid; ptype = a.ptype; size = a.size; timestamp = now; error = 0 };
  ip = record {
    saddr = a.here_addr;
    sport = a.here_port;
    daddr = a.dst_addr;
    dport = a.dst_port;
    flowid = a.fid;
    prio = a.prio;
    ttl = a.defttl;
  };
  flags = record {
    ecn = 0;
    ecn_to_echo = 0;
    eln = 0;
    fs = 0;
    no_ts = 0;
    pri = 0;
    ecn_capable = 0;
    cong_action = 0;
    qs = 0;
    is_elephant = a.is_elephant;
    visited_tor = 0;
    agg_decision = 0;
    dup_case1_count = 0;
    dup_case2_count = 0;
    flowcell_uplink = 0;
    flowcell_seq = 0;
    failure_detected = 0;
  };
}
