-- ===== src/Sink.antt =====
-- `class TcpSink` and `class DelAckSink` of tcp/tcp-sink.h and tcp/tcp-sink.cc. Time and what
-- `Packet::alloc` gives are arguments of each call; what a call hands to the application and puts
-- on the wire is in its result. The delay timer is pending or not: when it fires is up to the
-- scheduler, which is not part of the repository.
pub mod Ack
pub mod Delay
mod Tests
use saps_extended.Base.{
  ℕ, ◌+◌, ◌-◌, ◌%◌, List, [], ◌∷◌, ◌++◌, Bool, true, false, not, ◌&&◌, ◌||◌, Option, none, some,
  ltb, leb, ◌==◌, if◌then◌else◌,
}
use saps_extended.Base.Int.{ℤ, pos, negsuc, ◌-ℤ◌, eqb_ℤ, ltb_ℤ}
use saps_extended.Acker
use saps_extended.Acker.{Acker, seqno, update, update_ts, update_ecn_unacked}
use saps_extended.Sacker
use saps_extended.Sacker.{Sacker, append_ack}
use saps_extended.Packet.{
  Packet, Cmn, Ip, Flags, Qs, Tcp, Agent, initpkt, is_set, QsFlag, qs_disable, qs_request,
  qs_response,
}

-- `acker_`: an object of `Acker` or of its subclass `Sacker`.
pub data Receiver : Type 0 where
  plain : Acker → Receiver
  sack : Sacker → Receiver

abbrev pub acker : Receiver → Acker
acker (plain a) = a
acker (sack s) = s.acker

-- Writes the part of the object that both classes have.
abbrev pub set_acker : Receiver → Acker → Receiver
set_acker (plain a) b = plain b
set_acker (sack s) b = sack (record s { acker = b })

pub record Sink : Type 0 where
  pub agent : Agent
  pub receiver : Receiver
  pub ts_echo_bugfix : Bool
  pub ts_echo_rfc1323 : Bool
  pub qs_enabled : Bool
  pub rfc2581_immediate_ack : Bool
  pub ecn_syn : Bool
  pub realistic_failure : Bool
  pub ack_on_same_path : Bool
  pub bytes : ℕ
  pub lastreset : ℕ
  pub save : Option Packet
  pub timer_pending : Bool

-- What the surroundings give to a call that builds a packet.
pub record Env : Type 0 where
  pub now : ℕ
  pub uid : ℕ
  pub blank : Packet

-- What leaves a sink, in order: `recvBytes` to the application and `send`.
pub data Output : Type 0 where
  recv_bytes : ℕ → Output
  send : Packet → Output

-- The call `acker_->reset()`: `Acker::reset` is not virtual, so that a `Sacker` keeps its stack.
pub reset_receiver : Receiver → Receiver
reset_receiver r = set_acker r (Acker.reset (acker r))

-- The virtual call `acker_->append_ack(…)`.
pub append_receiver : Receiver → ℤ → Packet → Receiver × Packet
append_receiver (plain a) old p = (plain a, p)
append_receiver (sack s) old p =
    let r = append_ack s old p.tcp.sack_area p.cmn.size in
    (
      sack (record s { sf = r.sf }),
      record p {
        cmn = record (p.cmn) { size = r.size };
        tcp = record (p.tcp) { sack_area = r.area; sa_length = r.sa_length };
      },
    )

pub reset : Sink → ℕ → Sink
reset s now = record s { receiver = reset_receiver s.receiver; save = none; lastreset = now }

-- `n % 256` on `int`: the result has the sign of `n`.
pub rem_256 : ℤ → ℤ
rem_256 (pos n) = pos (n % 256)
rem_256 (negsuc n) = pos 0 -ℤ pos ((n + 1) % 256)

-- The QuickStart part of `ack`.
pub qs_response_to : Packet → Qs → Qs
qs_response_to p q = elim p.qs.flag [
  | qs_request ↦
      if eqb_ℤ p.tcp.seqno (pos 0)
      then record { flag = qs_response; ttl = rem_256 (pos p.ip.ttl -ℤ p.qs.ttl); rate = p.qs.rate }
      else record q { flag = qs_disable }
  | _ ↦ record q { flag = qs_disable }
]

-- A flag of the stashed packet, if there is one.
abbrev pub saved : Option Packet → (Flags → Bool) → Bool
saved none f = false
saved (some p) f = f p.flags

abbrev pub is_ect : Flags → Bool
is_ect f = is_set f.ecn_capable

abbrev pub is_ce : Flags → Bool
is_ce f = is_ect f && is_set f.ecn_to_echo

abbrev pub is_cwr : Flags → Bool
is_cwr f = is_set f.cong_action

-- A packet that negotiates ECN.
abbrev pub is_setup : Flags → Bool
is_setup f = not (is_ect f) && is_set f.ecn

-- `ecn_unacked_` after the two updates of `ack`.
pub next_ecn_unacked : Option Packet → Flags → ℕ → ℕ
next_ecn_unacked save f u =
    if saved save is_ce || is_ce f then 1 else if saved save is_cwr || is_cwr f then 0 else u

-- The flags of the acknowledgement, from those that `initpkt` has set.
pub ack_flags : Sink → Flags → Flags → ℕ → Flags
ack_flags s of nf unacked =
    let setup = is_setup of || saved s.save is_setup in
    record nf {
      failure_detected =
          if s.ack_on_same_path && (s.realistic_failure && is_set of.failure_detected)
          then 1
          else nf.failure_detected;
      ecn = if setup then 1 else if saved s.save is_ect || is_ect of then unacked else nf.ecn;
      ecn_capable = if setup && s.ecn_syn then 1 else nf.ecn_capable;
    }

-- The acknowledgement of `ack` up to the call of `append_ack`.
pub build_ack : Sink → Env → Packet → ℕ → Packet
build_ack s env opkt unacked =
    let n = initpkt s.agent env.uid env.now env.blank in
    record n {
      ip = record (n.ip) { flowid = opkt.ip.flowid };
      flags = ack_flags s opkt.flags n.flags unacked;
      qs = if s.qs_enabled then qs_response_to opkt n.qs else n.qs;
      tcp = record (n.tcp) {
        ts = env.now;
        ts_echo = if s.ts_echo_bugfix then (acker s.receiver).ts_to_echo else opkt.tcp.ts;
        link_id =
            if s.ack_on_same_path && (s.realistic_failure && is_set opkt.flags.failure_detected)
            then opkt.tcp.link_id
            else n.tcp.link_id;
        seqno = seqno (acker s.receiver);
      };
    }

-- `ack`: the sink afterwards and the packet sent. `add_to_ack` does nothing here.
pub ack : Sink → Env → Packet → Sink × Packet
ack s env opkt =
    let a = acker s.receiver in
    let unacked = next_ecn_unacked s.save opkt.flags a.ecn_unacked in
    let built = build_ack s env opkt unacked in
    let marked = set_acker s.receiver (update_ecn_unacked a unacked) in
    let (r, npkt) = append_receiver marked opkt.tcp.seqno built in
    (
      record s { receiver = set_acker r (record (acker r) { last_ack_sent = npkt.tcp.seqno }) },
      npkt,
    )

-- `if (numToDeliver) { bytes_ += numToDeliver; recvBytes(numToDeliver); }`
pub deliver : Sink → ℕ → Sink × List Output
deliver s n = if n == 0 then (s, []) else (record s { bytes = s.bytes + n }, recv_bytes n ∷ [])

-- The part that `TcpSink::recv` and `DelAckSink::recv` have in common, for a packet that is not
-- from before the last reset: the window and the bytes for the application.
pub take_in : Sink → Packet → Sink × List Output
take_in s p =
    let a = update_ts (acker s.receiver) p.tcp.seqno p.tcp.ts s.ts_echo_rfc1323 in
    let (a', n) = update a p.tcp.seqno p.cmn.size in
    deliver (record s { receiver = set_acker s.receiver a' }) n

-- `TcpSink::recv`
pub recv : Sink → Env → Packet → Sink × List Output
recv s env p =
    let (s', out) = take_in s p in
    let (s'', npkt) = ack s' env p in
    if ltb p.tcp.ts s.lastreset then (s, []) else (s'', out ++ (send npkt ∷ []))

-- `DelAckSink::recv`, after the window: the acknowledgement waits if no timer runs and the packet
-- is the last in order, unless it fills a gap and RFC 2581 is followed.
pub is_delayed : Sink → Packet → Bool
is_delayed s p =
    not s.timer_pending
    && (eqb_ℤ p.tcp.seqno (seqno (acker s.receiver))
        && not (s.rfc2581_immediate_ack && ltb_ℤ p.tcp.seqno (pos (acker s.receiver).maxseen)))

pub delack_recv : Sink → Env → Packet → Sink × List Output
delack_recv s env p =
    let (s', out) = take_in s p in
    let (s'', npkt) = ack (record s' { timer_pending = false }) env p in
    if ltb p.tcp.ts s.lastreset
    then (s, [])
    else if is_delayed s' p
    then (record s' { save = some p; timer_pending = true }, out)
    else (record s'' { save = none }, out ++ (send npkt ∷ []))

-- `DelAckSink::timeout`, when the timer fires. The code reads `save_` without a test.
pub timeout_with : Option Packet → Sink → Env → Sink × List Output
timeout_with none s env = (record s { timer_pending = false }, [])
timeout_with (some p) s env =
    let (s', npkt) = ack (record s { timer_pending = false }) env p in
    (record s' { save = none }, send npkt ∷ [])

pub timeout : Sink → Env → Sink × List Output
timeout s env = timeout_with s.save s env

-- `DelAckSink::reset`
pub delack_reset : Sink → ℕ → Sink
delack_reset s now = reset (record s { timer_pending = false }) now
