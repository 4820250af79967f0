-- ===== src/Sender.antt =====
-- The sending of segments by `class TcpAgent` of tcp/tcp.cc and `class Sack1TcpAgent` of
-- tcp/tcp-sack1.cc: the window, what `output` keeps of the segments' numbers, and the loops that
-- send as much as the window allows. `cwnd_` and `wnd_` count by their integer parts: the code
-- compares and converts them so. Left out are Quick-Start, `QOption_`, the time stamps, the
-- application's notice `idle` and the headers but for the congestion flags.
pub mod Sack
pub mod Window
pub mod Many
pub mod Pipe
pub mod First
mod Tests
use saps_extended.Base.{
  ℕ, zero, suc, ◌+◌, ◌*◌, ◌/◌, ◌%◌, List, [], ◌∷◌, ◌++◌, Bool, true, false, not, ◌&&◌, ◌||◌, Option,
  none, some, ltb, leb, ◌==◌, if◌then◌else◌,
}
use saps_extended.Base.Int.{ℤ, pos, negsuc, pos_part, neg_part, ◌+ℤ◌, ◌-ℤ◌, ltb_ℤ, leb_ℤ, eqb_ℤ}

-- The calls of `resched`: `set_rtx_timer()`, `rtx_timer_.resched(10000)`, and
-- `fl_bndr_timer.resched(rtt_timeout())`. The estimate of the round-trip time, which the delays are
-- from, is kept elsewhere.
pub data Resched : Type 0 where
  set_rtx rtx_long set_fl_bndr : Resched

-- The agent. `size` is `size_`, the bytes of a packet before its headers; `rtx_from` is the time at
-- which the retransmission timer was set, if `rtx_pending`; `delsnd` and `burstsnd` are the status
-- of the other two timers; `overhead` says that `overhead_` is not 0; `rescheds` are the calls of
-- `resched` so far, in order.
pub record Sender : Type 0 where
  pub t_seqno : ℤ
  pub highest_ack : ℤ
  pub prev_highest_ack : ℤ
  pub last_ack : ℤ
  pub maxseq : ℤ
  pub curseq : ℤ
  pub recover : ℤ
  pub pipe : ℤ
  pub dctcp_maxseq : ℤ
  pub rtt_seq : ℤ
  pub rtt_ts : ℕ
  pub cwnd : ℕ
  pub wnd : ℕ
  pub frto : ℕ
  pub dupacks : ℕ
  pub size : ℕ
  pub ndatapack : ℕ
  pub ndatabytes : ℕ
  pub nrexmitpack : ℕ
  pub nrexmitbytes : ℕ
  pub syn_connects : ℕ
  pub max_connects : ℕ
  pub rtx_from : ℕ
  pub rtx_pending : Bool
  pub rtt_active : Bool
  pub syn : Bool
  pub ecn : Bool
  pub dctcp : Bool
  pub cong_action : Bool
  pub cwr_on_retransmit : Bool
  pub fastrecov : Bool
  pub closed : Bool
  pub delsnd : Bool
  pub burstsnd : Bool
  pub overhead : Bool
  pub flow_bender : Bool
  pub rescheds : List Resched

-- What is sent: the number, `reason()`, and the flags `ect`, `ecnecho` and `cong_action`.
pub record Segment : Type 0 where
  pub seqno : ℤ
  pub reason : ℕ
  pub ect : Bool
  pub ecnecho : Bool
  pub cong_action : Bool

-- `force_wnd`
unfoldable pub force_wnd : Sender → ℕ → ℤ
force_wnd s num = s.recover +ℤ pos num -ℤ s.highest_ack

-- `window`
unfoldable pub window : Sender → ℤ
window s =
    if s.frto == 2
    then if ltb_ℤ (force_wnd s 2) (pos s.wnd) then force_wnd s 2 else pos s.wnd
    else if ltb s.cwnd s.wnd
    then pos s.cwnd
    else pos s.wnd

-- `network_limited`
unfoldable pub network_limited : Sender → Bool
network_limited s = ltb_ℤ (s.prev_highest_ack +ℤ window s) s.t_seqno

-- (cong_action_ && (!is_retransmit || SetCWRonRetransmit_))
abbrev pub tells_cwr : ℤ → Sender → Bool
tells_cwr seqno s = s.cong_action && (not (ltb_ℤ seqno s.maxseq) || s.cwr_on_retransmit)

-- The first segment opens the connection: it has no data, and is counted.
unfoldable pub open_connection : Sender → Sender
open_connection s = record s {
  curseq = if eqb_ℤ s.maxseq (negsuc 0) then s.curseq +ℤ pos 1 else s.curseq;
  syn_connects = s.syn_connects + 1;
  rescheds = if s.flow_bender then s.rescheds ++ set_fl_bndr ∷ [] else s.rescheds;
}

-- A new segment: `maxseq_`, and the one that is timed.
unfoldable pub note_new : ℕ → ℤ → Sender → Sender
note_new now seqno s =
    if s.rtt_active
    then record s { maxseq = seqno }
    else if ltb_ℤ s.rtt_seq seqno
    then record s { maxseq = seqno; rtt_active = true; rtt_seq = seqno; rtt_ts = now }
    else record s { maxseq = seqno; rtt_active = true }

-- A segment of `bytes` is handed over to the network.
unfoldable pub hand_over : ℕ → ℤ → ℕ → Sender → Sender
unfolding note_new
hand_over now seqno bytes s =
    let force = eqb_ℤ s.highest_ack s.maxseq in
    let counted = record s {
      ndatapack = s.ndatapack + 1;
      ndatabytes = s.ndatabytes + bytes;
      dctcp_maxseq = if s.dctcp && ltb_ℤ s.dctcp_maxseq seqno then seqno else s.dctcp_maxseq;
      rtx_from = if not s.rtx_pending || force then now else s.rtx_from;
      rtx_pending = true;
      rescheds = if not s.rtx_pending || force then s.rescheds ++ set_rtx ∷ [] else s.rescheds;
    } in
    if ltb_ℤ s.maxseq seqno
    then note_new now seqno counted
    else record counted { nrexmitpack = s.nrexmitpack + 1; nrexmitbytes = s.nrexmitbytes + bytes }

-- The flags of a segment.
unfoldable pub flags_of : ℤ → ℕ → Sender → Segment
flags_of seqno reason s =
    let first = eqb_ℤ seqno (pos 0) && s.ecn in
    record {
      seqno = seqno;
      reason = reason;
      ect = if first then s.dctcp else s.ecn;
      ecnecho = first;
      cong_action = tells_cwr seqno s;
    }

-- `output`, after the choice of the link, at time `now`.
unfoldable pub output : ℕ → ℤ → ℕ → Sender → Sender × List Segment
unfolding open_connection hand_over flags_of
output now seqno reason s =
    let told = (if tells_cwr seqno s then record s { cong_action = false } else s) in
    if eqb_ℤ seqno (pos 0) && s.syn
    then (let opened = open_connection told in
        if ltb 0 s.max_connects && ltb s.max_connects opened.syn_connects
        then (
          record opened {
            curseq = pos 0;
            rtx_pending = true;
            rtx_from = now;
            rescheds = opened.rescheds ++ rtx_long ∷ [];
          },
          [],
        )
        else (hand_over now seqno 0 opened, flags_of seqno reason s ∷ []))
    else (hand_over now seqno s.size told, flags_of seqno reason s ∷ [])

-- `t_seqno_ <= highest_ack_ + win && t_seqno_ < curseq_`
abbrev pub may_send : Sender → Bool
may_send s = leb_ℤ s.t_seqno (s.highest_ack +ℤ window s) && ltb_ℤ s.t_seqno s.curseq

-- output(t_seqno_, reason); t_seqno_++;
unfoldable pub send_next : ℕ → ℕ → Sender → Sender × List Segment
send_next now reason s =
    let (s', out) = output now s.t_seqno reason s in
    (record s' { t_seqno = s'.t_seqno +ℤ pos 1 }, out)

abbrev pub then_send : List Segment → Sender × List Segment → Sender × List Segment
then_send out (s, more) = (s, out ++ more)

-- The loop of `send_much`, on fuel; `sent` is `npackets`, and `maxburst` 0 for no limit.
unfoldable pub many : ℕ → ℕ → Bool → ℕ → ℕ → ℕ → Sender → Sender × List Segment
many zero now force reason maxburst sent s = (s, [])
many (suc fuel) now force reason maxburst sent s =
    let r = send_next now reason s in
    let more = many fuel now force reason maxburst (sent + 1) r.0 in
    let again = many fuel now force reason maxburst sent s in
    if may_send s
    then if not s.overhead || force
      then if ltb 0 maxburst && (sent + 1 == maxburst) then r else then_send r.1 more
      else if s.delsnd
      then again
      else (record s { delsnd = true }, [])
    else (s, [])

-- `send_much`
unfoldable pub send_much : ℕ → ℕ → Bool → ℕ → ℕ → Sender → Sender × List Segment
unfolding many
send_much fuel now force reason maxburst s =
    if (not force && s.delsnd) || s.burstsnd
    then (s, [])
    else many fuel now force reason maxburst 0 s

-- nbytes/size_ + (nbytes%size_ ? 1 : 0); a quotient is rounded towards 0.
unfoldable pub packets_of : ℕ → ℤ → ℤ
packets_of size (pos n) = pos (n / size + (if n % size == 0 then 0 else 1))
packets_of size (negsuc n) = pos (if suc n % size == 0 then 0 else 1) -ℤ pos (suc n / size)

-- `sendmsg`, for a number of bytes, or -1 for as many as can be.
unfoldable pub sendmsg : ℕ → ℕ → ℕ → ℤ → Sender → Sender × List Segment
unfolding packets_of
sendmsg fuel now maxburst nbytes s =
    let more =
      (if eqb_ℤ nbytes (negsuc 0) && leb_ℤ s.curseq (pos 1073741824)
        then record s { curseq = pos 1073741824 }
        else record s { curseq = s.curseq +ℤ packets_of s.size nbytes }) in
    send_much fuel now false 0 maxburst more

-- `advanceby`
unfoldable pub advanceby : ℕ → ℕ → ℕ → ℤ → Sender → Sender × List Segment
advanceby fuel now maxburst delta s =
    let more = record s {
      curseq = s.curseq +ℤ delta;
      closed = if ltb_ℤ (pos 0) delta then false else s.closed;
    } in
    send_much fuel now false 0 maxburst more

-- `send_one`, where `cwnd_ + dupacks_` counts by its integer part
unfoldable pub send_one : ℕ → Sender → Sender × List Segment
send_one now s =
    if leb_ℤ s.t_seqno (s.highest_ack +ℤ pos s.wnd)
      && ltb_ℤ s.t_seqno s.curseq
      && leb_ℤ s.t_seqno (s.highest_ack +ℤ pos (s.cwnd + s.dupacks))
    then send_next now 0 s
    else (s, [])
