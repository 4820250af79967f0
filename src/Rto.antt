-- ===== src/Rto.antt =====
-- The retransmission timer of `class TcpAgent` of tcp/tcp.cc: the estimate of the round-trip time,
-- its back-off, and when the timer is set.
-- A time is a number of units that divide `tcp_tick_`; a product with it is exact, and rounding of
-- `double` is left out. A `short` is a number below 2^16 in two's complement; `int` is not bounded.
pub mod Timeout
pub mod Estimate
mod Tests
use saps_extended.Base.{
  ℕ, ◌+◌, ◌*◌, ◌-◌, ◌/◌, ◌%◌, ◌^◌, ◌<◌, Bool, true, false, not, ◌&&◌, ◌||◌, Option, none, some, ltb,
  leb, ◌==◌, if◌then◌else◌,
}
use saps_extended.Base.Int.{ℤ, pos, negsuc, ◌+ℤ◌, ltb_ℤ}

-- The members that are bound from Tcl.
pub record Timing : Type 0 where
  pub tcp_tick : ℕ
  pub ts_option : Bool
  pub rfc2988 : Bool
  pub boot_time : ℕ
  pub srtt_bits : ℕ
  pub rttvar_bits : ℕ
  pub rttvar_exp : ℕ
  pub srtt_init : ℕ
  pub rttvar_init : ℕ
  pub rtxcur_init : ℕ
  pub minrto : ℕ
  pub maxrto : ℕ

pub record Rto : Type 0 where
  pub t_rtt : ℕ
  pub t_srtt : ℕ
  pub t_rttvar : ℕ
  pub t_rtxcur : ℕ
  pub t_backoff : ℕ
  pub use_rtt : Bool

-- The bits of the `short` a - b.
pub short_diff : ℕ → ℕ → ℕ
short_diff a b = (a + (2 ^ 16 - b % 2 ^ 16)) % 2 ^ 16

-- `if (delta < 0) delta = -delta;`
pub short_abs : ℕ → ℕ
short_abs u = if ltb u (2 ^ 15) then u else 2 ^ 16 - u

-- `if ((x += delta) <= 0) x = 1;`
pub add_short : ℕ → ℕ → ℕ
add_short x u =
    if ltb u (2 ^ 15)
    then if x + u == 0 then 1 else x + u
    else if leb (x + u) (2 ^ 16)
    then 1
    else x + u - 2 ^ 16

module _ (c : Timing) where
  pub rtt_init : Rto → Rto
  rtt_init s = record s {
    t_rtt = 0;
    t_srtt = c.srtt_init / c.tcp_tick * 2 ^ c.srtt_bits;
    t_rttvar = c.rttvar_init / c.tcp_tick * 2 ^ c.rttvar_bits;
    t_rtxcur = c.rtxcur_init;
    t_backoff = 1;
  }

  -- `timeout` of `rtt_timeout` before it is compared with `maxrto_`.
  pub uncapped : Rto → ℕ
  uncapped s =
      if c.rfc2988
      then if ltb s.t_rtxcur c.minrto && not s.use_rtt
        then c.minrto * s.t_backoff
        else s.t_rtxcur * s.t_backoff
      else if ltb (s.t_rtxcur * s.t_backoff) c.minrto
      then c.minrto
      else s.t_rtxcur * s.t_backoff

  -- The value is not negative here.
  pub rtt_timeout : Rto → Rto × ℕ
  rtt_timeout s =
      let capped = (if ltb c.maxrto (uncapped s) then c.maxrto else uncapped s) in
      (
        record s { use_rtt = false },
        if ltb capped (2 * c.tcp_tick)
            then if s.use_rtt && ltb capped c.tcp_tick then c.tcp_tick else 2 * c.tcp_tick
            else capped,
      )

  -- `t_rtt_` of `rtt_update` at time `now`, for the round-trip time `tao`.
  pub sample : ℕ → ℕ → ℕ
  sample now tao =
      let ticks =
        (if c.ts_option
          then (2 * tao + c.tcp_tick) / (2 * c.tcp_tick)
          else (tao + (now + c.boot_time - tao) % c.tcp_tick) / c.tcp_tick) in
      if ltb ticks 1 then 1 else ticks

  -- The rest of `rtt_update`, for `t_rtt_ = rtt`.
  pub smooth : Rto → ℕ → Rto
  smooth s rtt =
      let delta = short_diff rtt (s.t_srtt / 2 ^ c.srtt_bits) in
      let dev = short_diff (short_abs delta) (s.t_rttvar / 2 ^ c.rttvar_bits) in
      let first = s.t_srtt == 0 in
      let srtt = (if first then rtt * 2 ^ c.srtt_bits else add_short s.t_srtt delta) in
      let rttvar = (if first then rtt * 2 ^ (c.rttvar_bits - 1) else add_short s.t_rttvar dev) in
      record s {
        t_rtt = rtt;
        t_srtt = srtt;
        t_rttvar = rttvar;
        t_rtxcur =
            (rttvar * 2 ^ (c.rttvar_exp + (c.srtt_bits - c.rttvar_bits)) + srtt)
            / 2 ^ c.srtt_bits
            * c.tcp_tick;
      }

  pub rtt_update : Rto → ℕ → ℕ → Rto
  rtt_update s now tao = smooth s (sample now tao)

  -- The first `if` of `rtt_backoff`. Its condition calls `rtt_timeout` only in the second case.
  pub double_backoff : Rto → Rto
  double_backoff s =
      let (asked, timeout) = rtt_timeout s in
      if ltb s.t_backoff 64
      then record s { t_backoff = s.t_backoff * 2 }
      else if c.rfc2988
      then if ltb timeout c.maxrto then record asked { t_backoff = s.t_backoff * 2 } else asked
      else s

  pub rtt_backoff : Rto → Rto
  rtt_backoff s =
      let s' = double_backoff s in
      if ltb 8 s'.t_backoff
      then record s' { t_rttvar = s'.t_rttvar + s'.t_srtt / 2 ^ c.srtt_bits; t_srtt = 0 }
      else s'

  -- What `reset_rtx_timer` and `newtimer` read and write beside the estimate; `timer` is the delay
  -- that a pending timer was set to.
  pub record Rtx : Type 0 where
    pub rto : Rto
    pub t_seqno : ℤ
    pub highest_ack : ℤ
    pub maxseq : ℤ
    pub rtt_active : Bool
    pub timer : Option ℕ

  pub set_rtx_timer : Rtx → Rtx
  set_rtx_timer s =
      let (rto, timeout) = rtt_timeout s.rto in record s { rto = rto; timer = some timeout }

  pub reset_rtx_timer : Rtx → Bool → Bool → Rtx
  reset_rtx_timer s mild backoff =
      let s' = set_rtx_timer (if backoff then record s { rto = rtt_backoff s.rto } else s) in
      record s' {
        t_seqno = if mild then s'.t_seqno else s'.highest_ack +ℤ pos 1;
        rtt_active = false;
      }

  -- `newtimer` for an acknowledgement of `seqno`; `cwnd_low` is cwnd_ < 1.
  pub newtimer : Rtx → ℤ → Bool → Rtx
  newtimer s seqno cwnd_low =
      if ltb_ℤ seqno s.t_seqno || (ltb_ℤ seqno s.maxseq || cwnd_low)
      then set_rtx_timer s
      else record s { timer = none }
