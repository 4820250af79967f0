-- ===== src/Dctcp.antt =====
-- The marked acknowledgements that `class Sack1TcpAgent` of tcp/tcp-sack1.cc counts: for DCTCP in
-- `update_dctcp_alpha`, for FlowBender in `checkCongestionFB`. The arithmetic of `double` is an
-- argument, `Double`.
pub mod Bytes
pub mod Reroute
mod Tests
use saps_extended.Base.{
  ℕ, zero, suc, ◌+◌, List, [], ◌∷◌, Bool, true, false, ◌&&◌, ltb, leb, ◌==◌, if◌then◌else◌,
}
use saps_extended.Base.Int.{ℤ, pos, negsuc, ◌-ℤ◌, pos_part, neg_part, ltb_ℤ, leb_ℤ}

-- What the code uses of `double`.
pub record Double (R : Type 0) : Type 0 where
  pub of_int : ℕ → R
  pub one : R
  pub nought : R
  pub add : R → R → R
  pub sub : R → R → R
  pub mul : R → R → R
  pub over : R → R → R
  pub gt : R → R → Bool

-- An acknowledgement as it arrives: `ecnecho`, `seqno`, and `highest_ack_` at that time.
pub record Ack : Type 0 where
  pub ecnecho : Bool
  pub seqno : ℤ
  pub highest_ack : ℤ

-- `acked_bytes`
abbrev pub at_least_one : ℤ → ℕ
at_least_one d = if leb_ℤ d (pos 0) then 1 else pos_part d

pub acked_bytes : Ack → ℕ
acked_bytes a = at_least_one (a.seqno -ℤ a.highest_ack)

-- The counters: `dctcp_total`, `dctcp_marked`, `dctcp_alpha_`, `dctcp_alpha_update_seq`,
-- `dctcp_maxseq`, and for FlowBender `totalAckPkts`, `markedAckPkts_F`, `numRTTsCongested_` and
-- `defttl_`.
pub record Counts (R : Type 0) : Type 0 where
  pub total : ℕ
  pub marked : ℕ
  pub alpha : R
  pub update_seq : ℤ
  pub maxseq : ℤ
  pub total_acks : ℕ
  pub marked_acks : ℕ
  pub congested : ℕ
  pub ttl : ℕ

module _ {R : Type 0} (d : Double R) where
  open d use {of_int, one, nought, add, sub, mul, over, gt}

  -- The fraction of marked ones, 0 of none.
  pub fraction : ℕ → ℕ → R
  fraction marked total = if ltb 0 total then over (of_int marked) (of_int total) else nought

  -- `dctcp_alpha_`, with the gain `dctcp_g_`
  pub mix : R → R → R → R
  mix gain alpha part = add (mul (sub one gain) alpha) (mul gain part)

  -- An acknowledgement is counted.
  unfoldable pub count_ack : Counts R → Ack → Counts R
  count_ack s a =
      let bytes = acked_bytes a in
      let all = record s { total = s.total + bytes; total_acks = s.total_acks + bytes } in
      if a.ecnecho
      then record all { marked = s.marked + bytes; marked_acks = s.marked_acks + bytes }
      else all

  -- The new estimate, about once in a round-trip time.
  unfoldable pub new_alpha : R → Counts R → ℤ → Counts R
  new_alpha gain s seqno =
      if ltb_ℤ s.update_seq seqno
      then record s {
        update_seq = s.maxseq;
        alpha = mix gain s.alpha (fraction s.marked s.total);
        marked = 0;
        total = 0;
      }
      else s

  unfoldable pub update_dctcp_alpha : R → Counts R → Ack → Counts R
  update_dctcp_alpha gain s a = new_alpha gain (count_ack s a) a.seqno

  -- The end of `output`, for DCTCP: `dctcp_maxseq`
  unfoldable pub note_sent : Counts R → ℤ → Counts R
  note_sent s seqno = if ltb_ℤ s.maxseq seqno then record s { maxseq = seqno } else s

  -- `++numRTTsCongested_ >= flowBender_N`: a reroute.
  unfoldable pub bend : ℕ → Counts R → Counts R
  bend limit s =
      if leb limit (s.congested + 1)
      then record s { ttl = s.ttl + 1; congested = 0 }
      else record s { congested = s.congested + 1 }

  -- `checkCongestionFB`; `threshold` is `flowBender_T`, `limit` is `flowBender_N`
  unfoldable pub check_congestion : R → ℕ → Counts R → Counts R
  check_congestion threshold limit s =
      let part = fraction s.marked_acks s.total_acks in
      let s' =
        (if ltb 0 s.total_acks && gt part threshold
          then bend limit s
          else record s { congested = 0 }) in
      record s' { total_acks = 0; marked_acks = 0 }

  -- What FlowBender does at a timeout of the retransmission timer.
  unfoldable pub bend_at_timeout : Counts R → Counts R
  bend_at_timeout s = record s { ttl = s.ttl + 1; congested = 0; total_acks = 0; marked_acks = 0 }
