-- ===== src/Balance/Pick.antt =====
-- The choice of the link for a packet.
pub mod Bounds
pub mod Crash
use saps_extended.Base.{
  ℕ, ◌+◌, ◌*◌, ◌%◌, ◌/◌, Bool, true, false, not, ◌&&◌, ◌||◌, Option, none, some, List, [], ◌∷◌, ltb,
  ◌==◌, if◌then◌else◌,
}
use saps_extended.Svt.Mapping.{Flow, Draws, Sent, spray_valid}
use saps_extended.Balance.{
  Outcome, ok, divides_by_zero, endless, ◌>>=◌, Scheme, Lb, Moment, num_failures, first_failed,
  advance, new_cell, unaware,
}
use saps_extended.Balance.Start.{start}
use saps_extended.Balance.Weights.{weighted}
use saps_extended.Balance.Failure.{by_case}

abbrev pub sent_of : Scheme → Moment → Sent
sent_of c p = record {
  bytes = p.bytes;
  threshold = c.threshold;
  threshold_gl = c.threshold_gl;
  dynamic = ltb 0 c.dynamic;
  da_spray_only = c.da_spray_only == 1;
}

pub sprayed : Lb → ℕ × Option ℕ → Outcome Lb
sprayed s (m, none) = endless
sprayed s (m, some l) = ok (record s { mapping = m; link_id = l })

-- A new flowcell within the flow's table.
unfoldable pub spray : Scheme → Moment → Lb → Outcome Lb
spray c p s = sprayed s (spray_valid (sent_of c p) s.tables c.num_uplinks s.mapping s.link_id)

-- `realisticFailure_` and `roundRobin_`
unfoldable pub pick_detected : Scheme → Moment → Lb → Outcome Lb
pick_detected c p s =
    if c.selective && ltb 1 (num_failures c) && new_cell c p then spray c p s else by_case c p s

-- The next link, which may be that of the failed spine.
unfoldable pub at_failed : Scheme → Moment → Lb → Outcome Lb
at_failed c p s =
    if s.link_id == (first_failed c).spine
    then if c.selective && (c.from_failed || c.to_failed) && not s.poor_path
      then ok (advance c s)
      else if s.flow_cell_mod == 0
      then divides_by_zero
      else if not (p.packs % s.flow_cell_mod == 0)
      then ok (advance c s)
      else ok (record s {
        flow_cell_mod = s.flow_cell_mod + c.flowcell_size + c.flowcell_size * s.rfactor;
      })
    else ok s

-- `roundRobin_`, with a failure that lasts
unfoldable pub pick_fixed : Scheme → Moment → Lb → Outcome Lb
pick_fixed c p s =
    if c.selective && s.poor_path && (c.from_failed || c.to_failed)
    then ok s
    else if new_cell c p
    then at_failed c p (advance c s)
    else ok s

-- The link of a packet that is not the first.
unfoldable pub pick : Scheme → Moment → Lb → Outcome Lb
pick c p s =
    if not c.failure_aware
    then ok (unaware c p s)
    else if c.realistic
    then if c.round_robin
      then if p.detected then pick_detected c p s else ok (unaware c p s)
      else if p.detected
      then ok (weighted c p s)
      else ok (unaware c p s)
    else if c.round_robin
    then pick_fixed c p s
    else ok (weighted c p s)

-- The block for `flowcell_` in `output`.
unfoldable pub balance : Scheme → Flow → Draws → Moment → Lb → Outcome Lb
balance c f r p s = pick c p (if p.packs == 0 then start c f r s else s)

-- What the packet's headers say: `linkID` and `flowcellUplink_`, and `flowcellSeq_`.
pub record Labels : Type 0 where
  pub link_id : ℕ
  pub flowcell_seq : ℕ

pub labels : Scheme → Moment → Lb → Labels
labels c p s = record { link_id = s.link_id; flowcell_seq = p.packs / c.flowcell_size }

-- The packets of a flow after its first.
pub run : Scheme → List Moment → Lb → Outcome Lb
run c [] s = ok s
run c (p ∷ moments) s = pick c p s >>= run c moments
