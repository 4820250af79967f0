-- ===== src/Balance/Wfcs.antt =====
-- The schemes that are not selective, for a partial failure: a partially failed spine has its turn
-- after `flowCellMod_` packets, a fully failed one never.
pub mod Turns
use saps_extended.Base.{
  ℕ, zero, suc, ◌+◌, ◌*◌, ◌%◌, Bool, true, false, not, ◌&&◌, ◌||◌, ltb, leb, ◌==◌, if◌then◌else◌,
}
use saps_extended.Uplinks.{FailedLink, is_spine_failed}
use saps_extended.Balance.{
  Outcome, ok, divides_by_zero, endless, ◌>>=◌, Scheme, Lb, Moment, num_failures, first_failed,
  advance, new_cell,
}

-- isSpineFailed(linkID_)
abbrev pub status : Scheme → ℕ → ℕ
status c spine = is_spine_failed c.links c.src_leaf c.dest_leaf spine

-- (ndatapack_ % flowCellMod_ == 0 && ndatapack_ > 0) || toggleWeakSpines_
abbrev pub weak_turn : Moment → Lb → Bool
weak_turn p s = (p.packs % s.flow_cell_mod == 0 && ltb 0 p.packs) || ltb 0 s.toggle

-- A partially failed spine takes its turn; after the last one the next turn is set.
unfoldable pub take_turn : Scheme → Lb → Lb
take_turn c s =
    if leb s.direct_partial (s.toggle + 1)
    then record s {
      toggle = 0;
      flow_cell_mod =
          s.flow_cell_mod + (c.flowcell_size * s.direct_partial + c.flowcell_size * s.rfactor);
    }
    else record s { toggle = s.toggle + 1 }

-- One round of the loop: whether `allChecksCleared` is set, and the state.
unfoldable pub round : Scheme → Moment → Lb → Outcome (Bool × Lb)
round c p s =
    if status c s.link_id == 2
    then ok (false, advance c s)
    else if s.flow_cell_mod == 0
    then divides_by_zero
    else if status c s.link_id == 1
    then if weak_turn p s then ok (true, take_turn c s) else ok (false, advance c s)
    else if weak_turn p s
    then ok (false, advance c s)
    else ok (true, s)

-- while(allChecksCleared==0 && i < numUplinks), with the rounds left
unfoldable pub rounds : ℕ → Scheme → Moment → Lb → Outcome (Bool × Lb)
rounds zero c p s = ok (false, s)
rounds (suc n) c p s = round c p s >>= λ r. elim (r.0) [ true ↦ ok r | false ↦ rounds n c p r.1 ]

-- More than one failed link.
unfoldable pub wfcs_many : Scheme → Moment → Lb → Outcome Lb
wfcs_many c p s =
    let s' = advance c s in
    if ltb 0 s.direct_failures then (rounds c.num_uplinks c p s' >>= λ r. ok r.1) else ok s'

-- One failed link.
unfoldable pub wfcs_one : Scheme → Moment → Lb → Outcome Lb
wfcs_one c p s =
    let s' = advance c s in
    if s'.link_id == (first_failed c).spine && (c.from_failed || c.to_failed)
    then if s'.flow_cell_mod == 0
      then divides_by_zero
      else if not (p.packs % s'.flow_cell_mod == 0) || (first_failed c).failure_ratio == 100
      then ok (advance c s')
      else ok (record s' {
        flow_cell_mod = s'.flow_cell_mod + c.flowcell_size + c.flowcell_size * s'.rfactor;
      })
    else ok s'

unfoldable pub wfcs : Scheme → Moment → Lb → Outcome Lb
wfcs c p s =
    if new_cell c p
    then if ltb 1 (num_failures c) then wfcs_many c p s else wfcs_one c p s
    else ok s
