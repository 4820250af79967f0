-- ===== src/Balance/Failure.antt =====
-- The cases of a detected failure, for a flow that is not sprayed by its table.
use saps_extended.Base.{Bool, true, false, not, ◌&&◌, ◌||◌, ltb, ◌==◌, if◌then◌else◌}
use saps_extended.Balance.{
  Outcome, ok, Scheme, Lb, Moment, num_failures, advance, to_first, skip_first, new_cell, unaware,
}
use saps_extended.Balance.Wfcs.{wfcs}

-- The flow keeps off the failed spine: it is plain SPPS, or it joins the failed leaf.
abbrev pub keeps_off : Scheme → Bool
keeps_off c = (not c.healthy_path_only && c.da_spray_only == 0) || (c.from_failed || c.to_failed)

-- The flow leaves the poor path.
unfoldable pub leave_poor : Scheme → Lb → Lb
leave_poor c s =
    let moved = advance c (record s { poor_path = false }) in
    if ltb 1 (num_failures c) then moved else skip_first c true moved

-- The next link of a flow off the poor path.
unfoldable pub next_healthy : Scheme → Lb → Lb
next_healthy c s =
    let moved = advance c s in
    if ltb 1 (num_failures c) then moved else skip_first c (keeps_off c) moved

-- A partial failure, for a flow on the poor path.
unfoldable pub poor_partial : Scheme → Moment → Lb → Lb
poor_partial c p s =
    let stays = if ltb 1 (num_failures c) then s else to_first c s in
    let thresh = if c.from_failed || c.to_failed then c.threshold else c.threshold_gl in
    if ltb 0 c.dynamic && ltb thresh p.bytes then leave_poor c s else stays

-- A partial failure, for a selective scheme.
unfoldable pub selective_partial : Scheme → Moment → Lb → Lb
selective_partial c p s =
    if c.da_flow && ltb 1 (num_failures c)
    then s
    else if s.poor_path
    then poor_partial c p s
    else if new_cell c p && ltb 0 p.packs
    then next_healthy c s
    else s

-- A full failure.
unfoldable pub full_failure : Scheme → Moment → Lb → Lb
full_failure c p s =
    if c.selective
    then if s.poor_path
      then if ltb 0 c.dynamic && ltb c.threshold_gl p.bytes
        then skip_first c true (advance c (record (to_first c s) { poor_path = false }))
        else to_first c s
      else if new_cell c p
      then skip_first c (keeps_off c) (advance c s)
      else s
    else if new_cell c p
    then skip_first c (c.from_failed || c.to_failed) (advance c s)
    else s

-- By `failureCase_`.
unfoldable pub by_case : Scheme → Moment → Lb → Outcome Lb
by_case c p s =
    if c.failure_case == 1
    then if c.selective then ok (selective_partial c p s) else wfcs c p s
    else if c.failure_case == 2
    then ok (full_failure c p s)
    else if c.selective
    then ok s
    else ok (unaware c p s)
