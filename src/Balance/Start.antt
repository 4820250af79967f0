-- ===== src/Balance/Start.antt =====
-- The first packet of a flow: its first link, its weights and its turns.
use saps_extended.Base.{ℕ, ◌+◌, ◌*◌, ◌-◌, ◌%◌, true, not, ◌&&◌, ◌||◌, ltb, if◌then◌else◌}
use saps_extended.Svt.{no_links, svts_of, sort_links}
use saps_extended.Svt.Mapping.{Flow, Draws, choose}
use saps_extended.Balance.{Scheme, Lb, num_failures, first_failed, to_first}
use saps_extended.Balance.Weights.{uplink_ratio, weight_of, total_of}

-- linkID_ = (failedLinks[0].spine + 1) % numUplinks
abbrev pub after_first : Scheme → Lb → Lb
after_first c s = record s { link_id = ((first_failed c).spine + 1) % c.num_uplinks }

-- The tables and the mapping, where there is more than one failed link.
unfoldable pub start_tables : Scheme → Flow → Draws → Lb → Lb
start_tables c f r s =
    let t = sort_links c.src_leaf c.dest_leaf c.links no_links in
    if ltb 1 (num_failures c)
    then record s {
      tables = svts_of t;
      mapping = choose f t r;
      direct_failures = t.direct_failures;
      direct_partial = t.direct_partial;
    }
    else if ltb 0 (num_failures c)
    then record s { tables = svts_of no_links }
    else s

-- The weights of the links, added to the sum so far.
unfoldable pub start_weights : Scheme → (ℕ → ℕ) → Lb → Lb
start_weights c w s = record s {
  weights = w;
  total_weights = s.total_weights + total_of w c.num_uplinks;
}

-- A flow from or to a failed leaf.
unfoldable pub start_failed : Scheme → Lb → Lb
start_failed c s =
    if c.round_robin
    then if c.selective
      then if s.poor_path
        then record (if ltb 1 (num_failures c) then s else to_first c s) { hashed = true }
        else if c.da_flow && ltb 0 (num_failures c)
        then s
        else if ltb 1 (num_failures c)
        then s
        else after_first c s
      else if ltb 1 (num_failures c)
      then record s { rfactor = (c.num_uplinks - s.direct_failures) * s.failure_ratio }
      else record s { rfactor = (c.num_uplinks - 1) * s.failure_ratio }
    else start_weights c (λ i. weight_of (uplink_ratio c.links c.src_leaf c.dest_leaf i)) s

-- Any other flow.
unfoldable pub start_good : Scheme → Lb → Lb
start_good c s =
    if c.failure_aware
    then if not c.round_robin
      then start_weights c (λ i. 10) s
      else if c.selective
      then if s.poor_path
        then record (if ltb 1 (num_failures c) then s else to_first c s) { hashed = true }
        else if ltb 1 (num_failures c)
        then s
        else after_first c s
      else record s { failure_ratio = 1; rfactor = c.num_uplinks - 1 }
    else record s { failure_ratio = 1; rfactor = c.num_uplinks - 1 }

-- The whole initialization; the counters of the agent are those of its constructor.
unfoldable pub start : Scheme → Flow → Draws → Lb → Lb
start c f r s =
    let s' = start_tables c f r (record s { link_id = c.num_uplinks - 1; rfactor = 0 }) in
    let s'' =
      if c.failure_aware && (c.from_failed || c.to_failed)
      then start_failed c s'
      else start_good c s' in
    record s'' { flow_cell_mod = c.flowcell_size * s''.rfactor }
