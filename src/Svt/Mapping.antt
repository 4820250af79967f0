-- ===== src/Svt/Mapping.antt =====
-- The choice of `svtMapping` for a new flow, after the loop over the failed links, and its change
-- for a flow that has grown. `Random::integer` and the answer of `get-incoming-traffic` are parameters.
pub mod Valid
pub mod Spray
pub mod Stuck
use saps_extended.Base.{
  ℕ, ◌+◌, ◌*◌, ◌-◌, ◌/◌, Bool, true, false, not, ◌&&◌, ◌||◌, Option, none, some, List, [], ◌∷◌, ltb,
  ◌==◌, if◌then◌else◌,
}
use saps_extended.Uplinks.{Svts, next_valid_link}
use saps_extended.Svt.{Tables, svts_of}

-- What the flow and the schemes's settings give; `failure_ratio` is not 0, since the code divides
-- by it, and `dynamic` says that `dynamicMapping_` is 1, as `incoming` that the count of incoming
-- traffic is not 0.
pub record Flow : Type 0 where
  pub num_uplinks : ℕ
  pub failure_ratio : ℕ
  pub capacity : ℕ
  pub size : ℕ
  pub threshold : ℕ
  pub threshold_gl : ℕ
  pub to_failed_leaf : Bool
  pub dynamic : Bool
  pub healthy_path_only : Bool
  pub da_spray_only : Bool
  pub incoming : Bool

-- The results of the three calls of `Random::integer`, by their bound.
pub record Draws : Type 0 where
  pub total : ℕ → ℕ
  pub healthy : ℕ → ℕ
  pub indirect : ℕ → ℕ

-- `partialFailurePaths_BW`
pub partial_bw : Flow → Tables → ℕ
partial_bw f t = t.direct_partial * (f.capacity / f.failure_ratio)

-- `healthyPaths_BW`
pub healthy_bw : Flow → Tables → ℕ
healthy_bw f t = (f.num_uplinks - t.direct_partial - t.direct_full) * f.capacity

-- `total_BW`
pub total_bw : Flow → Tables → ℕ
total_bw f t =
    let total = partial_bw f t + healthy_bw f t in
    if f.to_failed_leaf then total * (f.num_uplinks - 1) else total

-- `indirectFailurePaths_BW`
pub indirect_bw : Flow → Tables → ℕ
indirect_bw f t = (t.indirect_full + t.indirect_partial) * f.capacity

-- The mapping among the tables 10, 11 and 12.
pub choose_da : Flow → Tables → Draws → ℕ
choose_da f t r =
    if (ltb f.size f.threshold_gl || f.dynamic)
      && ltb (r.healthy (healthy_bw f t)) (indirect_bw f t)
    then if ltb (r.indirect (indirect_bw f t)) (t.indirect_partial * f.capacity) then 11 else 12
    else 10

-- `svtMapping` of the flow.
pub choose : Flow → Tables → Draws → ℕ
choose f t r =
    if (ltb f.size f.threshold || f.dynamic)
      && not f.healthy_path_only
      && ltb (r.total (total_bw f t)) (partial_bw f t)
    then 1
    else if not f.healthy_path_only
        && not f.da_spray_only
        && ltb 0 (t.indirect_full + t.indirect_partial)
        && f.incoming
    then choose_da f t r
    else 0

-- What the remapping of a flow reads: the bytes that it has sent, and the settings. `dynamic` says
-- that `dynamicMapping_` is not 0.
pub record Sent : Type 0 where
  pub bytes : ℕ
  pub threshold : ℕ
  pub threshold_gl : ℕ
  pub dynamic : Bool
  pub da_spray_only : Bool

-- The flow's mapping, changed when the flow has passed its table's threshold.
pub remap : Sent → ℕ → ℕ
remap s mapping =
    if s.dynamic && (mapping == 1 || mapping == 11 || mapping == 12)
    then if mapping == 1 && ltb s.threshold s.bytes
      then if s.da_spray_only then 0 else 10
      else if (mapping == 11 || mapping == 12) && ltb s.threshold_gl s.bytes
      then 10
      else mapping
    else mapping

-- A new flowcell with more than one failed link: the mapping, and the link, or `none` if the search
-- of the table does not end.
unfoldable pub spray_valid : Sent → Svts → ℕ → ℕ → ℕ → ℕ × Option ℕ
spray_valid s tables num_uplinks mapping link_id =
    let m = remap s mapping in (m, next_valid_link tables m num_uplinks link_id)

go_on : ℕ × Option ℕ → (ℕ → ℕ → Option (List ℕ)) → Option (List ℕ)
go_on (m, none) rest = none
go_on (m, some l) rest = elim (rest m l) [ none ↦ none | some ls ↦ some (l ∷ ls) ]

-- The links of a sequence of new flowcells.
pub flowcells : List Sent → Svts → ℕ → ℕ → ℕ → Option (List ℕ)
unfolding go_on
flowcells [] tables num_uplinks mapping link_id = some []
flowcells (s ∷ sents) tables num_uplinks mapping link_id =
    go_on (spray_valid s tables num_uplinks mapping link_id) (flowcells sents tables num_uplinks)
