-- ===== src/Uplinks.antt =====
-- The choice of an uplink by `class TcpAgent` of tcp/tcp.cc: the failed links that it knows, and
-- the step to the next link of the table that the flow is mapped to.
-- Leaf, spine and link numbers are not negative.
pub mod Next
pub mod Failed
mod Tests
use saps_extended.Base.{
  ℕ, zero, suc, ◌+◌, ◌%◌, List, [], ◌∷◌, Bool, true, false, not, ◌&&◌, ◌||◌, Option, none, some,
  ◌==◌, if◌then◌else◌,
}
use saps_extended.Base.Int.{ℤ, pos, negsuc, eqb_ℤ}

-- `struct failedLink`; a ratio of 100 is a full failure.
pub record FailedLink : Type 0 where
  pub leaf : ℕ
  pub spine : ℕ
  pub failure_ratio : ℕ

-- The condition of the loop in `isSpineFailed`: the link joins the spine to the source's or to the
-- destination's leaf.
abbrev pub concerns : ℕ → ℕ → ℕ → FailedLink → Bool
concerns src_leaf dest_leaf spine l =
    (l.leaf == src_leaf || l.leaf == dest_leaf) && (spine == l.spine)

-- `isSpineFailed`, for the links `failedLinks[0]` to `failedLinks[numFailures_ - 1]`
unfoldable pub is_spine_failed : List FailedLink → ℕ → ℕ → ℕ → ℕ
is_spine_failed [] src_leaf dest_leaf spine = 0
is_spine_failed (l ∷ links) src_leaf dest_leaf spine =
    if concerns src_leaf dest_leaf spine l
    then if l.failure_ratio == 100 then 2 else 1
    else is_spine_failed links src_leaf dest_leaf spine

-- The five tables that a flow may be mapped to, by `svtMapping`.
pub record Svts : Type 0 where
  pub no_failure : ℕ → ℤ
  pub partial_failure : ℕ → ℤ
  pub da_no_failure : ℕ → ℤ
  pub da_partial_failure : ℕ → ℤ
  pub da_full_failure : ℕ → ℤ

unfoldable pub table_of : Svts → ℕ → Option (ℕ → ℤ)
table_of s mapping =
    if mapping == 0
    then some s.no_failure
    else if mapping == 1
    then some s.partial_failure
    else if mapping == 10
    then some s.da_no_failure
    else if mapping == 11
    then some s.da_partial_failure
    else if mapping == 12
    then some s.da_full_failure
    else none

-- `while (svt[linkID_]==-1) linkID_ = (linkID_ + 1) % numUplinks;` on fuel; `none` if it runs out
unfoldable pub skip_invalid : ℕ → ℕ → (ℕ → ℤ) → ℕ → Option ℕ
skip_invalid zero num_uplinks svt link_id = none
skip_invalid (suc fuel) num_uplinks svt link_id =
    let rest = skip_invalid fuel num_uplinks svt ((link_id + 1) % num_uplinks) in
    if eqb_ℤ (svt link_id) (negsuc 0) then rest else some link_id

-- The loop in the table that the flow is mapped to, if it is mapped to one.
unfoldable pub skip_in : Option (ℕ → ℤ) → ℕ → ℕ → Option ℕ
skip_in none num_uplinks link_id = some link_id
skip_in (some svt) num_uplinks link_id = skip_invalid num_uplinks num_uplinks svt link_id

-- `nextValidLink`: the new `linkID_`; `none` says that the loop does not end within one round.
unfoldable pub next_valid_link : Svts → ℕ → ℕ → ℕ → Option ℕ
next_valid_link s mapping num_uplinks link_id =
    skip_in (table_of s mapping) num_uplinks ((link_id + 1) % num_uplinks)
