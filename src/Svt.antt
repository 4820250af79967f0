-- ===== src/Svt.antt =====
-- The sorting of spines by their failed links at the first packet of a flow, in
-- `TcpAgent::output` of tcp/tcp.cc, and the choice of the table that the flow is mapped to.
-- The code's tables hold 1 or -1 for each spine; a counter is not negative.
pub mod Standing
pub mod Sorted
pub mod Links
pub mod Mapping
pub mod Parse
mod Tests
use saps_extended.Base.{
  ℕ, suc, ◌+◌, ◌*◌, ◌-◌, ◌/◌, List, [], ◌∷◌, Bool, true, false, not, ◌&&◌, ◌||◌, ltb, ◌==◌,
  if◌then◌else◌,
}
use saps_extended.Base.Int.{ℤ, pos, negsuc, eqb_ℤ}
use saps_extended.Uplinks.{FailedLink, Svts}

-- The six tables and the counters of the paths.
pub record Tables : Type 0 where
  pub no_failure : ℕ → ℤ
  pub partial_failure : ℕ → ℤ
  pub full_failure : ℕ → ℤ
  pub da_no_failure : ℕ → ℤ
  pub da_partial_failure : ℕ → ℤ
  pub da_full_failure : ℕ → ℤ
  pub direct_failures : ℕ
  pub direct_partial : ℕ
  pub direct_full : ℕ
  pub indirect_partial : ℕ
  pub indirect_full : ℕ

-- The tables among which the flow's mapping chooses.
unfoldable pub svts_of : Tables → Svts
svts_of t = record {
  no_failure = t.no_failure;
  partial_failure = t.partial_failure;
  da_no_failure = t.da_no_failure;
  da_partial_failure = t.da_partial_failure;
  da_full_failure = t.da_full_failure;
}

-- The tables before any failed link, with the counters of the constructor.
pub no_links : Tables
no_links = record {
  no_failure = λ i. pos 1;
  partial_failure = λ i. negsuc 0;
  full_failure = λ i. negsuc 0;
  da_no_failure = λ i. pos 1;
  da_partial_failure = λ i. negsuc 0;
  da_full_failure = λ i. negsuc 0;
  direct_failures = 0;
  direct_partial = 0;
  direct_full = 0;
  indirect_partial = 0;
  indirect_full = 0;
}

-- table[i] = v
abbrev pub put : (ℕ → ℤ) → ℕ → ℤ → ℕ → ℤ
put table i v k = if k == i then v else table k

-- table[i] == 1, table[i] == -1
abbrev pub is_in : (ℕ → ℤ) → ℕ → Bool
is_in table i = eqb_ℤ (table i) (pos 1)

abbrev pub is_out : (ℕ → ℤ) → ℕ → Bool
is_out table i = eqb_ℤ (table i) (negsuc 0)

-- `if(failureRatio==100) … else …` of a first direct failure
pub count_direct : Tables → ℕ → Bool → Tables
count_direct t spine full =
    if full
    then record t {
      full_failure = put t.full_failure spine (pos 1);
      direct_full = t.direct_full + 1;
    }
    else record t {
      partial_failure = put t.partial_failure spine (pos 1);
      direct_partial = t.direct_partial + 1;
    }

-- A spine that was among the indirect ones is taken from there.
pub drop_indirect : Tables → ℕ → Tables
drop_indirect t spine =
    if is_in t.da_partial_failure spine
    then record t {
      da_partial_failure = put t.da_partial_failure spine (negsuc 0);
      indirect_partial = t.indirect_partial - 1;
    }
    else if is_in t.da_full_failure spine
    then record t {
      da_full_failure = put t.da_full_failure spine (negsuc 0);
      indirect_full = t.indirect_full - 1;
    }
    else t

-- The first direct failure of a spine.
pub first_direct : Tables → ℕ → Bool → Tables
first_direct t spine full =
    let out = record t {
      no_failure = put t.no_failure spine (negsuc 0);
      da_no_failure = put t.da_no_failure spine (negsuc 0);
      direct_failures = t.direct_failures + 1;
    } in
    drop_indirect (count_direct out spine full) spine

-- A spine that was among the partially failed ones is taken from there.
pub drop_partial : Tables → ℕ → Tables
drop_partial t spine =
    if is_in t.partial_failure spine
    then record t {
      partial_failure = put t.partial_failure spine (negsuc 0);
      direct_partial = t.direct_partial - 1;
    }
    else t

-- A further direct failure of a spine.
pub again_direct : Tables → ℕ → Bool → Tables
again_direct t spine full =
    if full && not (is_in t.full_failure spine)
    then drop_partial
        (record t {
          full_failure = put t.full_failure spine (pos 1);
          direct_full = t.direct_full + 1;
        })
        spine
    else t

-- An indirect failure.
pub indirect : Tables → ℕ → Bool → Tables
indirect t spine full =
    if is_out t.no_failure spine || is_out t.da_no_failure spine
    then t
    else if full
    then record t {
      da_full_failure = put t.da_full_failure spine (pos 1);
      indirect_full = t.indirect_full + 1;
      da_no_failure = put t.da_no_failure spine (negsuc 0);
    }
    else record t {
      da_partial_failure = put t.da_partial_failure spine (pos 1);
      indirect_partial = t.indirect_partial + 1;
      da_no_failure = put t.da_no_failure spine (negsuc 0);
    }

-- One round of the loop, for a failed link at `spine`; `direct` says that it joins the spine to the
-- source's or the destination's leaf, `full` that its ratio is 100.
pub sort_spine : Tables → ℕ → Bool → Bool → Tables
sort_spine t spine direct full =
    if direct
    then if is_in t.no_failure spine then first_direct t spine full else again_direct t spine full
    else indirect t spine full

abbrev pub is_direct : ℕ → ℕ → FailedLink → Bool
is_direct src_leaf dest_leaf l = l.leaf == src_leaf || l.leaf == dest_leaf

abbrev pub is_full : FailedLink → Bool
is_full l = l.failure_ratio == 100

-- The loop over the failed links.
pub sort_links : ℕ → ℕ → List FailedLink → Tables → Tables
sort_links src dest [] t = t
sort_links src dest (l ∷ links) t =
    sort_links src dest links (sort_spine t l.spine (is_direct src dest l) (is_full l))
