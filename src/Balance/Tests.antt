-- ===== src/Balance/Tests.antt =====
-- Four uplinks; leaves 0 and 1. Spine 1 fails fully from leaf 0, spine 2 partially from leaf 1.
use saps_extended.Base.{ℕ, ◌+◌, ◌%◌, ◌<◌, ◌≡◌, ◌≢◌, refl, [], ◌∷◌, true, false, arith}
use saps_extended.Base.Int.{pos}
use saps_extended.MultiPath.Rotate.{Found}
use saps_extended.Uplinks.{FailedLink, is_spine_failed}
use saps_extended.Svt.Mapping.{Flow, Draws}
use saps_extended.Balance.{ok, divides_by_zero, Scheme, Lb, Moment, advance}
use saps_extended.Balance.Failure.{by_case}
use saps_extended.Balance.Start.{start}
use saps_extended.Balance.Wfcs.{status, wfcs, wfcs_many, rounds, round}
use saps_extended.Balance.Wfcs.Turns.{wanted, spines, turned, wfcs_many_lem, wfcs_many_blind}
use saps_extended.Balance.Weights.{uplink_ratio, weight_of, total_of, weighted}
use saps_extended.Balance.Weights.Draw.{Share, weighted_lem}
use saps_extended.Balance.Pick.{balance, pick, pick_detected, run}
use saps_extended.Balance.Pick.Bounds.{balance-link_id}
use saps_extended.Balance.Pick.Crash.{run_crash}

abbrev failed : ℕ → ℕ → ℕ → FailedLink
failed leaf spine ratio = record { leaf = leaf; spine = spine; failure_ratio = ratio }

-- WFCS, with a failure that is detected.
abbrev scheme : Scheme
scheme = record {
  num_uplinks = 4;
  flowcell_size = 43;
  failure_aware = true;
  realistic = true;
  round_robin = true;
  selective = false;
  failure_case = 1;
  healthy_path_only = false;
  da_spray_only = 0;
  da_flow = false;
  from_failed = true;
  to_failed = false;
  dynamic = 0;
  threshold = 100;
  threshold_gl = 5000;
  src_leaf = 0;
  dest_leaf = 1;
  links = failed 0 1 100 ∷ failed 1 2 10 ∷ [];
  stale = failed 0 0 0;
}

-- An agent as its constructor leaves it.
abbrev fresh : Lb
fresh = record {
  link_id = 0;
  rfactor = 30;
  flow_cell_mod = 0;
  failure_ratio = 10;
  toggle = 0;
  poor_path = false;
  hashed = false;
  mapping = 0;
  tables = record {
    no_failure = λ i. pos 1;
    partial_failure = λ i. pos 1;
    da_no_failure = λ i. pos 1;
    da_partial_failure = λ i. pos 1;
    da_full_failure = λ i. pos 1;
  };
  direct_failures = 0;
  direct_partial = 0;
  weights = λ i. 0;
  total_weights = 0;
}

abbrev flow : Flow
flow = record {
  num_uplinks = 4;
  failure_ratio = 10;
  capacity = 40;
  size = 1000;
  threshold = 100;
  threshold_gl = 5000;
  to_failed_leaf = false;
  dynamic = false;
  healthy_path_only = false;
  da_spray_only = false;
  incoming = false;
}

abbrev lowest : Draws
lowest = record { total = λ k. 0; healthy = λ k. 0; indirect = λ k. 0 }

abbrev moment : ℕ → Moment
moment n = record { packs = n; bytes = 1000; detected = true; random_weight = 15; random_link = 0 }

-- A flow that has sent 43 packets, and knows its two failures.
abbrev running : Lb
running = record fresh {
  link_id = 0;
  rfactor = 20;
  flow_cell_mod = 860;
  direct_failures = 2;
  direct_partial = 1;
}

abbrev landed : Lb
landed = record running { link_id = 3 }

lands : balance scheme flow lowest (moment 43) running ≡ ok landed
unfolding balance pick pick_detected by_case wfcs wfcs_many rounds round is_spine_failed
lands = refl

balance-link_id_example : landed.link_id < 4
balance-link_id_example =
    balance-link_id scheme flow lowest (moment 43) running {s' = landed} (omega arith) (omega arith)
      (omega arith) (λ h. omega arith) lands

-- From link 0 the full failure of spine 1 and the partial one of spine 2 are passed over.
wfcs_many_lem_example :
    (l : ℕ) × (wfcs_many scheme (moment 43) running ≡ ok (turned scheme (moment 43) running l))
    × (l < 4)
    × (status scheme l ≡ wanted (moment 43) running)
    × (d : ℕ) × Found (spines scheme (wanted (moment 43) running) 3) ((0 + 1) % 4) d l
unfolding is_spine_failed
wfcs_many_lem_example =
    wfcs_many_lem scheme 3 (moment 43) running 3 refl (omega arith) (omega arith) (omega arith) refl

-- Only spine 1 has failed; it is taken.
abbrev full_only : Scheme
full_only = record scheme { links = failed 0 1 100 ∷ failed 0 1 100 ∷ [] }

no_partial : (k : ℕ) → k < 4 → status full_only k ≢ 1
unfolding is_spine_failed
no_partial k h e = ground arith

wfcs_many_blind_example : wfcs_many full_only (moment 860) running ≡ ok (advance full_only running)
wfcs_many_blind_example =
    wfcs_many_blind full_only 3 (moment 860) running refl (omega arith) refl no_partial

abbrev weighing : Lb
weighing = record running { weights = λ i. weight_of (uplink_ratio scheme.links 0 1 i) }

weighted_lem_example :
    (l : ℕ) × (weighted scheme (moment 43) weighing ≡ record weighing { link_id = l })
    × (l < 4)
    × Share weighing.weights 15 l
    × (is_spine_failed scheme.links 0 1 l ≢ 2)
unfolding weight_of uplink_ratio total_of
weighted_lem_example = weighted_lem scheme (moment 43) weighing refl refl (omega arith)

-- SPPS, with a failure that lasts, for a flow between other leaves.
abbrev spps : Scheme
spps = record scheme { realistic = false; selective = true; from_failed = false }

run_crash_example :
    run spps (moment 0 ∷ moment 43 ∷ moment 86 ∷ moment 129 ∷ []) (start spps flow lowest fresh)
    ≡ divides_by_zero
run_crash_example =
    run_crash spps flow lowest fresh (moment 0 ∷ moment 43 ∷ moment 86 ∷ moment 129 ∷ [])
      (record {
        aware = refl;
        lasting = refl;
        in_turn = refl;
        selects = refl;
        not_from = refl;
        not_to = refl;
      })
      (omega arith) (refl, (refl, (refl, (refl, tt)))) (omega arith)
