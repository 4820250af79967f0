-- ===== src/Svt/Tests.antt =====
-- Four spines; leaves 0 and 1. Spine 1 fails fully from leaf 0, spine 2 partially from leaf 1, and
-- spine 3 partially from another leaf.
use saps_extended.Base.{
  ℕ, ◌<◌, ◌≡◌, refl, List, [], ◌∷◌, map, Bool, true, false, not, ◌&&◌, some, none, arith,
}
use saps_extended.Base.Int.{ℤ, pos}
use saps_extended.Uplinks.{FailedLink, table_of, skip_invalid}
use saps_extended.Svt.{Tables, no_links, svts_of, sort_links, is_direct}
use saps_extended.Svt.Standing.{all_healthy, stand}
use saps_extended.Svt.Sorted.{mark, Represents, sort_links-Represents}
use saps_extended.Svt.Links.{some_link, any_link, direct_full_link, sort_links_lem}
use saps_extended.Svt.Mapping.{Flow, Draws, Sent, choose, flowcells}
use saps_extended.Svt.Mapping.Spray.{All, flowcells_lem}
use saps_extended.Svt.Mapping.Stuck.{choose_stuck}
use saps_extended.Svt.Parse.{read_links}
use saps_extended.Svt.Parse.RoundTrip.{
  Numeral, Row, print, link_of, print_rows, value, number, read_links-print,
}

abbrev failed : ℕ → ℕ → ℕ → FailedLink
failed leaf spine ratio = record { leaf = leaf; spine = spine; failure_ratio = ratio }

abbrev three : List FailedLink
three = failed 0 1 100 ∷ failed 1 2 10 ∷ failed 5 3 10 ∷ []

sort_links-Represents_example :
    Represents 4 (sort_links 0 1 three no_links) (stand 0 1 three all_healthy)
sort_links-Represents_example = sort_links-Represents 0 1 4 three (omega arith)

sort_links_lem_example :
    let t : Tables = sort_links 0 1 three no_links in
    let failed : Bool = some_link (is_direct 0 1) 2 three in
    let full : Bool = some_link (direct_full_link 0 1) 2 three in
    (t.no_failure 2 ≡ mark (not failed))
    × (t.partial_failure 2 ≡ mark (failed && not full))
    × (t.full_failure 2 ≡ mark full)
    × (t.da_no_failure 2 ≡ mark (not (some_link any_link 2 three)))
sort_links_lem_example = sort_links_lem 0 1 4 three 2 (omega arith)

abbrev flow : Flow
flow = record {
  num_uplinks = 4;
  failure_ratio = 10;
  capacity = 40;
  size = 1000;
  threshold = 100;
  threshold_gl = 5000;
  to_failed_leaf = false;
  dynamic = false;
  healthy_path_only = false;
  da_spray_only = false;
  incoming = true;
}

abbrev lowest : Draws
lowest = record { total = λ k. 0; healthy = λ k. 0; indirect = λ k. 0 }

abbrev sent : Sent
sent = record {
  bytes = 90;
  threshold = 100;
  threshold_gl = 5000;
  dynamic = true;
  da_spray_only = false;
}

-- The flow is mapped to the spine with the indirect failure, until it has grown.
flowcells_lem_example :
    let t : Tables = sort_links 0 1 three no_links in
    let sents : List Sent = sent ∷ record sent { bytes = 6000 } ∷ [] in
    (ls : List ℕ) × (flowcells sents (svts_of t) 4 (choose flow t lowest) 3 ≡ some ls)
    × All (λ l. (l < 4) × (some_link (direct_full_link 0 1) l three ≡ false)) ls
flowcells_lem_example =
    flowcells_lem 0 1 3 three flow lowest (sent ∷ record sent { bytes = 6000 } ∷ []) 3 0
      (omega arith) (record { total_lt = λ k h. h; healthy_lt = λ k h. h; indirect_lt = λ k h. h })
      (omega arith) refl

abbrev both_failed : List FailedLink
both_failed = failed 0 0 10 ∷ failed 1 1 10 ∷ []

only_two : (k : ℕ) → k < 2 → some_link (is_direct 0 1) k both_failed ≡ true
only_two k h = ground arith

choose_stuck_example :
    let t : Tables = sort_links 0 1 both_failed no_links in
    (svt : ℕ → ℤ) × (table_of (svts_of t) (choose flow t lowest) ≡ some svt)
    × (skip_invalid 1000 2 svt 0 ≡ none)
choose_stuck_example =
    choose_stuck 0 1 1 both_failed flow lowest 1000 0 (omega arith) only_two (omega arith) refl
      (omega arith)

abbrev digit : ℕ → Numeral
digit d = record { first = d; others = [] }

abbrev rows : List Row
rows =
    record { leaf = digit 0; spine = digit 1; ratio = record { first = 1; others = 0 ∷ 0 ∷ [] } }
    ∷ record { leaf = digit 1; spine = digit 2; ratio = record { first = 1; others = 0 ∷ [] } }
    ∷ []

read_links-print_example : read_links 2 (pos 0) (print_rows rows) ≡ some (map link_of rows)
unfolding print_rows print value number
read_links-print_example = read_links-print rows (pos 0) (omega arith) (omega arith)
