-- ===== src/Simulator/Tests.antt =====
-- The simulator's tables at concrete nodes and leaves.
use saps_extended.Base.{
  false, ℕ, zero, suc, ◌<◌, ◌≡◌, refl, List, [], ◌∷◌, Option, none, some, arith, ltb, ◌&&◌, not,
  ◌==◌,
}
use saps_extended.Base.Int.{ℤ, pos, pos_part}
use saps_extended.Simulator.{NodeList, populate_flat}
use saps_extended.Simulator.Nodes.{held}
use saps_extended.Simulator.Tables.{added, sizes, early, known, when}
use saps_extended.Simulator.Routes.{populate_flat_lem}
use saps_extended.Simulator.Hier.{World}

abbrev two_nodes : List (Option ℕ)
two_nodes = some 3 ∷ some 4 ∷ []

-- The link to node `j` leads to it.
abbrev direct : ℕ → ℕ → ℤ
direct i j = pos j

populate_flat_lem_example :
    let r = populate_flat direct 4 2 (record { nodelist = some two_nodes; size = 2 }) in
    ((i j : ℕ) → added i j r ≡ when (ltb i 2 && (ltb j 2 && not (i == j))) (known (direct i j)))
    × ((i : ℕ) → sizes i r ≡ when (ltb i 2) (2 ∷ []))
    × ((i : ℕ) → early i r ≡ false)
populate_flat_lem_example =
    populate_flat_lem direct 4 2 two_nodes 2 (omega arith) (omega arith) (λ j h. node j h)
  where
    node :
        (j : ℕ)
        → j < 2
        → (n : ℕ) × (held (record { nodelist = some two_nodes; size = 2 }) j ≡ some n)
    node zero h = (3, refl)
    node (suc zero) h = (4, refl)
    node (suc (suc j)) h = absurd (omega arith)

-- Number 0 has no node, number 1 has one.
abbrev holed : NodeList ℕ
holed = record { nodelist = some (none ∷ some 4 ∷ []); size = 2 }

-- One level; node `n` has address `n`, and every other node is the next hop itself.
abbrev flat_world : World ℕ
flat_world = record {
  address = pos;
  nodeid = λ n. n;
  levels = 1;
  hier_addr = λ a k. pos_part a;
  elements_in_level = λ a k. 5;
  lookup_hier = λ a dest. pos 4;
}
