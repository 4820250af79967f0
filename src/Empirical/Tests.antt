-- ===== src/Empirical/Tests.antt =====
-- A table of four entries, and a file of three lines.
use saps_extended.Base.{ℕ, ◌*◌, ◌≤◌, ◌<◌, ◌≡◌, refl, List, [], ◌∷◌, get_or, arith}
use saps_extended.Empirical.{Table, lookup, load_cdf}
use saps_extended.Empirical.Search.{lookup_lem}
use saps_extended.Empirical.Load.{IsTable, load_cdf_lem}

-- The probabilities 0, 10, 20, 30.
abbrev tens : ℕ → ℕ
tens i = i * 10

lookup_lem_example :
    (lookup 4 tens 15 < 4)
    × (15 ≤ tens (lookup 4 tens 15))
    × ((i : ℕ) → i < lookup 4 tens 15 → tens i < 15)
lookup_lem_example = lookup_lem tens 15 4 (λ i j h k. omega arith) (omega arith) (omega arith)

abbrev one_entry : Table ℕ
one_entry = record { table = 0 ∷ []; max_entry = 1; num_entry = 0 }

abbrev file : List ℕ
file = 5 ∷ 6 ∷ 7 ∷ []

load_cdf_lem_example :
    let r = load_cdf 0 one_entry file in
    IsTable 0 r × (r.num_entry ≡ 3) × ((i : ℕ) → i < 3 → get_or r.table i 0 ≡ get_or file i 0)
load_cdf_lem_example = load_cdf_lem 0 one_entry file refl (omega arith)
