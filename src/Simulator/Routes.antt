-- ===== src/Simulator/Routes.antt =====
-- The routes that `populate_flat_classifiers` adds, with and without holes in the table.
use saps_extended.Base.{
  ℕ, zero, suc, ◌+◌, ◌≤◌, ◌<◌, ◌≡◌, refl, ap, List, [], ◌++◌, Option, some, arith, Bool, false,
  ◌||◌, ◌&&◌, not, ◌==◌, ◌∙◌, ◌∷◌, ltb, leb, lt→ltb, le→not-ltb, length,
}
use saps_extended.Base.Int.{ℤ}
use saps_extended.Simulator.{
  NodeList, node_at, Setup, table_size, add_route, unless_null, routes_from, check, populate,
  populate_flat,
}
use saps_extended.Simulator.Tables.{
  added, sizes, early, known, when, all_routes, added-all_routes, sizes-all_routes,
  early-all_routes,
}
use saps_extended.Simulator.Nodes.{held, Roomy, check-Roomy}

-- The node to which something is done.
abbrev pub src : Setup → ℕ
src (table_size i n) = i
src (add_route i j nh) = i

-- Something in the list is done to node `i`.
abbrev pub touches : ℕ → List Setup → Bool
touches i [] = false
touches i (x ∷ xs) = (src x == i) || touches i xs

module _ {A : Type 0} (lookup_flat : ℕ → ℕ → ℤ) (s : NodeList A) (nn : ℕ) where
  populate_end : (fuel i : ℕ) → nn ≤ i → populate fuel lookup_flat s nn i ≡ []
  unfolding populate
  populate_end zero i h = refl
  populate_end (suc fuel) i h = rw (le→not-ltb i nn h)

  populate_all :
      (fuel i : ℕ)
      → ((j : ℕ) → j < nn → (node : A) × (node_at s j ≡ some node))
      → i + fuel ≡ nn
      → populate fuel lookup_flat s nn i ≡ all_routes lookup_flat nn fuel i
  unfolding populate unless_null
  populate_all zero i full h = refl
  populate_all (suc fuel) i full h =
      let (node, at) = full i (omega arith) in
      rw (lt→ltb i nn (omega arith), at)
        (ap (λ r. (table_size i nn ∷ routes_from lookup_flat i nn 0) ++ r)
          (populate_all fuel (i + 1) full (omega arith)))

-- When the table exists, with at least the entries that size_ counts and a node at every number
-- below nn_, and SMALL_LEN is not 0, populate_flat_classifiers adds to each node below nn_
-- exactly one route to each other node below nn_ for which lookup_flat gives a number from 0 on,
-- with this number as the next hop, and no other route; each of these nodes gets the table size
-- nn_ once, before its routes, and no other node does.
pub populate_flat_lem :
    {A : Type 0} (lookup_flat : ℕ → ℕ → ℤ) (small_len nn : ℕ) (xs : List (Option A)) (size : ℕ)
    → 0 < small_len
    → size ≤ length xs
    → ((j : ℕ)
        → j < nn
        → (node : A) × (held (record { nodelist = some xs; size = size }) j ≡ some node))
    → let r = populate_flat lookup_flat small_len nn (record { nodelist = some xs; size = size }) in
      ((i j : ℕ)
        → added i j r ≡ when (ltb i nn && (ltb j nn && not (i == j))) (known (lookup_flat i j)))
      × ((i : ℕ) → sizes i r ≡ when (ltb i nn) (nn ∷ []))
      × ((i : ℕ) → early i r ≡ false)
unfolding populate_flat
populate_flat_lem {A} lookup_flat small_len nn xs size p h full = (
  λ i j.
      ap (added i j) all
      ∙ (added-all_routes lookup_flat i j nn nn 0
          ∙ ap (λ b. when (b && (ltb j nn && not (i == j))) (known (lookup_flat i j)))
              (from_zero i)),
  λ i.
      ap (sizes i) all
      ∙ (sizes-all_routes lookup_flat i nn nn 0 ∙ ap (λ b. when b (nn ∷ [])) (from_zero i)),
  λ i. ap (early i) all ∙ early-all_routes lookup_flat i nn nn 0,
)
  where
    s : NodeList A
    s = record { nodelist = some xs; size = size }

    roomy : Roomy nn s (check small_len nn s)
    roomy = check-Roomy small_len nn s p (record { room = h })

    found : (j : ℕ) → j < nn → (node : A) × (node_at (check small_len nn s) j ≡ some node)
    found j k = let (node, at) = full j k in (node, ground (arith, at, roomy.same j, roomy.fits))

    from_zero : (i : ℕ) → (leb 0 i && ltb i (0 + nn)) ≡ ltb i nn
    from_zero i = ground arith

    all : populate nn lookup_flat (check small_len nn s) nn 0 ≡ all_routes lookup_flat nn nn 0
    all = populate_all lookup_flat (check small_len nn s) nn nn 0 found (omega arith)
