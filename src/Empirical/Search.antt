-- ===== src/Empirical/Search.antt =====
-- The search in the table finds the first entry that is not below the number.
use saps_extended.Base.{
  ℕ, zero, suc, ◌+◌, ◌-◌, ◌/◌, ◌≤◌, ◌<◌, ◌≡◌, ltb, leb, arith, Bool-cases, inl, inr,
}
use saps_extended.Empirical.{search_table, lookup}

module _ (cdf : ℕ → ℕ) (u n : ℕ) (sorted : (i j : ℕ) → i ≤ j → j < n → cdf i ≤ cdf j) where
  search_table_lem :
      (fuel lo hi : ℕ)
      → lo ≤ hi
      → hi < lo + fuel
      → hi < n
      → u ≤ cdf hi
      → ((i : ℕ) → i < lo → cdf i < u)
      → let k = search_table fuel cdf u lo hi in
        (k ≤ hi) × (u ≤ cdf k) × ((i : ℕ) → i < k → cdf i < u)
  unfolding search_table
  search_table_lem zero lo hi p q in_table top below = absurd (omega arith)
  search_table_lem (suc fuel) lo hi p q in_table top below = elim (Bool-cases (ltb lo hi)) [
    | inr done ↦ let e : lo ≡ hi = ground arith in rw done (p, rw e top, below)
    | inl more ↦ elim (Bool-cases (ltb (cdf ((lo + hi) / 2)) u)) [
      | inl right ↦
          rw (more, right)
            (search_table_lem fuel ((lo + hi) / 2 + 1) hi (ground arith) (ground arith) in_table top
              (λ i h. ground (arith, sorted i ((lo + hi) / 2))))
      | inr left ↦
          let (a, b, c) =
            search_table_lem fuel lo ((lo + hi) / 2) (ground arith) (ground arith) (ground arith)
              (ground arith) below in
          rw (more, left) (ground arith, b, c)
    ]
  ]

  -- In a table of at least one entry, with probabilities that do not fall and a last one that is
  -- not below the number, lookup gives the first entry that is not below the number.
  pub lookup_lem :
      0 < n
      → u ≤ cdf (n - 1)
      → let k = lookup n cdf u in (k < n) × (u ≤ cdf k) × ((i : ℕ) → i < k → cdf i < u)
  unfolding lookup
  lookup_lem p top = elim (Bool-cases (leb u (cdf 0))) [
    | inl first ↦ rw first (p, ground arith, λ i h. absurd (omega arith))
    | inr later ↦
        let (a, b, c) =
          search_table_lem n 1 (n - 1) (ground arith) (omega arith) (omega arith) top
            (λ i h. ground arith) in
        rw later (omega arith, b, c)
  ]
