-- ===== src/Simulator/Leaves.antt =====
-- The traffic counts of the leaf switches.
use saps_extended.Base.{
  ℕ, zero, suc, ◌+◌, ◌%◌, ◌^◌, ◌<◌, ◌≡◌, refl, sym, ◌∙◌, ap, Bool, not, ◌&&◌, ltb, leb, ◌==◌,
  if◌then◌else◌, arith, Bool-cases, inl, inr, lt→ltb,
}
use saps_extended.Simulator.{Traffic, update, sum_others, incoming}

-- What is in the count already may be added in the end.
sum_others-start :
    (t : Traffic) (src dest k i a b : ℕ)
    → sum_others t src dest k i ((a + b) % 2 ^ 32) ≡ (sum_others t src dest k i a + b) % 2 ^ 32
unfolding sum_others
sum_others-start t src dest zero i a b = refl
sum_others-start t src dest (suc k) i a b = elim (Bool-cases (not (i == src) && not (i == dest))) [
  | inl counted ↦ rw counted (
      ap (sum_others t src dest k (i + 1)) (omega arith)
      ∙ sum_others-start t src dest k (i + 1) ((a + t.counts i dest) % 2 ^ 32) b)
  | inr other ↦ rw other (sum_others-start t src dest k (i + 1) a b)
]

incoming_inside :
    (t : Traffic) (src dest : ℕ)
    → src < t.num_leafs
    → dest < t.num_leafs
    → incoming t src dest ≡ sum_others t src dest t.num_leafs 0 0
unfolding incoming
incoming_inside t src dest p q = rw (lt→ltb src t.num_leafs p, lt→ltb dest t.num_leafs q)

module _ (t : Traffic) (s d c : ℕ) (h : s < t.num_leafs) (k : d < t.num_leafs) where
  -- The update changes the sum over the leaves from `i` to `i + n` for leaf `dest`.
  abbrev counts_in : ℕ → ℕ → ℕ → ℕ → Bool
  counts_in src dest n i =
      d == dest && (not (s == src) && (not (s == dest) && (leb i s && ltb s (i + n))))

  counts-update :
      (i dest : ℕ)
      → (update t s d c).counts i dest
        ≡ (if i == s && dest == d then (t.counts s d + c) % 2 ^ 32 else t.counts i dest)
  unfolding update
  counts-update i dest = rw (lt→ltb s t.num_leafs h, lt→ltb d t.num_leafs k)

  sum_others-update :
      (src dest n i a : ℕ)
      → sum_others (update t s d c) src dest n i a ≡ (
          if counts_in src dest n i
          then (sum_others t src dest n i a + c) % 2 ^ 32
          else sum_others t src dest n i a)
  unfolding sum_others
  sum_others-update src dest zero i a = ground arith
  sum_others-update src dest (suc n) i a = elim (Bool-cases (not (i == src) && not (i == dest))) [
    | inr other ↦ rw other (ground (arith, sum_others-update src dest n (i + 1) a))
    | inl counted ↦ elim (Bool-cases (i == s && dest == d)) [
      | inr miss ↦
          let same : (update t s d c).counts i dest ≡ t.counts i dest =
            counts-update i dest ∙ rw miss in
          rw (counted, same)
            (ground (arith, sum_others-update src dest n (i + 1) ((a + t.counts i dest) % 2 ^ 32)))
      | inl hit ↦
          let new : (a + (update t s d c).counts i dest) % 2 ^ 32
              ≡ ((a + t.counts i dest) % 2 ^ 32 + c) % 2 ^ 32 =
            ground (arith, counts-update i dest) in
          rw (counted, new)
            (ground (
              arith,
              sum_others-update src dest n (i + 1) (((a + t.counts i dest) % 2 ^ 32 + c) % 2 ^ 32),
              sum_others-start t src dest n (i + 1) ((a + t.counts i dest) % 2 ^ 32) c,
            ))
    ]
  ]

  num_leafs-update : (update t s d c).num_leafs ≡ t.num_leafs
  unfolding update
  num_leafs-update = rw (lt→ltb s t.num_leafs h, lt→ltb d t.num_leafs k)

  counted-update :
      (src dest : ℕ)
      → sum_others (update t s d c) src dest t.num_leafs 0 0 ≡ (
          if d == dest && (not (s == src) && not (s == dest))
          then (sum_others t src dest t.num_leafs 0 0 + c) % 2 ^ 32
          else sum_others t src dest t.num_leafs 0 0)
  counted-update src dest = ground (arith, sum_others-update src dest t.num_leafs 0 0)

  -- For leaves that exist: an update adds its change, modulo 2^32, to the incoming traffic of a
  -- pair of leaves if it is about the same destination and its source is neither of the two;
  -- otherwise it leaves the incoming traffic of the pair alone.
  pub incoming-update :
      (src dest : ℕ)
      → src < t.num_leafs
      → dest < t.num_leafs
      → incoming (update t s d c) src dest ≡ (
          if d == dest && (not (s == src) && not (s == dest))
          then (incoming t src dest + c) % 2 ^ 32
          else incoming t src dest)
  incoming-update src dest p q =
      incoming_inside (update t s d c) src dest (omega (arith, num_leafs-update))
        (omega (arith, num_leafs-update))
      ∙ (ap (λ n. sum_others (update t s d c) src dest n 0 0) num_leafs-update
          ∙ (counted-update src dest
              ∙ ap
                  (λ x.
                    if d == dest && (not (s == src) && not (s == dest))
                    then (x + c) % 2 ^ 32
                    else x)
                  (sym (incoming_inside t src dest p q))))
