-- ===== src/Balance/Weights/Draw.antt =====
-- The draw of a link is by its weight, and never of a link whose failure is full.
use saps_extended.Base.{
  ℕ, zero, suc, ◌+◌, ◌<◌, ◌≤◌, ◌≡◌, ◌≢◌, ap, subst, List, [], ◌∷◌, true, arith, ltb, lt→ltb,
  Bool-cases, inl, inr,
}
use saps_extended.Uplinks.{FailedLink, is_spine_failed}
use saps_extended.Balance.{Scheme, Lb, Moment, new_cell}
use saps_extended.Balance.Weights.{uplink_ratio, weight_of, total_of, draw, weighted}

-- The random number falls on the link's share of the weights.
pub record Share (w : ℕ → ℕ) (random l : ℕ) : Type 0 where
  pub from : total_of w l ≤ random
  pub below : random < total_of w (suc l)

shift : (k n : ℕ) → k + suc n ≡ suc k + n
shift k n = omega arith

zero_add : (k : ℕ) → k ≡ 0 + k
zero_add k = omega arith

shift_zero : (k : ℕ) → k + 0 ≡ k
shift_zero k = omega arith

draw-Share :
    (n k : ℕ) (w : ℕ → ℕ) (random : ℕ)
    → total_of w k ≤ random
    → random < total_of w (k + n)
    → (l : ℕ) × (draw n w random (total_of w k) k ≡ (true, l)) × (l < k + n) × Share w random l
unfolding draw total_of
draw-Share zero k w random h below = absurd (omega (arith, ap (total_of w) (shift_zero k)))
draw-Share (suc n) k w random h below = elim (Bool-cases (ltb random (total_of w k + w k))) [
  | inl here ↦ (k, rw (here, draw), omega arith, record { from = h; below = ground arith })
  | inr on ↦
      let (l, e, lt, share) =
        draw-Share n (suc k) w random (ground arith) (omega (arith, ap (total_of w) (shift k n))) in
      (l, rw (on, draw) e, omega arith, share)
]

-- A link with a weight has no full failure that isSpineFailed reports.
weight-not_full :
    (links : List FailedLink) (src dest i : ℕ)
    → 0 < weight_of (uplink_ratio links src dest i)
    → is_spine_failed links src dest i ≢ 2
unfolding weight_of uplink_ratio is_spine_failed
weight-not_full [] src dest i h e = ground arith
weight-not_full (l ∷ links) src dest i h e = ground (arith, weight-not_full links src dest i)

-- At a new flowcell, with weights as the first packet has set them and a random number below
-- their sum, the link is the one on whose share of the weights the number falls; isSpineFailed
-- does not report a full failure of it, and nothing else changes.
pub weighted_lem :
    (c : Scheme) (p : Moment) (s : Lb)
    → new_cell c p ≡ true
    → s.weights ≡ (λ i. weight_of (uplink_ratio c.links c.src_leaf c.dest_leaf i))
    → p.random_weight < total_of s.weights c.num_uplinks
    → (l : ℕ) × (weighted c p s ≡ record s { link_id = l })
      × (l < c.num_uplinks)
      × Share s.weights p.random_weight l
      × (is_spine_failed c.links c.src_leaf c.dest_leaf l ≢ 2)
unfolding weighted total_of
weighted_lem c p s cell set h =
    let (l, e, lt, share) =
      draw-Share c.num_uplinks 0 s.weights p.random_weight (omega arith)
        (omega (arith, ap (total_of s.weights) (zero_add c.num_uplinks))) in
    let heavy : 0 < s.weights l = ground (arith, share.from, share.below) in
    (
      l,
      simp (cell, lt→ltb 0 c.num_uplinks (omega arith), e),
      omega arith,
      share,
      weight-not_full c.links c.src_leaf c.dest_leaf l (subst (λ (w : ℕ → ℕ). 0 < w l) set heavy),
    )
