-- ===== src/Balance/Weights.antt =====
-- The probabilistic schemes: the weights of the links, and the draw of a link by them.
pub mod Draw
use saps_extended.Base.{
  ℕ, zero, suc, ◌+◌, ◌/◌, List, [], ◌∷◌, Bool, true, false, ltb, ◌==◌, if◌then◌else◌,
}
use saps_extended.Uplinks.{FailedLink, concerns}
use saps_extended.Balance.{Scheme, Lb, Moment, new_cell}

-- `uplinkFailureRatio` of an uplink: that of the first failed link that concerns it, or 1
unfoldable pub uplink_ratio : List FailedLink → ℕ → ℕ → ℕ → ℕ
uplink_ratio [] src dest i = 1
uplink_ratio (l ∷ links) src dest i =
    if concerns src dest i l then l.failure_ratio else uplink_ratio links src dest i

-- `uplinkWeights[i]`; 100 is a full failure. The code divides by the ratio, which is not 0.
unfoldable pub weight_of : ℕ → ℕ
weight_of ratio = if ratio == 100 then 0 else 10 / ratio

-- `totalUplinkWeights` after the first `n` weights
unfoldable pub total_of : (ℕ → ℕ) → ℕ → ℕ
total_of w zero = 0
total_of w (suc n) = total_of w n + w n

-- The loop over the uplinks from `counter`, with the uplinks left; the link drawn, or none.
unfoldable pub draw : ℕ → (ℕ → ℕ) → ℕ → ℕ → ℕ → Bool × ℕ
draw zero w random added counter = (false, counter)
draw (suc n) w random added counter = elim (ltb random (added + w counter)) [
  | true ↦ (true, counter)
  | false ↦ draw n w random (added + w counter) (suc counter)
]

abbrev pub drawn_or : ℕ → Bool × ℕ → ℕ
drawn_or spare (true, l) = l
drawn_or spare (false, l) = spare

-- A new flowcell draws its link; `Random::integer(numUplinks)` stands in for a failed draw. The
-- loop is a do loop: it looks at the first weight in any case.
unfoldable pub weighted : Scheme → Moment → Lb → Lb
weighted c p s =
    if new_cell c p
    then record s {
      link_id =
          drawn_or p.random_link
            (draw (if ltb 0 c.num_uplinks then c.num_uplinks else 1) s.weights p.random_weight 0 0);
    }
    else s
