-- ===== src/Svt/Mapping/Stuck.antt =====
-- A flow for which no table has a valid spine.
use native.Mathlib.Nat.{mod-lt}
use saps_extended.Base.{
  ℕ, zero, suc, ◌+◌, ◌%◌, ◌<◌, ◌≤◌, ◌≡◌, refl, ap, ◌∙◌, List, Bool, true, false, not, none, some,
  arith,
}
use saps_extended.Base.Int.{ℤ, negsuc}
use saps_extended.Uplinks.{FailedLink, table_of, skip_invalid}
use saps_extended.Svt.{Tables, no_links, svts_of, sort_links, is_direct}
use saps_extended.Svt.Standing.{
  Standing, all_healthy, stand, count, is_failed, is_da_partial, is_da_full,
}
use saps_extended.Svt.Sorted.{mark, Represents, Within, sort_links-Represents}
use saps_extended.Svt.Links.{some_link, stand-is_failed}
use saps_extended.Svt.Mapping.{Flow, Draws, choose}

count-none :
    (p : Standing → Bool) (n : ℕ) (σ : ℕ → Standing)
    → ((i : ℕ) → i < n → p (σ i) ≡ false)
    → count p n σ ≡ 0
unfolding count
count-none p zero σ h = refl
count-none p (suc n) σ h =
    ground (arith, count-none p n σ (λ i lt. h i (omega arith)), h n (omega arith))

failed-not_da :
    (s : Standing) → is_failed s ≡ true → (is_da_partial s ≡ false) × (is_da_full s ≡ false)
failed-not_da s h = ground arith

-- No round finds a link.
skip_invalid-none :
    (fuel last i : ℕ) (svt : ℕ → ℤ)
    → ((k : ℕ) → k < last + 1 → svt k ≡ negsuc 0)
    → i < last + 1
    → skip_invalid fuel (last + 1) svt i ≡ none
unfolding skip_invalid
skip_invalid-none zero last i svt out h = refl
skip_invalid-none (suc fuel) last i svt out h = ground (
  arith,
  out i h,
  skip_invalid-none fuel last ((i + 1) % (last + 1)) svt out
      (mod-lt (i + 1) {m = last + 1} (omega arith)),
)

choose-large :
    (f : Flow) (t : Tables) (r : Draws)
    → f.threshold ≤ f.size
    → f.dynamic ≡ false
    → t.indirect_full ≡ 0
    → t.indirect_partial ≡ 0
    → choose f t r ≡ 0
unfolding choose
choose-large f t r big fixed a b = ground arith

-- Let each spine have a failed link, be it partial, to the source's or the destination's leaf.
-- Then a flow that reaches the threshold and is not mapped dynamically maps itself to the table
-- of the spines with no failure, and no number of rounds of nextValidLink's loop finds it a link.
pub choose_stuck :
    (src dest last : ℕ) (links : List FailedLink) (f : Flow) (draws : Draws) (fuel i : ℕ)
    → Within (last + 1) links
    → ((k : ℕ) → k < last + 1 → some_link (is_direct src dest) k links ≡ true)
    → f.threshold ≤ f.size
    → f.dynamic ≡ false
    → i < last + 1
    → let t : Tables = sort_links src dest links no_links in
      (svt : ℕ → ℤ) × (table_of (svts_of t) (choose f t draws) ≡ some svt)
      × (skip_invalid fuel (last + 1) svt i ≡ none)
unfolding svts_of table_of
choose_stuck src dest last links f draws fuel i w all big fixed lt =
    let σ = stand src dest links all_healthy in
    let t = sort_links src dest links no_links in
    let r : Represents (last + 1) t σ = sort_links-Represents src dest (last + 1) links w in
    let failed : ((k : ℕ) → k < last + 1 → is_failed (σ k) ≡ true) =
      λ k h. stand-is_failed src dest k links all_healthy ∙ all k h in
    let full : t.indirect_full ≡ 0 =
      r.da_full_count
      ∙ count-none is_da_full (last + 1) σ (λ k h. (failed-not_da (σ k) (failed k h)).1) in
    let partial : t.indirect_partial ≡ 0 =
      r.da_partial_count
      ∙ count-none is_da_partial (last + 1) σ (λ k h. (failed-not_da (σ k) (failed k h)).0) in
    let zero_chosen : choose f t draws ≡ 0 = choose-large f t draws big fixed full partial in
    (
      t.no_failure,
      ap (table_of (svts_of t)) zero_chosen,
      skip_invalid-none fuel last i t.no_failure
          (λ k h. r.no_failure_at k ∙ ap (λ b. mark (not b)) (failed k h)) lt,
    )
