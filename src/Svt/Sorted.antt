-- ===== src/Svt/Sorted.antt =====
-- The tables after the loop over the failed links, against the standings of the spines.
use saps_extended.Base.{
  ℕ, zero, suc, ◌<◌, ◌≡◌, refl, List, [], ◌∷◌, Bool, false, not, if◌then◌else◌, arith, sym,
}
use saps_extended.Base.Int.{ℤ, pos, negsuc}
use saps_extended.Uplinks.{FailedLink}
use saps_extended.Svt.{
  Tables, no_links, sort_spine, sort_links, first_direct, again_direct, count_direct, drop_indirect,
  drop_partial, indirect, is_direct, is_full,
}
use saps_extended.Svt.Standing.{
  Standing, advance, all_healthy, move, stand, is_failed, is_healthy, is_partial, is_broken,
  is_da_partial, is_da_full, count, count-move, count-pos,
}

-- An entry of a table that holds the spines of which `b` is true.
abbrev pub mark : Bool → ℤ
mark b = if b then pos 1 else negsuc 0

-- The tables hold the standings of the spines; the counters count those among the first `n`.
pub record Represents (n : ℕ) (t : Tables) (σ : ℕ → Standing) : Type 0 where
  pub no_failure_at : (i : ℕ) → t.no_failure i ≡ mark (not (is_failed (σ i)))
  pub partial_at : (i : ℕ) → t.partial_failure i ≡ mark (is_partial (σ i))
  pub full_at : (i : ℕ) → t.full_failure i ≡ mark (is_broken (σ i))
  pub da_no_failure_at : (i : ℕ) → t.da_no_failure i ≡ mark (is_healthy (σ i))
  pub da_partial_at : (i : ℕ) → t.da_partial_failure i ≡ mark (is_da_partial (σ i))
  pub da_full_at : (i : ℕ) → t.da_full_failure i ≡ mark (is_da_full (σ i))
  pub failures_count : t.direct_failures ≡ count is_failed n σ
  pub partial_count : t.direct_partial ≡ count is_partial n σ
  pub full_count : t.direct_full ≡ count is_broken n σ
  pub da_partial_count : t.indirect_partial ≡ count is_da_partial n σ
  pub da_full_count : t.indirect_full ≡ count is_da_full n σ

module _ {n : ℕ} {t : Tables} {σ : ℕ → Standing} (r : Represents n t σ) (spine : ℕ)
    (direct full : Bool) where
  abbrev moved : ℕ → Standing
  moved = move σ spine (advance (σ spine) direct full)

  no_failure-sort_spine :
      (i : ℕ) → (sort_spine t spine direct full).no_failure i ≡ mark (not (is_failed (moved i)))
  unfolding sort_spine first_direct again_direct count_direct drop_indirect drop_partial indirect
  no_failure-sort_spine i = ground (
    arith,
    r.no_failure_at i,
    r.no_failure_at spine,
    r.partial_at spine,
    r.full_at spine,
    r.da_no_failure_at spine,
    r.da_partial_at spine,
    r.da_full_at spine,
  )

  partial-sort_spine :
      (i : ℕ) → (sort_spine t spine direct full).partial_failure i ≡ mark (is_partial (moved i))
  unfolding sort_spine first_direct again_direct count_direct drop_indirect drop_partial indirect
  partial-sort_spine i = ground (
    arith,
    r.partial_at i,
    r.no_failure_at spine,
    r.partial_at spine,
    r.full_at spine,
    r.da_no_failure_at spine,
    r.da_partial_at spine,
    r.da_full_at spine,
  )

  full-sort_spine :
      (i : ℕ) → (sort_spine t spine direct full).full_failure i ≡ mark (is_broken (moved i))
  unfolding sort_spine first_direct again_direct count_direct drop_indirect drop_partial indirect
  full-sort_spine i = ground (
    arith,
    r.full_at i,
    r.no_failure_at spine,
    r.partial_at spine,
    r.full_at spine,
    r.da_no_failure_at spine,
    r.da_partial_at spine,
    r.da_full_at spine,
  )

  da_no_failure-sort_spine :
      (i : ℕ) → (sort_spine t spine direct full).da_no_failure i ≡ mark (is_healthy (moved i))
  unfolding sort_spine first_direct again_direct count_direct drop_indirect drop_partial indirect
  da_no_failure-sort_spine i = ground (
    arith,
    r.da_no_failure_at i,
    r.no_failure_at spine,
    r.partial_at spine,
    r.full_at spine,
    r.da_no_failure_at spine,
    r.da_partial_at spine,
    r.da_full_at spine,
  )

  da_partial-sort_spine :
      (i : ℕ)
      → (sort_spine t spine direct full).da_partial_failure i ≡ mark (is_da_partial (moved i))
  unfolding sort_spine first_direct again_direct count_direct drop_indirect drop_partial indirect
  da_partial-sort_spine i = ground (
    arith,
    r.da_partial_at i,
    r.no_failure_at spine,
    r.partial_at spine,
    r.full_at spine,
    r.da_no_failure_at spine,
    r.da_partial_at spine,
    r.da_full_at spine,
  )

  da_full-sort_spine :
      (i : ℕ) → (sort_spine t spine direct full).da_full_failure i ≡ mark (is_da_full (moved i))
  unfolding sort_spine first_direct again_direct count_direct drop_indirect drop_partial indirect
  da_full-sort_spine i = ground (
    arith,
    r.da_full_at i,
    r.no_failure_at spine,
    r.partial_at spine,
    r.full_at spine,
    r.da_no_failure_at spine,
    r.da_partial_at spine,
    r.da_full_at spine,
  )

  failures_count-sort_spine :
      spine < n → (sort_spine t spine direct full).direct_failures ≡ count is_failed n moved
  unfolding sort_spine first_direct again_direct count_direct drop_indirect drop_partial indirect
  failures_count-sort_spine h = ground (
    arith,
    r.failures_count,
    r.no_failure_at spine,
    r.partial_at spine,
    r.full_at spine,
    r.da_no_failure_at spine,
    r.da_partial_at spine,
    r.da_full_at spine,
    count-move is_failed n spine (advance (σ spine) direct full) σ h,
    count-pos is_failed n spine σ h,
  )

  partial_count-sort_spine :
      spine < n → (sort_spine t spine direct full).direct_partial ≡ count is_partial n moved
  unfolding sort_spine first_direct again_direct count_direct drop_indirect drop_partial indirect
  partial_count-sort_spine h = ground (
    arith,
    r.partial_count,
    r.no_failure_at spine,
    r.partial_at spine,
    r.full_at spine,
    r.da_no_failure_at spine,
    r.da_partial_at spine,
    r.da_full_at spine,
    count-move is_partial n spine (advance (σ spine) direct full) σ h,
    count-pos is_partial n spine σ h,
  )

  full_count-sort_spine :
      spine < n → (sort_spine t spine direct full).direct_full ≡ count is_broken n moved
  unfolding sort_spine first_direct again_direct count_direct drop_indirect drop_partial indirect
  full_count-sort_spine h = ground (
    arith,
    r.full_count,
    r.no_failure_at spine,
    r.partial_at spine,
    r.full_at spine,
    r.da_no_failure_at spine,
    r.da_partial_at spine,
    r.da_full_at spine,
    count-move is_broken n spine (advance (σ spine) direct full) σ h,
    count-pos is_broken n spine σ h,
  )

  da_partial_count-sort_spine :
      spine < n → (sort_spine t spine direct full).indirect_partial ≡ count is_da_partial n moved
  unfolding sort_spine first_direct again_direct count_direct drop_indirect drop_partial indirect
  da_partial_count-sort_spine h = ground (
    arith,
    r.da_partial_count,
    r.no_failure_at spine,
    r.partial_at spine,
    r.full_at spine,
    r.da_no_failure_at spine,
    r.da_partial_at spine,
    r.da_full_at spine,
    count-move is_da_partial n spine (advance (σ spine) direct full) σ h,
    count-pos is_da_partial n spine σ h,
  )

  da_full_count-sort_spine :
      spine < n → (sort_spine t spine direct full).indirect_full ≡ count is_da_full n moved
  unfolding sort_spine first_direct again_direct count_direct drop_indirect drop_partial indirect
  da_full_count-sort_spine h = ground (
    arith,
    r.da_full_count,
    r.no_failure_at spine,
    r.partial_at spine,
    r.full_at spine,
    r.da_no_failure_at spine,
    r.da_partial_at spine,
    r.da_full_at spine,
    count-move is_da_full n spine (advance (σ spine) direct full) σ h,
    count-pos is_da_full n spine σ h,
  )

  pub sort_spine-Represents : spine < n → Represents n (sort_spine t spine direct full) moved
  sort_spine-Represents h = record {
    no_failure_at = no_failure-sort_spine;
    partial_at = partial-sort_spine;
    full_at = full-sort_spine;
    da_no_failure_at = da_no_failure-sort_spine;
    da_partial_at = da_partial-sort_spine;
    da_full_at = da_full-sort_spine;
    failures_count = failures_count-sort_spine h;
    partial_count = partial_count-sort_spine h;
    full_count = full_count-sort_spine h;
    da_partial_count = da_partial_count-sort_spine h;
    da_full_count = da_full_count-sort_spine h;
  }

count-all_healthy :
    (p : Standing → Bool) (n : ℕ) → p Standing.healthy ≡ false → count p n all_healthy ≡ 0
unfolding count
count-all_healthy p zero h = refl
count-all_healthy p (suc n) h = ground (arith, count-all_healthy p n h)

no_links-Represents : (n : ℕ) → Represents n no_links all_healthy
unfolding no_links
no_links-Represents n = record {
  no_failure_at = λ i. refl;
  partial_at = λ i. refl;
  full_at = λ i. refl;
  da_no_failure_at = λ i. refl;
  da_partial_at = λ i. refl;
  da_full_at = λ i. refl;
  failures_count = sym (count-all_healthy is_failed n refl);
  partial_count = sym (count-all_healthy is_partial n refl);
  full_count = sym (count-all_healthy is_broken n refl);
  da_partial_count = sym (count-all_healthy is_da_partial n refl);
  da_full_count = sym (count-all_healthy is_da_full n refl);
}

-- Each failed link stands at one of the first `n` spines.
abbrev pub Within : ℕ → List FailedLink → Type 0
Within n [] = Unit
Within n (l ∷ links) = (l.spine < n) × Within n links

pub sort_links-Represents_from :
    (src dest n : ℕ) (links : List FailedLink) {t : Tables} {σ : ℕ → Standing}
    → Within n links
    → Represents n t σ
    → Represents n (sort_links src dest links t) (stand src dest links σ)
unfolding sort_links stand
sort_links-Represents_from src dest n [] w r = r
sort_links-Represents_from src dest n (l ∷ links) w r =
    sort_links-Represents_from src dest n links w.1
      (sort_spine-Represents r l.spine (is_direct src dest l) (is_full l) w.0)

-- Let each failed link stand at one of the spines. Then the loop over the failed links leaves
-- tables and counters that stand for one standing of each spine, which a failed link moves on as
-- the abstract step says: each table holds the spines of its standing, and each counter,
-- decreased ones included, is the number of spines in its table.
pub sort_links-Represents :
    (src dest n : ℕ) (links : List FailedLink)
    → Within n links
    → Represents n (sort_links src dest links no_links) (stand src dest links all_healthy)
sort_links-Represents src dest n links w =
    sort_links-Represents_from src dest n links w (no_links-Represents n)
