-- ===== src/Svt/Links.antt =====
-- Which failed links put a spine into which table, in whatever order they are listed.
use saps_extended.Base.{
  ℕ, ◌≡◌, refl, List, [], ◌∷◌, Bool, true, false, not, ◌&&◌, ◌||◌, ◌==◌, arith, ap, ◌∙◌,
}
use saps_extended.Uplinks.{FailedLink}
use saps_extended.Svt.{Tables, no_links, sort_links, is_direct, is_full}
use saps_extended.Svt.Standing.{
  Standing, advance, all_healthy, move, stand, is_failed, is_healthy, is_partial, is_broken,
}
use saps_extended.Svt.Sorted.{mark, Represents, Within, sort_links-Represents}

-- A failed link at the spine of which `p` is true.
abbrev pub some_link : (FailedLink → Bool) → ℕ → List FailedLink → Bool
some_link p i [] = false
some_link p i (l ∷ links) = i == l.spine && p l || some_link p i links

abbrev pub any_link : FailedLink → Bool
any_link l = true

abbrev pub direct_full_link : ℕ → ℕ → FailedLink → Bool
direct_full_link src dest l = is_direct src dest l && is_full l

module _ (src dest i : ℕ) where
  pub stand-is_failed :
      (links : List FailedLink) (σ : ℕ → Standing)
      → is_failed (stand src dest links σ i)
        ≡ (is_failed (σ i) || some_link (is_direct src dest) i links)
  unfolding stand
  stand-is_failed [] σ = ground arith
  stand-is_failed (l ∷ links) σ = ground (
    arith,
    stand-is_failed links (move σ l.spine (advance (σ l.spine) (is_direct src dest l) (is_full l))),
  )

  pub stand-is_broken :
      (links : List FailedLink) (σ : ℕ → Standing)
      → is_broken (stand src dest links σ i)
        ≡ (is_broken (σ i) || some_link (direct_full_link src dest) i links)
  unfolding stand
  stand-is_broken [] σ = ground arith
  stand-is_broken (l ∷ links) σ = ground (
    arith,
    stand-is_broken links (move σ l.spine (advance (σ l.spine) (is_direct src dest l) (is_full l))),
  )

  pub stand-is_healthy :
      (links : List FailedLink) (σ : ℕ → Standing)
      → is_healthy (stand src dest links σ i)
        ≡ (is_healthy (σ i) && not (some_link any_link i links))
  unfolding stand
  stand-is_healthy [] σ = ground arith
  stand-is_healthy (l ∷ links) σ = ground (
    arith,
    stand-is_healthy links
        (move σ l.spine (advance (σ l.spine) (is_direct src dest l) (is_full l))),
  )

is_partial_lem : (s : Standing) → is_partial s ≡ (is_failed s && not (is_broken s))
is_partial_lem s = ground arith

-- Let each failed link stand at one of the spines. Then, whatever the order of the links, a spine
-- is in the table of the good spines exactly if no failed link joins it to one of the two leaves,
-- in that of the partial failures if one does and none of these has failed fully, in that of the
-- full failures if one has, and in that without delay asymmetry if no failed link stands at it.
pub sort_links_lem :
    (src dest n : ℕ) (links : List FailedLink) (i : ℕ)
    → Within n links
    → let t : Tables = sort_links src dest links no_links in
      let failed : Bool = some_link (is_direct src dest) i links in
      let full : Bool = some_link (direct_full_link src dest) i links in
      (t.no_failure i ≡ mark (not failed))
      × (t.partial_failure i ≡ mark (failed && not full))
      × (t.full_failure i ≡ mark full)
      × (t.da_no_failure i ≡ mark (not (some_link any_link i links)))
sort_links_lem src dest n links i w =
    let r : Represents n (sort_links src dest links no_links) (stand src dest links all_healthy) =
      sort_links-Represents src dest n links w in
    let failed = stand-is_failed src dest i links all_healthy in
    let broken = stand-is_broken src dest i links all_healthy in
    (
      r.no_failure_at i ∙ ap (λ b. mark (not b)) failed,
      r.partial_at i
          ∙ ap mark
              (is_partial_lem (stand src dest links all_healthy i) ∙ rw (failed, broken) refl),
      r.full_at i ∙ ap mark broken,
      r.da_no_failure_at i ∙ ap mark (stand-is_healthy src dest i links all_healthy),
    )
