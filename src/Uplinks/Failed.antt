-- ===== src/Uplinks/Failed.antt =====
-- `isSpineFailed` reports the first failed link that concerns the spine and one of the two leaves.
use saps_extended.Base.{
  ℕ, ◌≡◌, refl, List, [], ◌∷◌, true, false, ◌==◌, if◌then◌else◌, Bool-cases, inl, inr, ◌⊎◌,
}
use saps_extended.Uplinks.{FailedLink, concerns, is_spine_failed}

-- No failed link concerns the spine.
pub data Spared (src dest spine : ℕ) : List FailedLink → Type 0 where
  none_left : Spared src dest spine []
  passed :
      (l : FailedLink) (links : List FailedLink)
      → concerns src dest spine l ≡ false
      → Spared src dest spine links
      → Spared src dest spine (l ∷ links)

-- The first failed link that concerns the spine.
pub data First (src dest spine : ℕ) (f : FailedLink) : List FailedLink → Type 0 where
  here :
      (links : List FailedLink)
      → concerns src dest spine f ≡ true
      → First src dest spine f (f ∷ links)
  later :
      (l : FailedLink) (links : List FailedLink)
      → concerns src dest spine l ≡ false
      → First src dest spine f links
      → First src dest spine f (l ∷ links)

-- isSpineFailed answers 0 and no failed link joins the spine to one of the two leaves, or there
-- is a first one that does, and it answers 2 if that failure is full and 1 if not.
pub is_spine_failed_lem :
    (links : List FailedLink) (src dest spine : ℕ)
    → (Spared src dest spine links × (is_spine_failed links src dest spine ≡ 0))
      ⊎ ((f : FailedLink) × First src dest spine f links
          × (is_spine_failed links src dest spine ≡ (if f.failure_ratio == 100 then 2 else 1)))
unfolding is_spine_failed
is_spine_failed_lem [] src dest spine = inl (none_left, refl)
is_spine_failed_lem (l ∷ links) src dest spine = elim (Bool-cases (concerns src dest spine l)) [
  | inl hit ↦ inr (l, here links hit, rw hit)
  | inr miss ↦ elim (is_spine_failed_lem links src dest spine) [
    | inl (spared, e) ↦ inl (passed l links miss spared, rw miss e)
    | inr (f, first, e) ↦ inr (f, later l links miss first, rw miss e)
  ]
]
