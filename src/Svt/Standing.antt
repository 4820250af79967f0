-- ===== src/Svt/Standing.antt =====
-- How a spine stands for a flow, and how a further failed link changes that.
use saps_extended.Base.{
  ℕ, zero, suc, ◌+◌, ◌<◌, ◌≤◌, ◌≡◌, refl, List, [], ◌∷◌, Bool, true, false, ◌==◌, ltb,
  if◌then◌else◌, arith,
}
use saps_extended.Uplinks.{FailedLink}
use saps_extended.Svt.{is_direct, is_full}

pub data Standing : Type 0 where
  healthy da_partial da_full partial full : Standing

-- The next failed link of the spine, which is direct or not, full or not.
abbrev pub advance : Standing → Bool → Bool → Standing
advance healthy true true = full
advance healthy true false = partial
advance healthy false true = da_full
advance healthy false false = da_partial
advance da_partial true true = full
advance da_partial true false = partial
advance da_partial false f = da_partial
advance da_full true true = full
advance da_full true false = partial
advance da_full false f = da_full
advance partial true true = full
advance partial true false = partial
advance partial false f = partial
advance full d f = full

abbrev pub all_healthy : ℕ → Standing
all_healthy i = healthy

abbrev pub move : (ℕ → Standing) → ℕ → Standing → ℕ → Standing
move σ spine s i = if i == spine then s else σ i

-- The standings after the failed links.
unfoldable pub stand : ℕ → ℕ → List FailedLink → (ℕ → Standing) → ℕ → Standing
stand src dest [] σ = σ
stand src dest (l ∷ links) σ =
    stand src dest links (move σ l.spine (advance (σ l.spine) (is_direct src dest l) (is_full l)))

abbrev pub is_failed : Standing → Bool
is_failed healthy = false
is_failed da_partial = false
is_failed da_full = false
is_failed partial = true
is_failed full = true

abbrev pub is_healthy : Standing → Bool
is_healthy healthy = true
is_healthy da_partial = false
is_healthy da_full = false
is_healthy partial = false
is_healthy full = false

abbrev pub is_partial : Standing → Bool
is_partial healthy = false
is_partial da_partial = false
is_partial da_full = false
is_partial partial = true
is_partial full = false

abbrev pub is_broken : Standing → Bool
is_broken healthy = false
is_broken da_partial = false
is_broken da_full = false
is_broken partial = false
is_broken full = true

abbrev pub is_da_partial : Standing → Bool
is_da_partial healthy = false
is_da_partial da_partial = true
is_da_partial da_full = false
is_da_partial partial = false
is_da_partial full = false

abbrev pub is_da_full : Standing → Bool
is_da_full healthy = false
is_da_full da_partial = false
is_da_full da_full = true
is_da_full partial = false
is_da_full full = false

-- How many of the first `n` spines stand so.
unfoldable pub count : (Standing → Bool) → ℕ → (ℕ → Standing) → ℕ
count p zero σ = 0
count p (suc n) σ = count p n σ + (if p (σ n) then 1 else 0)

abbrev pub one : Bool → ℕ
one b = if b then 1 else 0

count-move_above :
    (p : Standing → Bool) (n spine : ℕ) (s : Standing) (σ : ℕ → Standing)
    → (spine < n → count p n (move σ spine s) + one (p (σ spine)) ≡ count p n σ + one (p s))
      × (ltb spine n ≡ false → count p n (move σ spine s) ≡ count p n σ)
unfolding count
count-move_above p zero spine s σ = (λ h. absurd (omega arith), λ h. refl)
count-move_above p (suc n) spine s σ = ground (arith, count-move_above p n spine s σ)

pub count-move :
    (p : Standing → Bool) (n spine : ℕ) (s : Standing) (σ : ℕ → Standing)
    → spine < n
    → count p n (move σ spine s) + one (p (σ spine)) ≡ count p n σ + one (p s)
count-move p n spine s σ h = (count-move_above p n spine s σ).0 h

-- A spine that stands so is among those counted.
pub count-pos :
    (p : Standing → Bool) (n spine : ℕ) (σ : ℕ → Standing)
    → spine < n
    → one (p (σ spine)) ≤ count p n σ
unfolding count
count-pos p zero spine σ h = absurd (omega arith)
count-pos p (suc n) spine σ h = ground (arith, count-pos p n spine σ)
