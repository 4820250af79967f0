-- ===== src/Svt/Mapping/Valid.antt =====
-- The chosen table has a valid spine.
use native.Mathlib.Nat.{zero-mul, zero-add}
use saps_extended.Base.{
  ℕ, zero, suc, ◌+◌, ◌*◌, ◌/◌, ◌<◌, ◌≤◌, ◌≡◌, ◌⊎◌, inl, inr, refl, Bool, true, arith, Bool-cases,
}
use saps_extended.Svt.{Tables}
use saps_extended.Svt.Standing.{
  Standing, count, is_healthy, is_partial, is_broken, is_da_partial, is_da_full,
}
use saps_extended.Svt.Mapping.{
  Flow, Draws, partial_bw, healthy_bw, total_bw, indirect_bw, choose_da, choose,
}

-- `Random::integer`'s result is below its bound.
pub record InRange (r : Draws) : Type 0 where
  pub total_lt : (k : ℕ) → 0 < k → r.total k < k
  pub healthy_lt : (k : ℕ) → 0 < k → r.healthy k < k
  pub indirect_lt : (k : ℕ) → 0 < k → r.indirect k < k

-- Some spine is among those counted.
pub exists_of_count :
    (p : Standing → Bool) (n : ℕ) (σ : ℕ → Standing)
    → 0 < count p n σ
    → (i : ℕ) × (i < n) × (p (σ i) ≡ true)
unfolding count
exists_of_count p zero σ h = absurd (omega arith)
exists_of_count p (suc n) σ h = elim (Bool-cases (p (σ n))) [
  | inl here ↦ (n, omega arith, here)
  | inr there ↦ let (i, lt, e) = exists_of_count p n σ (ground arith) in (i, omega arith, e)
]

-- The spines that are not directly failed are healthy or indirectly failed.
count-total :
    (n : ℕ) (σ : ℕ → Standing)
    → count is_healthy n σ
        + count is_partial n σ
        + count is_broken n σ
        + count is_da_partial n σ
        + count is_da_full n σ
      ≡ n
unfolding count
count-total zero σ = refl
count-total (suc n) σ = ground (arith, count-total n σ)

lt-mul_pos : (x a b : ℕ) → x < a * b → 0 < a
lt-mul_pos x zero b h = absurd (omega (arith, zero-mul b))
lt-mul_pos x (suc a) b h = omega arith

da_full_pos :
    (x y a b c : ℕ) → (0 < (a + b) * c → x < (a + b) * c) → y < (a + b) * c → b * c ≤ x → 0 < a
da_full_pos x y zero b c below h above = absurd (omega (arith, zero-add b, below (omega arith)))
da_full_pos x y (suc a) b c below h above = omega arith

-- A mapping to a table says that a counter is not 0.
module _ (f : Flow) (t : Tables) (r : Draws) where
  pub choose_da_cases : choose_da f t r ≡ 10 ⊎ choose_da f t r ≡ 11 ⊎ choose_da f t r ≡ 12
  unfolding choose_da
  choose_da_cases = ground arith

  pub choose_cases : (choose f t r ≡ 1) ⊎ (choose f t r ≡ 0) ⊎ (choose f t r ≡ choose_da f t r)
  unfolding choose
  choose_cases = ground arith

  pub choose-partial : choose f t r ≡ 1 → 0 < t.direct_partial
  unfolding choose partial_bw
  choose-partial h = ground (
    arith,
    choose_da_cases,
    lt-mul_pos (r.total (total_bw f t)) t.direct_partial (f.capacity / f.failure_ratio),
  )

  pub choose_da-partial : choose_da f t r ≡ 11 → 0 < t.indirect_partial
  unfolding choose_da
  choose_da-partial h =
      ground (arith, lt-mul_pos (r.indirect (indirect_bw f t)) t.indirect_partial f.capacity)

  pub choose_da-full : InRange r → choose_da f t r ≡ 12 → 0 < t.indirect_full
  unfolding choose_da indirect_bw
  choose_da-full ranged h = ground (
    arith,
    da_full_pos (r.indirect (indirect_bw f t)) (r.healthy (healthy_bw f t)) t.indirect_full
        t.indirect_partial f.capacity (ranged.indirect_lt (indirect_bw f t)),
  )
