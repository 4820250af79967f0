-- ===== src/Rto/Estimate.antt =====
-- The smoothed round-trip time of the standard gains, 1/8 and 1/4.
use saps_extended.Base.{
  ℕ, ◌+◌, ◌*◌, ◌-◌, ◌/◌, ◌^◌, ◌≤◌, ◌<◌, ◌≡◌, sym, subst, ◌∙◌, ap, false, ltb, ◌==◌, if◌then◌else◌,
  arith, Bool-cases, inl, inr, ◌⊎◌,
}
use native.Mathlib.Nat.{mul-le-mul_right}
use saps_extended.Rto.{Timing, Rto, short_diff, short_abs, add_short, smooth}

-- The distance of two numbers.
abbrev pub distance : ℕ → ℕ → ℕ
distance a b = if ltb a b then b - a else a - b

-- Adding the `short` a - b to x, where x is not less than b, is exact.
add_short-diff :
    (x a b : ℕ)
    → a < 2 ^ 15
    → b < 2 ^ 15
    → b ≤ x
    → add_short x (short_diff a b) ≡ (if x + a - b == 0 then 1 else x + a - b)
unfolding add_short short_diff
add_short-diff x a b p q h = ground arith

short_abs-diff : (a b : ℕ) → a < 2 ^ 15 → b < 2 ^ 15 → short_abs (short_diff a b) ≡ distance a b
unfolding short_abs short_diff
short_abs-diff a b p q = ground arith

module _ (c : Timing) where
  -- The gains of the comments in the code: 1/8 and 1/4, and four times the deviation.
  pub record IsStandard : Type 0 where
    pub srtt_bits : c.srtt_bits ≡ 3
    pub rttvar_bits : c.rttvar_bits ≡ 2
    pub rttvar_exp : c.rttvar_exp ≡ 2

  -- The estimate of samples of at most `b` ticks.
  pub record IsBounded (b : ℕ) (s : Rto) : Type 0 where
    pub srtt : s.t_srtt ≤ 8 * b
    pub rttvar : s.t_rttvar ≤ 4 * b

  -- One sample of `rtt` ticks after another: the estimate is the exact weighted mean of `rtt` and
  -- the old estimate, the deviation that of their distance and the old one, but at least 1.
  pub record Smoothed (b rtt : ℕ) (s r : Rto) : Type 0 where
    pub bounded : IsBounded b r
    pub srtt : r.t_srtt + s.t_srtt / 8 ≡ s.t_srtt + rtt
    pub rttvar :
        (r.t_rttvar + s.t_rttvar / 4 ≡ s.t_rttvar + distance rtt (s.t_srtt / 8))
        ⊎ ((r.t_rttvar ≡ 1) × (s.t_rttvar + distance rtt (s.t_srtt / 8) ≡ 0))
    pub above : c.tcp_tick ≤ r.t_rtxcur
    pub below : r.t_rtxcur ≤ 5 * b * c.tcp_tick

  module _ (b rtt : ℕ) (s : Rto) (g : IsStandard) (lt : b < 2 ^ 15) (sampled : 0 < rtt)
      (le : rtt ≤ b) (used : 0 < s.t_srtt) (v : IsBounded b s) where
    not_first : (s.t_srtt == 0) ≡ false
    not_first = ground arith

    smooth_srtt : (smooth c s rtt).t_srtt ≡ s.t_srtt + rtt - s.t_srtt / 8
    unfolding smooth
    smooth_srtt = rw not_first (
        ap (λ k. add_short s.t_srtt (short_diff rtt (s.t_srtt / 2 ^ k))) g.srtt_bits
        ∙ ground (
          arith,
          add_short-diff s.t_srtt rtt (s.t_srtt / 8) (omega arith) (omega (arith, v.srtt))
              (omega arith),
        ))

    deviation : ℕ
    deviation = distance rtt (s.t_srtt / 8)

    deviation-le : deviation ≤ b
    unfolding deviation
    deviation-le = ground (arith, v.srtt)

    short_deviation : short_abs (short_diff rtt (s.t_srtt / 2 ^ c.srtt_bits)) ≡ deviation
    unfolding deviation
    short_deviation =
        ap (λ k. short_abs (short_diff rtt (s.t_srtt / 2 ^ k))) g.srtt_bits
        ∙ short_abs-diff rtt (s.t_srtt / 8) (omega arith) (omega (arith, v.srtt))

    smooth_rttvar : (smooth c s rtt).t_rttvar ≡ (
        if s.t_rttvar + deviation - s.t_rttvar / 4 == 0
        then 1
        else s.t_rttvar + deviation - s.t_rttvar / 4)
    unfolding smooth
    smooth_rttvar =
        rw (not_first, short_deviation)
          (ap (λ k. add_short s.t_rttvar (short_diff deviation (s.t_rttvar / 2 ^ k))) g.rttvar_bits
            ∙ add_short-diff s.t_rttvar deviation (s.t_rttvar / 4) (omega (arith, deviation-le))
                (omega (arith, v.rttvar)) (omega arith))

    smooth_rtxcur :
        (smooth c s rtt).t_rtxcur
        ≡ ((smooth c s rtt).t_rttvar * 8 + (smooth c s rtt).t_srtt) / 8 * c.tcp_tick
    unfolding smooth
    smooth_rtxcur =
        scaled c.rttvar_exp c.srtt_bits c.rttvar_bits g.rttvar_exp g.srtt_bits g.rttvar_bits
      where
        scaled :
            (e k l : ℕ)
            → e ≡ 2
            → k ≡ 3
            → l ≡ 2
            → ((smooth c s rtt).t_rttvar * 2 ^ (e + (k - l)) + (smooth c s rtt).t_srtt)
                / 2 ^ k
                * c.tcp_tick
              ≡ ((smooth c s rtt).t_rttvar * 8 + (smooth c s rtt).t_srtt) / 8 * c.tcp_tick
        scaled e k l p q r = rw (p, q, r)

    -- the estimate before it is multiplied with `tcp_tick_`
    ticks_bound :
        let t = ((smooth c s rtt).t_rttvar * 8 + (smooth c s rtt).t_srtt) / 8 in
        (1 ≤ t) × (t ≤ 5 * b)
    ticks_bound = ground (arith, smooth_srtt, smooth_rttvar, deviation-le, v.srtt, v.rttvar)

    rttvar_cases :
        ((smooth c s rtt).t_rttvar + s.t_rttvar / 4 ≡ s.t_rttvar + deviation)
        ⊎ (((smooth c s rtt).t_rttvar ≡ 1) × (s.t_rttvar + deviation ≡ 0))
    rttvar_cases = elim (Bool-cases (s.t_rttvar + deviation - s.t_rttvar / 4 == 0)) [
      | inl still ↦ inr (smooth_rttvar ∙ rw still, ground arith)
      | inr moved ↦ inl (ground (arith, smooth_rttvar))
    ]

    -- With the gains 1/8 and 1/4 and four times the deviation, samples from 1 to b ticks, where b
    -- is below 2^15, and an estimate in use that such samples bound: a sample keeps the bounds,
    -- the smoothed time becomes exactly seven eighths of the old one, rounded up, plus the sample
    -- in eighths, the deviation likewise in quarters from the distance of the two, but at least
    -- 1, and the timeout before back-off is from one tick to 5 b ticks.
    pub smooth-Smoothed : Smoothed b rtt s (smooth c s rtt)
    unfolding deviation
    smooth-Smoothed = record {
      bounded = record {
        srtt = omega (arith, smooth_srtt, v.srtt);
        rttvar = ground (arith, smooth_rttvar, v.rttvar, deviation-le);
      };
      srtt = omega (arith, smooth_srtt);
      rttvar = rttvar_cases;
      above =
          subst (λ t. c.tcp_tick ≤ t) (sym smooth_rtxcur)
            (omega (arith, mul-le-mul_right c.tcp_tick ticks_bound.0));
      below =
          subst (λ t. t ≤ 5 * b * c.tcp_tick) (sym smooth_rtxcur)
            (mul-le-mul_right c.tcp_tick ticks_bound.1);
    }
