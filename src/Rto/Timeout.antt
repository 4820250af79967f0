-- ===== src/Rto/Timeout.antt =====
-- The time that the retransmission timer is set to, and how it backs off.
use saps_extended.Base.{
  ℕ, Bool, none, ◌≢◌, ◌*◌, ◌≤◌, ◌<◌, ◌≡◌, refl, ◌∙◌, true, false, ltb, if◌then◌else◌, arith,
  Bool-cases, inl, inr, ◌⊎◌,
}
use saps_extended.Base.Int.{pos, ◌+ℤ◌}
use native.Mathlib.Nat.{le-mul_of_pos_right}
use saps_extended.Rto.{
  Timing, Rto, uncapped, rtt_timeout, double_backoff, rtt_backoff, Rtx, set_rtx_timer,
  reset_rtx_timer,
}

module _ (c : Timing) where
  -- The smaller of a time and `maxrto_`.
  abbrev pub capped : ℕ → ℕ
  capped t = if ltb c.maxrto t then c.maxrto else t

  -- The estimate, or `minrto_` if it is less.
  abbrev pub floored : Rto → ℕ
  floored s = if ltb s.t_rtxcur c.minrto then c.minrto else s.t_rtxcur

  -- If two ticks are not more than maxrto_: the timeout is at least a tick and at most maxrto_,
  -- and at least two ticks if use_rtt_ is unset.
  pub timeout_range :
      (s : Rto)
      → 2 * c.tcp_tick ≤ c.maxrto
      → let t = (rtt_timeout c s).1 in
        (c.tcp_tick ≤ t) × (t ≤ c.maxrto) × (s.use_rtt ≡ false → 2 * c.tcp_tick ≤ t)
  unfolding rtt_timeout
  timeout_range s h = ground arith

  -- Parameters of a sender that follows RFC 2988.
  pub record IsRfc2988 : Type 0 where
    pub rfc2988 : c.rfc2988 ≡ true
    pub ticks : 2 * c.tcp_tick ≤ c.minrto
    pub ordered : c.minrto ≤ c.maxrto

  module _ (v : IsRfc2988) where
    timeout_exact :
        (s : Rto)
        → s.use_rtt ≡ false
        → 0 < s.t_backoff
        → (rtt_timeout c s).1 ≡ capped (floored s * s.t_backoff)
    unfolding rtt_timeout uncapped
    timeout_exact s idle b = ground (
      arith,
      v.rfc2988,
      v.ticks,
      v.ordered,
      le-mul_of_pos_right c.minrto b,
      le-mul_of_pos_right s.t_rtxcur b,
    )

    -- What a back-off leaves: the factor is doubled, or stays when the timeout is at its maximum.
    record BackedOff (s r : Rto) : Type 0 where
      idle : r.use_rtt ≡ false
      same : r.t_rtxcur ≡ s.t_rtxcur
      factor :
          (r.t_backoff ≡ s.t_backoff * 2)
          ⊎ ((r.t_backoff ≡ s.t_backoff) × (c.maxrto ≤ (rtt_timeout c s).1))

    asked_lem : (s : Rto) → (rtt_timeout c s).0 ≡ record s { use_rtt = false }
    unfolding rtt_timeout
    asked_lem s = refl

    double_backoff-BackedOff : (s : Rto) → s.use_rtt ≡ false → BackedOff s (double_backoff c s)
    unfolding double_backoff
    double_backoff-BackedOff s idle = elim (Bool-cases (ltb s.t_backoff 64)) [
      | inl low ↦ rw low record { idle = idle; same = refl; factor = inl refl }
      | inr high ↦ elim (Bool-cases (ltb (rtt_timeout c s).1 c.maxrto)) [
        | inl more ↦
            rw (high, more, asked_lem s)
              (simp (v.rfc2988) record { idle = refl; same = refl; factor = inl refl })
        | inr top ↦
            rw (high, top, asked_lem s)
              (simp (v.rfc2988)
                record { idle = refl; same = refl; factor = inr (refl, ground arith) })
      ]
    ]

    backoff-BackedOff : (s : Rto) → s.use_rtt ≡ false → BackedOff s (rtt_backoff c s)
    unfolding rtt_backoff
    backoff-BackedOff s idle =
        let d = double_backoff-BackedOff s idle in
        elim (Bool-cases (ltb 8 (double_backoff c s).t_backoff)) [
          | inl far ↦ rw far record { idle = d.idle; same = d.same; factor = d.factor }
          | inr near ↦ rw near d
        ]

    twice : (x b : ℕ) → x * (b * 2) ≡ 2 * (x * b)
    twice x b = omega arith

    -- For a sender that follows RFC 2988, with two ticks at most minrto_ and minrto_ at most
    -- maxrto_, use_rtt_ unset and a back-off factor that is not 0: rtt_backoff doubles the
    -- timeout, up to maxrto_.
    pub backoff_doubles :
        (s : Rto)
        → s.use_rtt ≡ false
        → 0 < s.t_backoff
        → (rtt_timeout c (rtt_backoff c s)).1 ≡ capped (2 * (rtt_timeout c s).1)
    backoff_doubles s idle b =
        let r = backoff-BackedOff s idle in
        elim r.factor [
          | inl doubled ↦
              timeout_exact (rtt_backoff c s) r.idle (omega (arith, doubled))
              ∙ ground
                  (arith, r.same, doubled, timeout_exact s idle b, twice (floored s) s.t_backoff)
          | inr (kept, top) ↦
              timeout_exact (rtt_backoff c s) r.idle (omega (arith, kept))
              ∙ ground (arith, r.same, kept, timeout_exact s idle b, top)
        ]

-- After a reset that is not mild the next segment is the one after the last acknowledged one.
pub reset_rtx_timer-t_seqno :
    (c : Timing) (s : Rtx c) (backoff : Bool)
    → let s' = reset_rtx_timer c s false backoff in
      (s'.t_seqno ≡ s.highest_ack +ℤ pos 1) × (s'.timer ≢ none)
unfolding reset_rtx_timer set_rtx_timer
reset_rtx_timer-t_seqno c s true = (refl, λ h. cc h)
reset_rtx_timer-t_seqno c s false = (refl, λ h. cc h)
