-- ===== src/Cwnd/Cuts.antt =====
-- The window stays at least one packet, and an ECN-Echo cuts it once for the data in flight.
use saps_extended.Base.{
  ℕ, ◌+◌, ◌≤◌, ◌≡◌, refl, ap, ◌∙◌, List, [], ◌∷◌, true, false, ◌||◌, arith, ◌⊎◌, inl, inr,
  Bool-cases,
}
use saps_extended.Base.Int.{ℤ, ltb_ℤ}
use saps_extended.Red.{Double}
use saps_extended.Rto.{Timing}
use saps_extended.Cwnd.{How, Settings, Cwnd, is_timeout, set_decrease, slowdown, back_off, ecn}

-- The window is not below one packet, the threshold not below two.
pub record IsFloored {R : Type 0} (d : Double R) (s : Cwnd R) : Type 0 where
  pub window : d.lt s.cwnd (d.num 1 1) ≡ false
  pub threshold : 2 ≤ s.ssthresh

-- If 1 is not less than 1 in the arithmetic, every kind of slowdown, with any flags and settings,
-- leaves a window that is not below one packet and a threshold that is not below two.
pub slowdown-IsFloored :
    {R : Type 0} (d : Double R) (log : R → R) (c : Settings R) (window : ℕ) (how : How) (s : Cwnd R)
    → d.lt (d.num 1 1) (d.num 1 1) ≡ false
    → IsFloored d (slowdown d log c window how s)
unfolding slowdown
slowdown-IsFloored d log c window how s law = record {
  window = ground (arith, law);
  threshold = ground arith;
}

pub slowdown-recover :
    {R : Type 0} (d : Double R) (log : R → R) (c : Settings R) (window : ℕ) (how : How) (s : Cwnd R)
    → (slowdown d log c window how s).recover ≡ s.recover
unfolding slowdown set_decrease
slowdown-recover d log c window how s = ground arith

-- An answer moves `recover_` to `maxseq_`.
pub ecn-recover :
    {R : Type 0} (d : Double R) (log : R → R) (c : Settings R) (t : Timing) (window : ℕ) (seqno : ℤ)
    (s : Cwnd R)
    → let s' = ecn d log c t window seqno s in (s'.recover ≡ s.recover) ⊎ (s'.recover ≡ s.maxseq)
unfolding ecn slowdown set_decrease back_off
ecn-recover d log c t window seqno s =
    elim (Bool-cases (ltb_ℤ s.recover seqno || is_timeout s.last_action)) [
      | inl due ↦ inr (ground (arith, due))
      | inr idle ↦ inl (ground (arith, idle))
    ]

module _ {R : Type 0} (d : Double R) (log : R → R) (c : Settings R) (t : Timing) where
  -- The ECN-Echoes of acknowledgements that come before anything is sent, with `window()` for each.
  abbrev pub ecn_all : List (ℕ × ℤ) → Cwnd R → Cwnd R
  ecn_all [] s = s
  ecn_all ((window, seqno) ∷ echoes) s = ecn_all echoes (ecn d log c t window seqno s)

  -- No echo is of a segment beyond `maxseq_`.
  abbrev pub AreSent : Cwnd R → List (ℕ × ℤ) → Type 0
  AreSent s [] = Unit
  AreSent s ((window, seqno) ∷ echoes) = (ltb_ℤ s.maxseq seqno ≡ false) × AreSent s echoes

  -- An answer to ECN-Echo counts until all is acknowledged that was sent before it.
  record Answered (s s' : Cwnd R) : Type 0 where
    recover : s'.recover ≡ s.maxseq
    action : is_timeout s'.last_action ≡ false
    cuts : s'.ncwndcuts ≡ s.ncwndcuts + 1
    responses : s'.necnresponses ≡ s.necnresponses + 1

  ecn-Answered :
      (window : ℕ) (seqno : ℤ) (s : Cwnd R)
      → (ltb_ℤ s.recover seqno || is_timeout s.last_action) ≡ true
      → Answered s (ecn d log c t window seqno s)
  unfolding ecn slowdown back_off set_decrease
  ecn-Answered window seqno s due = record {
    recover = ground (arith, due);
    action = ground (arith, due);
    cuts = ground (arith, due);
    responses = ground (arith, due);
  }

  ecn_all-none :
      (echoes : List (ℕ × ℤ)) (s s' : Cwnd R)
      → Answered s s'
      → AreSent s echoes
      → ecn_all echoes s' ≡ s'
  unfolding ecn
  ecn_all-none [] s s' a sent = refl
  ecn_all-none ((window, seqno) ∷ echoes) s s' a sent =
      let none_due : (ltb_ℤ s'.recover seqno || is_timeout s'.last_action) ≡ false =
        rw (a.recover, sent.0, a.action) refl in
      rw none_due (ecn_all-none echoes s s' a sent.1)

  -- Let an ECN-Echo be due for an answer: it is of a segment above recover_, or the last cut was
  -- for a timeout. Then it and any further echoes of segments up to maxseq_, before anything more
  -- is sent, leave the sender as the first one alone does: one cut of the window, one response.
  pub ecn_all-once :
      (window : ℕ) (seqno : ℤ) (echoes : List (ℕ × ℤ)) (s : Cwnd R)
      → (ltb_ℤ s.recover seqno || is_timeout s.last_action) ≡ true
      → AreSent s echoes
      → let s' = ecn_all ((window, seqno) ∷ echoes) s in
        (s' ≡ ecn d log c t window seqno s)
        × (s'.ncwndcuts ≡ s.ncwndcuts + 1)
        × (s'.necnresponses ≡ s.necnresponses + 1)
  ecn_all-once window seqno echoes s due sent =
      let a = ecn-Answered window seqno s due in
      let same = ecn_all-none echoes s (ecn d log c t window seqno s) a sent in
      (same, ap (λ x. x.ncwndcuts) same ∙ a.cuts, ap (λ x. x.necnresponses) same ∙ a.responses)
