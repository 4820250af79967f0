-- ===== src/Balance/Pick/Bounds.antt =====
-- The link of a packet is one of the uplinks, whatever the scheme.
use native.Mathlib.Nat.{mod-lt}
use saps_extended.Base.{
  ℕ, zero, suc, ◌+◌, ◌-◌, ◌%◌, ◌<◌, ◌≡◌, refl, Bool, true, false, Option, none, some, arith, subst,
  Bool-cases, inl, inr, ltb, ◌==◌, if◌then◌else◌,
}
use saps_extended.Base.Int.{ℤ}
use saps_extended.Uplinks.{skip_invalid, skip_in, next_valid_link}
use saps_extended.Svt.Mapping.{Flow, Draws, spray_valid}
use saps_extended.Balance.{
  ok, Ensures, Ensures->>=, Scheme, Lb, Moment, first_failed, advance, to_first, unaware,
}
use saps_extended.Balance.Start.{start, start_tables, start_weights, start_failed, start_good}
use saps_extended.Balance.Wfcs.{round, rounds, take_turn, wfcs, wfcs_many, wfcs_one}
use saps_extended.Balance.Weights.{draw, weighted}
use saps_extended.Balance.Failure.{
  leave_poor, next_healthy, poor_partial, selective_partial, full_failure, by_case,
}
use saps_extended.Balance.Pick.{sprayed, spray, at_failed, pick_detected, pick_fixed, pick, balance}

skip_invalid-lt :
    (fuel n i : ℕ) (svt : ℕ → ℤ) {l : ℕ} → i < n → skip_invalid fuel n svt i ≡ some l → l < n
unfolding skip_invalid
skip_invalid-lt zero n i svt h e = ground arith
skip_invalid-lt (suc fuel) n i svt {l} h e =
    ground (
      arith,
      skip_invalid-lt fuel n ((i + 1) % n) svt {l = l} (mod-lt (i + 1) {m = n} (omega arith)),
    )

skip_in-lt : (t : Option (ℕ → ℤ)) (n i : ℕ) {l : ℕ} → i < n → skip_in t n i ≡ some l → l < n
unfolding skip_in
skip_in-lt none n i h e = ground arith
skip_in-lt (some svt) n i h e = skip_invalid-lt n n i svt h e

draw-lt :
    (n : ℕ) (w : ℕ → ℕ) (random added counter : ℕ)
    → 0 < n
    → (draw n w random added counter).0 ≡ true
    → (draw n w random added counter).1 < counter + n
unfolding draw
draw-lt zero w random added counter h e = absurd (omega arith)
draw-lt (suc zero) w random added counter h e = ground arith
draw-lt (suc (suc n)) w random added counter h e =
    ground (arith, draw-lt (suc n) w random (added + w counter) (suc counter))

module _ (c : Scheme) (pos : 0 < c.num_uplinks)
    (first : (first_failed c).spine < c.num_uplinks) where
  -- The state's link is an uplink.
  abbrev In : Lb → Type 0
  In s = s.link_id < c.num_uplinks

  -- So is that of a round's state.
  abbrev InRound : Bool × Lb → Type 0
  InRound r = In r.1

  advance-In : (s : Lb) → In (advance c s)
  advance-In s = mod-lt (s.link_id + 1) {m = c.num_uplinks} pos

  round-In : (p : Moment) (s : Lb) → In s → Ensures InRound (round c p s)
  unfolding round take_turn
  round-In p s h = ground (arith, advance-In s)

  next_round-In :
      (n : ℕ) (p : Moment) (r : Bool × Lb)
      → In r.1
      → Ensures InRound (rounds n c p r.1)
      → Ensures InRound (elim (r.0) [ true ↦ ok r | false ↦ rounds n c p r.1 ])
  next_round-In n p (true, s) h rest = h
  next_round-In n p (false, s) h rest = rest

  rounds-In : (n : ℕ) (p : Moment) (s : Lb) → In s → Ensures InRound (rounds n c p s)
  unfolding rounds
  rounds-In zero p s h = h
  rounds-In (suc n) p s h =
      Ensures->>= InRound InRound (round c p s) _ (round-In p s h)
        (λ r k. next_round-In n p r k (rounds-In n p r.1 k))

  wfcs_many-In : (p : Moment) (s : Lb) → Ensures In (wfcs_many c p s)
  unfolding wfcs_many
  wfcs_many-In p s = elim (Bool-cases (ltb 0 s.direct_failures)) [
    | inl some_direct ↦ rw some_direct (
        Ensures->>= InRound In (rounds c.num_uplinks c p (advance c s)) _
          (rounds-In c.num_uplinks p (advance c s) (advance-In s)) (λ r k. k))
    | inr none_direct ↦ rw none_direct (advance-In s)
  ]

  wfcs_one-In : (p : Moment) (s : Lb) → Ensures In (wfcs_one c p s)
  unfolding wfcs_one
  wfcs_one-In p s = ground (arith, advance-In s, advance-In (advance c s))

  wfcs-In : (p : Moment) (s : Lb) → In s → Ensures In (wfcs c p s)
  unfolding wfcs
  wfcs-In p s h = ground (arith, wfcs_many-In p s, wfcs_one-In p s)

  leave_poor-In : (s : Lb) → In (leave_poor c s)
  unfolding leave_poor
  leave_poor-In s = ground (
    arith,
    advance-In (record s { poor_path = false }),
    advance-In (advance c (record s { poor_path = false })),
  )

  next_healthy-In : (s : Lb) → In (next_healthy c s)
  unfolding next_healthy
  next_healthy-In s = ground (arith, advance-In s, advance-In (advance c s))

  selective_partial-In : (p : Moment) (s : Lb) → In s → In (selective_partial c p s)
  unfolding selective_partial poor_partial
  selective_partial-In p s h = ground (arith, leave_poor-In s, next_healthy-In s)

  full_failure-In : (p : Moment) (s : Lb) → In s → In (full_failure c p s)
  unfolding full_failure
  full_failure-In p s h = ground (
    arith,
    advance-In s,
    advance-In (advance c s),
    advance-In (record (to_first c s) { poor_path = false }),
    advance-In (advance c (record (to_first c s) { poor_path = false })),
  )

  unaware-In : (p : Moment) (s : Lb) → In s → In (unaware c p s)
  unfolding unaware
  unaware-In p s h = ground (arith, advance-In s)

  weighted-In : (p : Moment) (s : Lb) → p.random_link < c.num_uplinks → In s → In (weighted c p s)
  unfolding weighted
  weighted-In p s k h = ground (arith, draw-lt c.num_uplinks s.weights p.random_weight 0 0)

  start_failed-In : (s : Lb) → In s → In (start_failed c s)
  unfolding start_failed start_weights
  start_failed-In s h = ground (arith, mod-lt ((first_failed c).spine + 1) {m = c.num_uplinks} pos)

  start_good-In : (s : Lb) → In s → In (start_good c s)
  unfolding start_good start_weights
  start_good-In s h = ground (arith, mod-lt ((first_failed c).spine + 1) {m = c.num_uplinks} pos)

  start_tables-In : (f : Flow) (r : Draws) (s : Lb) → In s → In (start_tables c f r s)
  unfolding start_tables
  start_tables-In f r s h = ground arith

  start-In : (f : Flow) (r : Draws) (s : Lb) → In (start c f r s)
  unfolding start
  start-In f r s =
      let s1 : Lb = record s { link_id = c.num_uplinks - 1; rfactor = 0 } in
      let h : In (start_tables c f r s1) = start_tables-In f r s1 (omega arith) in
      ground
        (arith, start_failed-In (start_tables c f r s1) h, start_good-In (start_tables c f r s1) h)

  sprayed-In :
      (s : Lb) (m : ℕ) (found : Option ℕ)
      → ((l : ℕ) → found ≡ some l → l < c.num_uplinks)
      → Ensures In (sprayed s (m, found))
  unfolding sprayed
  sprayed-In s m none h = tt
  sprayed-In s m (some l) h = h l refl

  spray-In : (p : Moment) (s : Lb) → In s → Ensures In (spray c p s)
  unfolding spray spray_valid next_valid_link
  spray-In p s h =
      sprayed-In s _ _
        (λ l e. skip_in-lt _ c.num_uplinks _ (mod-lt (s.link_id + 1) {m = c.num_uplinks} pos) e)

  by_case-In : (p : Moment) (s : Lb) → In s → Ensures In (by_case c p s)
  unfolding by_case
  by_case-In p s h =
      ground
        (arith, selective_partial-In p s h, wfcs-In p s h, full_failure-In p s h, unaware-In p s h)

  pick_fixed-In : (p : Moment) (s : Lb) → In s → Ensures In (pick_fixed c p s)
  unfolding pick_fixed at_failed
  pick_fixed-In p s h = ground (arith, advance-In s, advance-In (advance c s))

  pick-In : (p : Moment) (s : Lb) → p.random_link < c.num_uplinks → In s → Ensures In (pick c p s)
  unfolding pick pick_detected
  pick-In p s k h = ground (
    arith,
    spray-In p s h,
    by_case-In p s h,
    unaware-In p s h,
    weighted-In p s k h,
    pick_fixed-In p s h,
  )

-- With at least one uplink, the first failed link's spine and the random link among the uplinks,
-- the link of a packet is an uplink, if the packet is the first of its flow or the last link was
-- an uplink: by every scheme, on every branch that gives a link.
pub balance-link_id :
    (c : Scheme) (f : Flow) (r : Draws) (p : Moment) (s : Lb) {s' : Lb}
    → 0 < c.num_uplinks
    → (first_failed c).spine < c.num_uplinks
    → p.random_link < c.num_uplinks
    → (0 < p.packs → s.link_id < c.num_uplinks)
    → balance c f r p s ≡ ok s'
    → s'.link_id < c.num_uplinks
unfolding balance
balance-link_id c f r p s pos first k h e =
    let last : (if p.packs == 0 then start c f r s else s).link_id < c.num_uplinks =
      ground (arith, start-In c pos first f r s, h) in
    subst (Ensures (In c pos first)) e (pick-In c pos first p _ k last)
