-- ===== src/Dctcp/Reroute.antt =====
-- FlowBender reroutes a flow after `flowBender_N` congested round-trip times in a row.
use saps_extended.Base.{
  ℕ, ◌+◌, ◌*◌, ◌<◌, ◌≡◌, ◌∙◌, List, [], ◌∷◌, true, arith, if◌then◌else◌, length,
}
use saps_extended.Dctcp.{
  Double, Ack, acked_bytes, Counts, fraction, count_ack, new_alpha, update_dctcp_alpha, bend,
  check_congestion,
}
use saps_extended.Dctcp.Bytes.{all_bytes, marked_bytes}

module _ {R : Type 0} (d : Double R) (gain threshold : R) (limit : ℕ) where
  -- The acknowledgements of a round-trip time, and the check at its end.
  pub acks_of : Counts R → List Ack → Counts R
  acks_of s [] = s
  acks_of s (a ∷ acks) = acks_of (update_dctcp_alpha d gain s a) acks

  pub trip : Counts R → List Ack → Counts R
  trip s acks = check_congestion d threshold limit (acks_of s acks)

  pub trips : Counts R → List (List Ack) → Counts R
  trips s [] = s
  trips s (acks ∷ rest) = trips (trip s acks) rest

  -- More than the threshold's part of the bytes is marked; some bytes are acknowledged.
  abbrev pub IsCongested : List Ack → Type 0
  IsCongested acks =
      (0 < all_bytes acks)
      × (d.gt (fraction d (marked_bytes acks) (all_bytes acks)) threshold ≡ true)

  abbrev pub AllCongested : List (List Ack) → Type 0
  AllCongested [] = Unit
  AllCongested (acks ∷ rest) = IsCongested acks × AllCongested rest

  counted :
      (s : Counts R) (a : Ack)
      → let s' = update_dctcp_alpha d gain s a in
        (s'.total_acks ≡ s.total_acks + acked_bytes a)
        × (s'.marked_acks ≡ s.marked_acks + (if a.ecnecho then acked_bytes a else 0))
        × (s'.congested ≡ s.congested)
        × (s'.ttl ≡ s.ttl)
  unfolding update_dctcp_alpha count_ack new_alpha
  counted s a = ground arith

  acks_of-counted :
      (s : Counts R) (acks : List Ack)
      → let s' = acks_of s acks in
        (s'.total_acks ≡ s.total_acks + all_bytes acks)
        × (s'.marked_acks ≡ s.marked_acks + marked_bytes acks)
        × (s'.congested ≡ s.congested)
        × (s'.ttl ≡ s.ttl)
  unfolding acks_of
  acks_of-counted s [] = ground arith
  acks_of-counted s (a ∷ acks) =
      ground (arith, counted s a, acks_of-counted (update_dctcp_alpha d gain s a) acks)

  -- The state after a check: no acknowledgement is counted.
  pub record IsFresh (s : Counts R) : Type 0 where
    pub no_acks : s.total_acks ≡ 0
    pub no_marks : s.marked_acks ≡ 0
    pub few : s.congested < limit

  times-suc : (n : ℕ) → limit * (n + 1) ≡ limit * n + limit
  times-suc n = grind arith

  bend_lem :
      (s : Counts R)
      → s.congested < limit
      → let s' = bend d limit s in
        (s'.congested < limit) × (limit * s'.ttl + s'.congested ≡ limit * s.ttl + s.congested + 1)
  unfolding bend
  bend_lem s h = ground (arith, times-suc s.ttl)

  check-congested :
      (s : Counts R)
      → 0 < s.total_acks
      → d.gt (fraction d s.marked_acks s.total_acks) threshold ≡ true
      → let s' = check_congestion d threshold limit s in
        (s'.total_acks ≡ 0)
        × (s'.marked_acks ≡ 0)
        × (s'.congested ≡ (bend d limit s).congested)
        × (s'.ttl ≡ (bend d limit s).ttl)
  unfolding check_congestion
  check-congested s some_acks above = ground arith

  -- The sum grows by one with each congested round-trip time.
  abbrev pub score : Counts R → ℕ
  score s = limit * s.ttl + s.congested

  trip-congested :
      (s : Counts R) (acks : List Ack)
      → IsFresh s
      → IsCongested acks
      → IsFresh (trip s acks) × (score (trip s acks) ≡ score s + 1)
  unfolding trip
  trip-congested s acks f (some_acks, above) =
      let s' = acks_of s acks in
      let (total, marked, same, ttl) = acks_of-counted s acks in
      let all : s'.total_acks ≡ all_bytes acks = omega (arith, total, f.no_acks) in
      let marks : s'.marked_acks ≡ marked_bytes acks = omega (arith, marked, f.no_marks) in
      let checked = check-congested s' (omega (arith, all)) (simp (all, marks) above) in
      let bent = bend_lem s' (omega (arith, same, f.few)) in
      (
        record {
          no_acks = checked.0;
          no_marks = checked.1;
          few = omega (arith, checked.2, bent.0);
        },
        ground (arith, checked.2, checked.3, bent.1, same, ttl),
      )

  -- Let FlowBender have counted nothing since its last check, and less than flowBender_N
  -- congested round-trip times. Then round-trip times that are all congested are counted one by
  -- one, and every flowBender_N of them reroute the flow once: flowBender_N times the ttl, plus
  -- the count, grows by one with each, and the count stays below flowBender_N.
  pub trips-congested :
      (s : Counts R) (rest : List (List Ack))
      → IsFresh s
      → AllCongested rest
      → IsFresh (trips s rest) × (score (trips s rest) ≡ score s + length rest)
  unfolding trips
  trips-congested s [] f all = (f, omega arith)
  trips-congested s (acks ∷ rest) f (here, all) =
      let (f', e) = trip-congested s acks f here in
      let (f'', e') = trips-congested (trip s acks) rest f' all in (f'', e' ∙ omega (arith, e))
