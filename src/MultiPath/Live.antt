-- ===== src/MultiPath/Live.antt =====
-- What `classify` answers while some link is up.
use native.Mathlib.Nat.{mod-lt}
use saps_extended.Base.{
  ℕ, ◌%◌, ◌<◌, ◌≡◌, refl, ap, Bool, true, false, not, ◌&&◌, ◌||◌, Option, some, ◌==◌, arith,
  if◌then◌else◌, Bool-cases, inl, inr,
}
use saps_extended.MultiPath.{
  Config, Header, Choice, slots, spray, probe, found, ecmp_slot, ecmp_hash, classify,
}
use saps_extended.MultiPath.Rotate.{spray_round, probe_round}

-- The call balances by one of the schemes that search the whole table: packet spraying with no
-- detected failure, flowcell spraying without a full failure, or ECMP.
abbrev pub searches_all : Config → Header → Bool
searches_all c h =
    if c.packet_spraying
    then not (c.selective_spraying && h.failure_detected)
    else if c.flowcell_spraying
    then not (c.failure_case == 2)
    else not (c.perflow == 0) || not h.is_elephant

module _ (c : Config) (ns : ℕ) (h : Header) (stale unset : ℕ) where
  -- The result is a slot of the table that is set.
  pub Answers : Option Choice → Type 0
  Answers r = (x : Choice) × (r ≡ some x) × (x.cl < slots c) × (c.slot x.cl ≡ true)

  -- The slot that ECMP wants lies in the table, if the one that a ToR switch has left does.
  ecmp_slot-lt : (ms : ℕ) → h.agg_decision < slots c → (ecmp_slot c h ms).0 < slots c
  unfolding ecmp_slot
  ecmp_slot-lt ms k =
      ground (
        arith,
        mod-lt ms {m = slots c} (omega arith),
        mod-lt (ms % c.k) {m = slots c} (omega arith),
      )

  Answers-found :
      (ns' i j : ℕ) (h' : Header)
      → i < slots c
      → j < slots c
      → c.slot j ≡ true
      → Answers (found c ns' h' (probe c (slots c) i))
  unfolding Answers
  Answers-found ns' i j h' p k set =
      let (cl, eq, d, f, live, lt) = probe_round c i j p k set in
      (record { cl = cl; ns = ns'; header = h' }, ap (found c ns' h') eq, lt, live)

  Answers-spray :
      (j : ℕ)
      → ns < slots c
      → j < slots c
      → c.slot j ≡ true
      → let r = spray c (slots c) ns ns in
        Answers (some (record { cl = r.0; ns = r.1; header = h }))
  unfolding Answers
  Answers-spray j p k set =
      let (d, f, live, lt, nx) = spray_round c ns j p k set in (_, refl, lt, live)

  ecmp_guard :
      c.packet_spraying ≡ false
      → c.flowcell_spraying ≡ false
      → searches_all c h ≡ true
      → (not (c.perflow == 0) || not h.is_elephant) ≡ true
  ecmp_guard p f a = ground arith

  -- Let some slot of the table be set, and ns_, the packet's link and its aggregation decision
  -- lie in the table. Then classify answers with a slot of the table that is set, for packet
  -- spraying, unless it is selective and the packet has its failure mark, for flowcell spraying,
  -- unless the failure case is 2, and for ECMP, if perflow_ is set or the packet is not of an
  -- elephant.
  pub classify_live :
      (j : ℕ)
      → j < slots c
      → c.slot j ≡ true
      → ns < slots c
      → h.link_id < slots c
      → h.agg_decision < slots c
      → searches_all c h ≡ true
      → Answers (classify c ns h stale unset)
  unfolding classify
  classify_live j k set a b d all = elim (Bool-cases c.packet_spraying) [
    | inl ps ↦ elim (Bool-cases (c.selective_spraying && h.failure_detected)) [
      | inl sel ↦ absurd (ground arith)
      | inr whole ↦ simp (ps, whole) (Answers-spray j a k set)
    ]
    | inr no_ps ↦ elim (Bool-cases c.flowcell_spraying) [
      | inl fs ↦ elim (Bool-cases (c.failure_case == 2)) [
        | inl full ↦ absurd (ground arith)
        | inr partial ↦ simp (no_ps, fs, partial) (Answers-found h.link_id h.link_id j h b k set)
      ]
      | inr no_fs ↦
          simp (no_ps, no_fs, ecmp_guard no_ps no_fs all)
            (Answers-found ns (ecmp_slot c h (ecmp_hash c h stale)).0 j
              (ecmp_slot c h (ecmp_hash c h stale)).1 (ecmp_slot-lt (ecmp_hash c h stale) d) k set)
    ]
  ]
