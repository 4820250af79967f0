-- ===== src/Balance/Wfcs/Turns.antt =====
-- Where the loop over the spines ends, by whose turn it is.
use native.Mathlib.Nat.{mod-lt, mod-add-mod, mod-eq_of_lt, add-mod_right}
use saps_extended.Base.{
  ℕ, zero, suc, ◌+◌, ◌%◌, ◌<◌, ◌≡◌, inl, inr, ap, ◌∙◌, true, false, List, [], ◌∷◌, some, arith,
  ==_iff, lt→ltb, ◌≢◌, ltb, ◌==◌, if◌then◌else◌, Bool-cases,
}
use saps_extended.MultiPath.{Config, probe}
use saps_extended.MultiPath.Rotate.{Found, probe_round}
use saps_extended.Uplinks.{FailedLink, is_spine_failed}
use saps_extended.Balance.{ok, Scheme, Lb, Moment, advance}
use saps_extended.Balance.Wfcs.{status, weak_turn, take_turn, round, rounds, wfcs_many}

-- The answer of `isSpineFailed` for the spines that have their turn.
abbrev pub wanted : Moment → Lb → ℕ
wanted p s = if weak_turn p s then 1 else 0

-- A classifier whose slots are the spines, and set if `isSpineFailed` answers so.
abbrev pub spines : Scheme → ℕ → ℕ → Config
spines c want last = record {
  perflow = 0;
  packet_spraying = false;
  flowcell_spraying = false;
  selective_spraying = false;
  k = 0;
  failure_case = 0;
  maxslot = last;
  slot = λ i. status c i == want;
}

-- The state after a spine has had its turn.
abbrev pub turned : Scheme → Moment → Lb → ℕ → Lb
turned c p s l = let s' = record s { link_id = l } in if weak_turn p s then take_turn c s' else s'

is_spine_failed-lt :
    (links : List FailedLink) (src dest i : ℕ) → is_spine_failed links src dest i < 3
unfolding is_spine_failed
is_spine_failed-lt [] src dest i = omega arith
is_spine_failed-lt (l ∷ links) src dest i = ground (arith, is_spine_failed-lt links src dest i)

module _ (c : Scheme) (last : ℕ) (spines_many : c.num_uplinks ≡ last + 1) (p : Moment) where
  abbrev at : Lb → ℕ → Lb
  at s i = record s { link_id = i }

  round-hit :
      (s : Lb) (i : ℕ)
      → 0 < s.flow_cell_mod
      → (status c i == wanted p s) ≡ true
      → round c p (at s i) ≡ ok (true, turned c p s i)
  unfolding round
  round-hit s i pos hit = ground arith

  round-miss :
      (s : Lb) (i : ℕ)
      → 0 < s.flow_cell_mod
      → (status c i == wanted p s) ≡ false
      → round c p (at s i) ≡ ok (false, at s ((i + 1) % (last + 1)))
  unfolding round
  round-miss s i pos miss = ground (
    arith,
    is_spine_failed-lt c.links c.src_leaf c.dest_leaf i,
    ap (λ k. (i + 1) % k) spines_many,
  )

  rounds-probe :
      (n i l : ℕ) (s : Lb)
      → 0 < s.flow_cell_mod
      → probe (spines c (wanted p s) last) n i ≡ some l
      → rounds n c p (at s i) ≡ ok (true, turned c p s l)
  unfolding rounds probe
  rounds-probe zero i l s pos e = ground arith
  rounds-probe (suc n) i l s pos e = elim (Bool-cases (status c i == wanted p s)) [
    | inl hit ↦ rw (round-hit s i pos hit) (ground arith)
    | inr miss ↦
        rw (round-miss s i pos miss) (rounds-probe n ((i + 1) % (last + 1)) l s pos (ground arith))
  ]

  rounds-blind :
      (n i : ℕ) (s : Lb)
      → 0 < s.flow_cell_mod
      → ((k : ℕ) → k < last + 1 → (status c k == wanted p s) ≡ false)
      → i < last + 1
      → rounds n c p (at s i) ≡ ok (false, at s ((i + n) % (last + 1)))
  unfolding rounds
  rounds-blind zero i s pos away h =
      ap (λ k. ok (false, at s k)) (ground (arith, mod-eq_of_lt {n = i} {m = last + 1} h))
  rounds-blind (suc n) i s pos away h = rw (round-miss s i pos (away i h)) (
      rounds-blind n ((i + 1) % (last + 1)) s pos away (mod-lt (i + 1) {m = last + 1} (omega arith))
      ∙ ap (λ k. ok (false, at s k))
          (mod-add-mod (i + 1) (last + 1) n ∙ ap (λ k. k % (last + 1)) (omega arith)))

-- Let the agent count failed links to one of its leaves, and flowCellMod_ not be 0. Then in the
-- turn of the weak spines the next link is the first one after the last link that isSpineFailed
-- reports as partially failed, which then has had its turn; otherwise it is the first that
-- isSpineFailed reports as not failed, and nothing else changes; in each case if there is such a
-- link.
pub wfcs_many_lem :
    (c : Scheme) (last : ℕ) (p : Moment) (s : Lb) (j : ℕ)
    → c.num_uplinks ≡ last + 1
    → 0 < s.flow_cell_mod
    → 0 < s.direct_failures
    → j < last + 1
    → status c j ≡ wanted p s
    → (l : ℕ) × (wfcs_many c p s ≡ ok (turned c p s l))
      × (l < last + 1)
      × (status c l ≡ wanted p s)
      × (d : ℕ) × Found (spines c (wanted p s) last) ((s.link_id + 1) % (last + 1)) d l
unfolding wfcs_many
wfcs_many_lem c last p s j many pos direct lt e =
    let (l, eq, d, f, live, below) =
      probe_round (spines c (wanted p s) last) ((s.link_id + 1) % (last + 1)) j
        (mod-lt (s.link_id + 1) {m = last + 1} (omega arith)) lt ((==_iff _ _).1 e) in
    let run = rounds-probe c last many p (last + 1) ((s.link_id + 1) % (last + 1)) l s pos eq in
    (l, simp (lt→ltb _ _ direct, many, run), below, (==_iff _ _).0 live, d, f)

weak-missed :
    (c : Scheme) (p : Moment) (s : Lb) (k : ℕ)
    → weak_turn p s ≡ true
    → status c k ≢ 1
    → (status c k == wanted p s) ≡ false
weak-missed c p s k turn away = ground (arith, away)

-- In the turn of the weak spines, with flowCellMod_ not 0, if isSpineFailed reports no spine as
-- partially failed, the loop leaves the next link, failed or not.
pub wfcs_many_blind :
    (c : Scheme) (last : ℕ) (p : Moment) (s : Lb)
    → c.num_uplinks ≡ last + 1
    → 0 < s.flow_cell_mod
    → weak_turn p s ≡ true
    → ((k : ℕ) → k < last + 1 → status c k ≢ 1)
    → wfcs_many c p s ≡ ok (advance c s)
unfolding wfcs_many
wfcs_many_blind c last p s many pos turn away =
    let start = (s.link_id + 1) % (last + 1) in
    let run =
      rounds-blind c last many p (last + 1) start s pos (λ k h. weak-missed c p s k turn (away k h))
        (mod-lt (s.link_id + 1) {m = last + 1} (omega arith)) in
    let round_trip : (start + (last + 1)) % (last + 1) ≡ start =
      add-mod_right start (last + 1)
      ∙ mod-eq_of_lt (mod-lt (s.link_id + 1) {m = last + 1} (omega arith)) in
    elim (Bool-cases (ltb 0 s.direct_failures)) [
      | inl direct ↦ simp (direct, many, run, round_trip)
      | inr indirect ↦ simp (indirect)
    ]
