-- ===== src/Balance/Pick/Crash.antt =====
-- A selective scheme that takes the links in turn, with a failure that lasts, for a flow that joins
-- no failed leaf: its turns are empty, and the packet that comes to the failed spine divides by zero.
use native.Mathlib.Nat.{mod-lt, mod-add-mod, mod-eq_of_lt, add-mod_right}
use saps_extended.Base.{
  ℕ, zero, suc, ◌+◌, ◌-◌, ◌%◌, ◌<◌, ◌≤◌, ◌≡◌, refl, ap, sym, ◌∙◌, List, [], ◌∷◌, true, false, arith,
  leb, length, ◌==◌, Bool-cases, inl, inr, ==_iff,
}
use saps_extended.Svt.Mapping.{Flow, Draws}
use saps_extended.Balance.{ok, divides_by_zero, Scheme, Lb, Moment, first_failed, advance, new_cell}
use saps_extended.Balance.Start.{start, start_tables, start_good}
use saps_extended.Balance.Pick.{at_failed, pick, pick_fixed, run}

-- The scheme and the flow.
pub record Spraying (c : Scheme) : Type 0 where
  pub aware : c.failure_aware ≡ true
  pub lasting : c.realistic ≡ false
  pub in_turn : c.round_robin ≡ true
  pub selects : c.selective ≡ true
  pub not_from : c.from_failed ≡ false
  pub not_to : c.to_failed ≡ false

-- Each packet starts a flowcell.
abbrev pub Cells : Scheme → List Moment → Type 0
Cells c [] = Unit
Cells c (p ∷ moments) = (new_cell c p ≡ true) × Cells c moments

module _ (c : Scheme) (sp : Spraying c) where
  start-flow_cell_mod : (f : Flow) (r : Draws) (s : Lb) → (start c f r s).flow_cell_mod ≡ 0
  unfolding start start_tables start_good
  start-flow_cell_mod f r s =
      ground (arith, sp.aware, sp.in_turn, sp.selects, sp.not_from, sp.not_to)

  pick-hit :
      (p : Moment) (s : Lb)
      → s.flow_cell_mod ≡ 0
      → new_cell c p ≡ true
      → (s.link_id + 1) % c.num_uplinks ≡ (first_failed c).spine
      → pick c p s ≡ divides_by_zero
  unfolding pick pick_fixed at_failed
  pick-hit p s empty cell hit =
      ground (arith, sp.aware, sp.lasting, sp.in_turn, sp.selects, sp.not_from, sp.not_to)

  pick-miss :
      (p : Moment) (s : Lb)
      → new_cell c p ≡ true
      → ((s.link_id + 1) % c.num_uplinks == (first_failed c).spine) ≡ false
      → pick c p s ≡ ok (advance c s)
  unfolding pick pick_fixed at_failed
  pick-miss p s cell miss =
      ground (arith, sp.aware, sp.lasting, sp.in_turn, sp.selects, sp.not_from, sp.not_to)

  run-hit :
      (d : ℕ) (moments : List Moment) (s : Lb)
      → s.flow_cell_mod ≡ 0
      → Cells c moments
      → d < length moments
      → (s.link_id + 1 + d) % c.num_uplinks ≡ (first_failed c).spine
      → run c moments s ≡ divides_by_zero
  unfolding run
  run-hit d [] s empty cells h e = absurd (omega arith)
  run-hit zero (p ∷ moments) s empty cells h e =
      rw (pick-hit p s empty cells.0 (ap (λ k. k % c.num_uplinks) (omega arith) ∙ e)) refl
  run-hit (suc d) (p ∷ moments) s empty cells h e =
      elim (Bool-cases ((s.link_id + 1) % c.num_uplinks == (first_failed c).spine)) [
        | inl hit ↦ rw (pick-hit p s empty cells.0 ((==_iff _ _).0 hit)) refl
        | inr miss ↦ rw (pick-miss p s cells.0 miss) (
            run-hit d moments (advance c s) empty cells.1 (omega arith) (
              ap (λ k. k % c.num_uplinks) (omega arith)
              ∙ (mod-add-mod (s.link_id + 1) c.num_uplinks (1 + d)
                  ∙ (ap (λ k. k % c.num_uplinks) (omega arith) ∙ e))))
      ]

-- How many links a flow has before the failed one.
ahead : (n a b : ℕ) → a < n → b < n → (d : ℕ) × (d < n) × ((a + d) % n ≡ b)
ahead n a b h k = elim (Bool-cases (leb a b)) [
  | inl le ↦ (b - a, ground arith, ap (λ x. x % n) (ground arith) ∙ mod-eq_of_lt k)
  | inr gt ↦ (
    b + n - a,
    ground arith,
    ap (λ x. x % n) (ground arith) ∙ (add-mod_right b n ∙ mod-eq_of_lt k),
  )
]

-- For a selective scheme that knows of failures, takes the links in turn and has a failure that
-- lasts, and a flow that joins no failed leaf: if the failed spine is an uplink, each packet
-- starts a flowcell, and there are at least as many packets as uplinks, the flow ends in a
-- division by zero, from whatever state it starts.
pub run_crash :
    (c : Scheme) (f : Flow) (r : Draws) (s : Lb) (moments : List Moment)
    → Spraying c
    → (first_failed c).spine < c.num_uplinks
    → Cells c moments
    → c.num_uplinks ≤ length moments
    → run c moments (start c f r s) ≡ divides_by_zero
run_crash c f r s moments sp first cells long =
    let s' = start c f r s in
    let (d, lt, e) =
      ahead c.num_uplinks ((s'.link_id + 1) % c.num_uplinks) (first_failed c).spine
        (mod-lt (s'.link_id + 1) {m = c.num_uplinks} (omega arith)) first in
    run-hit c sp d moments s' (start-flow_cell_mod c sp f r s) cells (omega arith)
      (sym (mod-add-mod (s'.link_id + 1) c.num_uplinks d) ∙ e)
