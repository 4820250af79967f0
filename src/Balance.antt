-- ===== src/Balance.antt =====
-- The load balancing of `TcpAgent::output` in tcp/tcp.cc: the link that a packet asks for, by the
-- scheme's settings, the failed links that the flow knows and how much of the flow has been sent.
-- The children model the parts: `Start` the first packet, `Wfcs` the schemes that weigh by rounds,
-- `Weights` those that draw a link, `Failure` the cases of a failure, `Pick` the whole choice.
pub mod Start
pub mod Wfcs
pub mod Weights
pub mod Failure
pub mod Pick
mod Tests
use saps_extended.Base.{
  ℕ, ◌+◌, ◌%◌, List, [], ◌∷◌, Bool, true, false, not, ◌&&◌, ◌||◌, ltb, ◌==◌, if◌then◌else◌, length,
}
use saps_extended.Uplinks.{FailedLink, Svts}

-- A step may divide by zero, which ends the program, or search a table for ever.
pub data Outcome {ℓ} (A : Type ℓ) : Type ℓ where
  ok : A → Outcome A
  divides_by_zero : Outcome A
  endless : Outcome A

infixl 5 ◌>>=◌
abbrev pub ◌>>=◌ {ℓ κ} : {A : Type ℓ} {B : Type κ} → Outcome A → (A → Outcome B) → Outcome B
ok a >>= f = f a
divides_by_zero >>= f = divides_by_zero
endless >>= f = endless

-- The settings of a flow. Of the flags the code tests only whether they are 0, but for
-- `dynamicMapping_` and `DA_sprayOnly_`, which it also compares with 1.
-- `links` are the failed links; `stale` is what `failedLinks[0]` reads if there are none.
pub record Scheme : Type 0 where
  pub num_uplinks : ℕ
  pub flowcell_size : ℕ
  pub failure_aware : Bool
  pub realistic : Bool
  pub round_robin : Bool
  pub selective : Bool
  pub failure_case : ℕ
  pub healthy_path_only : Bool
  pub da_spray_only : ℕ
  pub da_flow : Bool
  pub from_failed : Bool
  pub to_failed : Bool
  pub dynamic : ℕ
  pub threshold : ℕ
  pub threshold_gl : ℕ
  pub src_leaf : ℕ
  pub dest_leaf : ℕ
  pub links : List FailedLink
  pub stale : FailedLink

-- `numFailures_` and `failedLinks[0]`
abbrev pub num_failures : Scheme → ℕ
num_failures c = length c.links

abbrev pub head_or : FailedLink → List FailedLink → FailedLink
head_or stale [] = stale
head_or stale (l ∷ links) = l

abbrev pub first_failed : Scheme → FailedLink
first_failed c = head_or c.stale c.links

-- What the agent keeps for the flow.
pub record Lb : Type 0 where
  pub link_id : ℕ
  pub rfactor : ℕ
  pub flow_cell_mod : ℕ
  pub failure_ratio : ℕ
  pub toggle : ℕ
  pub poor_path : Bool
  pub hashed : Bool
  pub mapping : ℕ
  pub tables : Svts
  pub direct_failures : ℕ
  pub direct_partial : ℕ
  pub weights : ℕ → ℕ
  pub total_weights : ℕ

-- A packet's circumstances: `ndatapack_`, `ndatabytes_`, `failureDetected_`, and the results of
-- `Random::integer` for the sum of the weights and for the links.
pub record Moment : Type 0 where
  pub packs : ℕ
  pub bytes : ℕ
  pub detected : Bool
  pub random_weight : ℕ
  pub random_link : ℕ

-- When a failure starts, how long it lasts (0 for ever), and how long its detection takes.
pub record Window : Type 0 where
  pub from : ℕ
  pub duration : ℕ
  pub delay : ℕ

-- `failureDetected_` at a time.
pub detects : Scheme → Window → ℕ → Bool
detects c w now =
    c.realistic
    && not (c.failure_case == 0)
    && ltb (w.from + w.delay) now
    && (w.duration == 0 || (ltb 0 w.duration && ltb now (w.from + w.duration + w.delay)))

-- linkID_ = (linkID_ + 1) % numUplinks
abbrev pub advance : Scheme → Lb → Lb
advance c s = record s { link_id = (s.link_id + 1) % c.num_uplinks }

-- linkID_ = failedLinks[0].spine
abbrev pub to_first : Scheme → Lb → Lb
to_first c s = record s { link_id = (first_failed c).spine }

-- if(linkID_ == failedLinks[0].spine && …) linkID_ = (linkID_ + 1) % numUplinks;
abbrev pub skip_first : Scheme → Bool → Lb → Lb
skip_first c also s =
    if s.link_id == (first_failed c).spine then (if also then advance c s else s) else s

-- ndatapack_ % flowcellSizePkts_ == 0
abbrev pub new_cell : Scheme → Moment → Bool
new_cell c p = p.packs % c.flowcell_size == 0

-- Each link in turn.
unfoldable pub unaware : Scheme → Moment → Lb → Lb
unaware c p s = if new_cell c p then advance c s else s

-- `P` holds of the result, if there is one.
abbrev pub Ensures {ℓ κ} : {A : Type ℓ} → (A → Type κ) → Outcome A → Type κ
Ensures P (ok a) = P a
Ensures P divides_by_zero = Unit
Ensures P endless = Unit

pub Ensures->>= {ℓ κ μ} :
    {A : Type ℓ} {B : Type κ} (P : A → Type μ) (Q : B → Type μ) (m : Outcome A) (f : A → Outcome B)
    → Ensures P m
    → ((a : A) → P a → Ensures Q (f a))
    → Ensures Q (m >>= f)
Ensures->>= P Q (ok a) f h k = k a h
Ensures->>= P Q divides_by_zero f h k = tt
Ensures->>= P Q endless f h k = tt
