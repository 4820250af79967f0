-- ===== src/Cwnd/Growth/Rounds.antt =====
-- What `opencwnd` does to the window over the acknowledgements of one window.
use saps_extended.Base.{
  ℕ, zero, suc, ◌+◌, ◌≤◌, ◌<◌, ◌≡◌, refl, ap, ◌∙◌, true, false, Option, none, some, ltb, leb,
  if◌then◌else◌, arith,
}
use saps_extended.Red.{Double}
use saps_extended.Cwnd.{Settings, Cwnd}
use saps_extended.Cwnd.Growth.{GrowSettings, Growth, opencwnd, linear_increase}

-- Integers are exact in the arithmetic.
pub record IsExact {R : Type 0} (d : Double R) : Type 0 where
  pub lt_int : (a b : ℕ) → d.lt (d.of_int a) (d.of_int b) ≡ ltb a b
  pub le_int : (a b : ℕ) → d.le (d.of_int a) (d.of_int b) ≡ leb a b
  pub add_one : (a : ℕ) → d.add (d.of_int a) (d.num 1 1) ≡ d.of_int (a + 1)
  pub trunc_int : (a : ℕ) → d.trunc (d.of_int a) ≡ a

-- The window, the count and the threshold.
pub record Stands {R : Type 0} (d : Double R) (s : Cwnd R) (w k t : ℕ) : Type 0 where
  pub window : s.cwnd ≡ d.of_int w
  pub counted : s.count ≡ k
  pub threshold : s.ssthresh ≡ t

abbrev and_then :
    {R : Type 0}
    → Option (Cwnd R × Growth R)
    → (Cwnd R → Growth R → Option (Cwnd R × Growth R))
    → Option (Cwnd R × Growth R)
and_then none f = none
and_then (some (s, w)) f = f s w

module _ {R : Type 0} (d : Double R) (log exp : R → R) (c : Settings R) (g : GrowSettings R) where
  -- `n` acknowledgements.
  pub open_times : ℕ → Cwnd R → Growth R → Option (Cwnd R × Growth R)
  open_times zero s w = some (s, w)
  open_times (suc n) s w = and_then (opencwnd d log exp c g s w) (open_times n)

  open_times_step :
      (n : ℕ) (s : Cwnd R) (w : Growth R) (s' : Cwnd R)
      → opencwnd d log exp c g s w ≡ some (s', w)
      → open_times (suc n) s w ≡ open_times n s' w
  unfolding open_times
  open_times_step n s w s' e = ap (λ r. and_then r (open_times n)) e

  module _ (laws : IsExact d) (no_max : g.maxcwnd ≡ 0) where
    slow_step :
        (s : Cwnd R) (w : Growth R) (n k t : ℕ)
        → Stands d s n k t
        → n < t
        → opencwnd d log exp c g s w ≡ some (record s { cwnd = d.of_int (n + 1) }, w)
    unfolding opencwnd
    slow_step s w n k t h below =
        let slow : d.lt s.cwnd (d.of_int s.ssthresh) ≡ true =
          ap (λ x. d.lt x (d.of_int s.ssthresh)) h.window
          ∙ (laws.lt_int n s.ssthresh ∙ ground (arith, h.threshold)) in
        let up : d.add s.cwnd (d.num 1 1) ≡ d.of_int (n + 1) =
          ap (λ x. d.add x (d.num 1 1)) h.window ∙ laws.add_one n in
        ground (arith, slow, up, no_max)

    linear_step :
        (s : Cwnd R) (w : Growth R) (n k t : ℕ)
        → Stands d s n k t
        → t ≤ n
        → c.wnd_option ≡ 0
        → opencwnd d log exp c g s w
          ≡ some (
            (if leb n (k + 1)
                then record s { cwnd = d.of_int (n + 1); count = 0 }
                else record s { count = k + 1 }),
            w,
          )
    unfolding opencwnd linear_increase
    linear_step s w n k t h above zero_option =
        let not_slow : d.lt s.cwnd (d.of_int s.ssthresh) ≡ false =
          ap (λ x. d.lt x (d.of_int s.ssthresh)) h.window
          ∙ (laws.lt_int n s.ssthresh ∙ ground (arith, h.threshold)) in
        let up : d.add s.cwnd (d.num 1 1) ≡ d.of_int (n + 1) =
          ap (λ x. d.add x (d.num 1 1)) h.window ∙ laws.add_one n in
        let test : d.le s.cwnd (d.of_int (s.count + 1)) ≡ leb n (k + 1) =
          ap (λ x. d.le x (d.of_int (s.count + 1))) h.window
          ∙ (laws.le_int n (s.count + 1) ∙ ap (λ j. leb n (j + 1)) h.counted) in
        ground (arith, not_slow, up, test, no_max, zero_option, h.counted)

    slow_times :
        (j : ℕ) (s : Cwnd R) (w : Growth R) (n k t : ℕ)
        → Stands d s n k t
        → n + j ≤ t
        → open_times j s w ≡ some (record s { cwnd = d.of_int (n + j) }, w)
    unfolding open_times
    slow_times zero s w n k t h below =
        ap (λ x. some (record s { cwnd = x }, w)) (h.window ∙ ap d.of_int (omega arith))
    slow_times (suc j) s w n k t h below =
        let later : Stands d (record s { cwnd = d.of_int (n + 1) }) (n + 1) k t = record {
          window = refl;
          counted = h.counted;
          threshold = h.threshold;
        } in
        open_times_step j s w _ (slow_step s w n k t h (omega arith))
        ∙ (slow_times j (record s { cwnd = d.of_int (n + 1) }) w (n + 1) k t later (omega arith)
            ∙ ap (λ x. some (record s { cwnd = d.of_int x }, w)) (omega arith))

    linear_times :
        (j : ℕ) (s : Cwnd R) (w : Growth R) (n k t : ℕ)
        → Stands d s n k t
        → t ≤ n
        → c.wnd_option ≡ 0
        → k + suc j ≡ n
        → open_times (suc j) s w ≡ some (record s { cwnd = d.of_int (n + 1); count = 0 }, w)
    unfolding open_times
    linear_times zero s w n k t h above zero_option full =
        let done : leb n (k + 1) ≡ true = ground arith in
        open_times_step 0 s w _ (simp (linear_step s w n k t h above zero_option, done))
    linear_times (suc j) s w n k t h above zero_option full =
        let more : leb n (k + 1) ≡ false = ground arith in
        let later : Stands d (record s { count = k + 1 }) n (k + 1) t = record {
          window = h.window;
          counted = refl;
          threshold = h.threshold;
        } in
        open_times_step (suc j) s w _ (simp (linear_step s w n k t h above zero_option, more))
        ∙ linear_times j (record s { count = k + 1 }) w n (k + 1) t later above zero_option
            (omega arith)

-- For an arithmetic that is exact on whole numbers, no maxcwnd_, and a window of n > 0 packets:
-- if 2 n is at most ssthresh_, then n acknowledgements double the window; if ssthresh_ is at most
-- n, count_ is 0 and wnd_option_ is 0, then n acknowledgements open the window by one packet and
-- leave count_ at 0.
pub opencwnd_round :
    {R : Type 0} (d : Double R) (log exp : R → R) (c : Settings R) (g : GrowSettings R) (n : ℕ)
    (s : Cwnd R) (w : Growth R)
    → IsExact d
    → g.maxcwnd ≡ 0
    → 0 < n
    → s.cwnd ≡ d.of_int n
    → (n + n ≤ s.ssthresh
        → open_times d log exp c g n s w ≡ some (record s { cwnd = d.of_int (n + n) }, w))
      × (s.ssthresh ≤ n
          → s.count ≡ 0
          → c.wnd_option ≡ 0
          → open_times d log exp c g n s w
            ≡ some (record s { cwnd = d.of_int (n + 1); count = 0 }, w))
opencwnd_round d log exp c g zero s w laws no_max pos_n window = elim pos_n [ ]
opencwnd_round d log exp c g (suc m) s w laws no_max pos_n window = (
  λ below.
      slow_times d log exp c g laws no_max (suc m) s w (suc m) s.count s.ssthresh
        (record { window = window; counted = refl; threshold = refl }) below,
  λ above empty zero_option.
      linear_times d log exp c g laws no_max m s w (suc m) 0 s.ssthresh
        (record { window = window; counted = empty; threshold = refl }) above zero_option
        (omega arith),
)
