-- ===== src/Red.antt =====
-- `class REDQueue` of queue/red.cc: its state, the average queue size and the probability of an
-- early drop; Arrival has the arrival and departure of packets. The arithmetic of `double`, the
-- packet queue `q_` and the results of `Random` are arguments; the early-drop target, tracing and
-- statistics are left out.
pub mod Arrival
pub mod Limit
pub mod Mark
pub mod Thousandths
mod Tests
use saps_extended.Base.{
  ℕ, zero, suc, ◌+◌, ◌*◌, ◌-◌, ◌/◌, List, [], ◌∷◌, Bool, true, false, not, ◌&&◌, ◌||◌, Option, none,
  some, ltb, leb, ◌==◌, if◌then◌else◌,
}

-- What the code uses of `double`; `num a b` is the constant a / b, `trunc` the conversion to `int`.
pub record Double (R : Type 0) : Type 0 where
  pub num : ℕ → ℕ → R
  pub of_int : ℕ → R
  pub trunc : R → ℕ
  pub add : R → R → R
  pub sub : R → R → R
  pub mul : R → R → R
  pub over : R → R → R
  pub pow : R → R → R
  pub lt : R → R → Bool
  pub le : R → R → Bool

-- What the code uses of a packet: `size()`, `ect()` and `ce()`.
pub record Packet : Type 0 where
  pub size : ℕ
  pub ect : Bool
  pub ce : Bool

-- What it uses of `q_`: `length`, `byteLength`, `enque`, `remove` of the packet at an index that
-- `lookup` gives, and `deque`.
pub record Fifo (Q : Type 0) : Type 0 where
  pub len : Q → ℕ
  pub byte_length : Q → ℕ
  pub push : Packet → Q → Q
  pub remove_at : ℕ → Q → Q
  pub pull : Q → Option Packet × Q

-- `edp_` and the flags of the queue.
pub record Params (R : Type 0) : Type 0 where
  pub mean_pktsize : ℕ
  pub idle_pktsize : ℕ
  pub bytes : Bool
  pub wait : Bool
  pub setbit : Bool
  pub gentle : Bool
  pub th_min : R
  pub th_max : R
  pub q_w : R
  pub adaptive : Bool
  pub feng_adaptive : Bool
  pub cautious : ℕ
  pub alpha : R
  pub beta : R
  pub interval : R
  pub top : R
  pub bottom : R
  pub ptc : R
  pub use_mark_p : Bool
  pub mark_p : R
  pub qib : Bool
  pub qlim : ℕ
  pub ns1_compat : Bool
  pub drop_front : Bool
  pub drop_rand : Bool

-- `edv_.status`
pub data Status : Type 0 where
  above below between : Status

abbrev pub is_below : Status → Bool
is_below below = true
is_below above = false
is_below between = false

abbrev pub is_above : Status → Bool
is_above above = true
is_above below = false
is_above between = false

-- `edv_`, and when the queue became idle.
pub record Vars (R : Type 0) : Type 0 where
  pub v_ave : R
  pub v_prob1 : R
  pub v_a : R
  pub v_b : R
  pub v_c : R
  pub v_d : R
  pub v_prob : R
  pub count : ℕ
  pub count_bytes : ℕ
  pub old : Bool
  pub cur_max_p : R
  pub lastset : R
  pub status : Status
  pub idle : Bool
  pub idletime : R

-- The results of `Random::uniform` and, by its bound, `Random::integer`.
pub record Chance (R : Type 0) : Type 0 where
  pub uniform : R
  pub integer : ℕ → ℕ

-- What happens to an arriving packet.
pub data DropType : Type 0 where
  no_drop forced unforced : DropType

module _ {R : Type 0} (d : Double R) where
  open d use {num, of_int, trunc, add, sub, mul, over, pow, lt, le}

  abbrev pub one : R
  one = num 1 1

  -- if (p > 1.0) p = 1.0;
  unfoldable pub at_most_one : R → R
  at_most_one p = if lt one p then one else p

  -- `calculate_p_new`
  unfoldable pub calculate_p_new : R → R → Bool → R → R → R → R → R → R
  unfolding at_most_one
  calculate_p_new v_ave th_max gentle v_a v_b v_c v_d max_p = at_most_one (
      if le th_max v_ave
      then if gentle then add (mul v_c v_ave) v_d else one
      else mul (add (mul v_a v_ave) v_b) max_p)

  -- The probability of `modify_p` by the packets since the last drop, before it is scaled by bytes.
  pub spread : Bool → R → R → R
  spread wait p count1 =
      let x = mul count1 p in
      if wait
      then if lt x one then num 0 1 else if lt x (num 2 1) then over p (sub (num 2 1) x) else one
      else if lt x one
      then over p (sub one x)
      else one

  -- `modify_p`
  unfoldable pub modify_p : R → ℕ → ℕ → Bool → ℕ → Bool → ℕ → R
  unfolding spread at_most_one
  modify_p p count count_bytes bytes mean_pktsize wait size =
      let q = spread wait p (of_int (if bytes then count_bytes / mean_pktsize else count)) in
      at_most_one
        (if bytes && lt q one then over (mul q (of_int size)) (of_int mean_pktsize) else q)

  -- `updateMaxPFeng`
  pub update_max_p_feng : Params R → R → Vars R → Vars R
  update_max_p_feng c new_ave v =
      let v1 =
        (if lt c.th_min new_ave && lt new_ave c.th_max then record v { status = between } else v) in
      let v2 =
        (if lt new_ave c.th_min && not (is_below v1.status)
          then record v1 { status = below; cur_max_p = over v1.cur_max_p c.alpha }
          else v1) in
      if lt c.th_max new_ave && not (is_above v2.status)
      then record v2 { status = above; cur_max_p = mul v2.cur_max_p c.beta }
      else v2

  -- `updateMaxP`
  pub update_max_p : Params R → R → R → Vars R → Vars R
  update_max_p c new_ave now v =
      let part = mul (num 4 10) (sub c.th_max c.th_min) in
      let quarter = mul (num 25 100) v.cur_max_p in
      if lt new_ave (add c.th_min part) && lt c.bottom v.cur_max_p
      then record v { cur_max_p = mul v.cur_max_p c.beta; lastset = now }
      else if lt (sub c.th_max part) new_ave && lt v.cur_max_p c.top
      then record v {
        cur_max_p = add v.cur_max_p (if lt quarter c.alpha then quarter else c.alpha);
        lastset = now;
      }
      else v

  -- while (--m >= 1) new_ave *= 1.0 - q_w;
  unfoldable pub decay : ℕ → R → R → R
  decay zero q_w ave = ave
  decay (suc m) q_w ave = decay m q_w (mul ave (sub one q_w))

  -- The new average, for `m` arrivals.
  unfoldable pub average : ℕ → ℕ → R → R → R
  unfolding decay
  average nqueued m ave q_w =
      add (mul (decay (m - 1) q_w ave) (sub one q_w)) (mul q_w (of_int nqueued))

  -- `estimator`, and the assignment of its result.
  unfoldable pub estimator : Params R → R → ℕ → ℕ → Vars R → Vars R
  unfolding average update_max_p_feng update_max_p
  estimator c now nqueued m v =
      let ave = average nqueued m v.v_ave c.q_w in
      let v1 =
        (if c.adaptive
          then if c.feng_adaptive
            then update_max_p_feng c ave v
            else if lt (add v.lastset c.interval) now
            then update_max_p c ave now v
            else v
          else v) in
      record v1 { v_ave = ave }

-- A full queue forces a drop.
abbrev pub or_full : {R : Type 0} → Bool → DropType × Packet × Vars R → DropType × Packet × Vars R
or_full full (t, p, v) = if full then (forced, p, v) else (t, p, v)
