-- ===== src/Cwnd/Growth.antt =====
-- `opencwnd` of tcp/tcp.cc: how an acknowledgement opens the congestion window. `none` is the end
-- of the program by `abort`.
pub mod Rounds
use saps_extended.Base.{
  ℕ, ◌/◌, ◌+◌, ◌^◌, Bool, true, false, not, ◌&&◌, Option, none, some, ltb, ◌≤◌, ◌≡◌, ◌≢◌, ◌⊎◌,
  arith, ◌==◌, if◌then◌else◌,
}
use saps_extended.Red.{Double}
use saps_extended.Cwnd.{
  Settings, Cwnd, Action, initial, dupack, timed_out, ecn_bit, exited, decrease_param,
}

-- The members that are bound from Tcl, `tcp_tick_`, and `hstcp_.p1` and `hstcp_.p2`.
pub record GrowSettings (R : Type 0) : Type 0 where
  pub increase_num : R
  pub wnd_const : R
  pub k_parameter : R
  pub cwnd_range : R
  pub p1 : R
  pub p2 : R
  pub tcp_tick : R
  pub srtt_bits : ℕ
  pub max_ssthresh : ℕ
  pub maxcwnd : ℕ

-- `awnd_`, `hstcp_.cwnd_last_` and `hstcp_.increase_last_`
pub record Growth (R : Type 0) : Type 0 where
  pub awnd : R
  pub cwnd_last : R
  pub increase_last : R

-- last_cwnd_action_ == 0 || last_cwnd_action_ == CWND_ACTION_TIMEOUT
abbrev pub in_slow_start : Action → Bool
in_slow_start initial = true
in_slow_start timed_out = true
in_slow_start dupack = false
in_slow_start ecn_bit = false
in_slow_start exited = false

-- The options that `opencwnd` knows.
abbrev pub IsKnown : {R : Type 0} → Settings R → Type 0
IsKnown c = (c.wnd_option ≤ 6) ⊎ (c.wnd_option ≡ 8)

module _ {R : Type 0} (d : Double R) (log exp : R → R) (c : Settings R) (g : GrowSettings R) where
  open d use {num, of_int, trunc, add, sub, mul, over, pow, lt, le}

  abbrev pub one : R
  one = num 1 1

  -- `limited_slow_start`
  pub limited_slow_start : R → R → R
  limited_slow_start cwnd increment =
      let round = trunc (over cwnd (over (of_int g.max_ssthresh) (num 2 1))) in
      let increment1 = (if ltb 0 round then over one (of_int round) else num 0 1) in
      if g.max_ssthresh == 0
      then increment
      else if lt increment increment1
      then increment1
      else increment

  -- `increase_param`
  pub increase_param : Cwnd R → Growth R → R × Growth R
  increase_param s w =
      let p = exp (add g.p1 (mul (log s.cwnd) g.p2)) in
      let increase =
        over (mul (mul s.cwnd s.cwnd) p) (sub (over one (decrease_param d log c s)) (num 5 10)) in
      if le s.cwnd c.low_window
      then (over one s.cwnd, w)
      else if le w.cwnd_last s.cwnd && lt s.cwnd (add w.cwnd_last g.cwnd_range)
      then (over w.increase_last s.cwnd, w)
      else (over increase s.cwnd, record w { cwnd_last = s.cwnd; increase_last = increase })

  -- The standard increase, limited in slow start.
  abbrev pub limited : Cwnd R → R → R
  limited s increment =
      if in_slow_start s.last_action && ltb 0 g.max_ssthresh
      then limited_slow_start s.cwnd increment
      else increment

  -- if (++count_ >= cwnd_) { count_ = 0; ++cwnd_; }
  abbrev pub count_up : Cwnd R → Cwnd R
  count_up s =
      if le s.cwnd (of_int (s.count + 1))
      then record s { count = 0; cwnd = add s.cwnd one }
      else record s { count = s.count + 1 }

  -- f += fcnt_; if (f > cwnd_) { fcnt_ = 0; ++cwnd_; } else fcnt_ = f;
  abbrev pub fill_up : Cwnd R → R → Cwnd R
  fill_up s f =
      let f' = add f s.fcnt in
      if lt s.cwnd f'
      then record s { fcnt = num 0 1; cwnd = add s.cwnd one }
      else record s { fcnt = f' }

  -- (t_srtt_ >> T_SRTT_BITS) * tcp_tick_
  abbrev pub rtt_of : Cwnd R → R
  rtt_of s = mul (of_int (s.rto.t_srtt / 2 ^ g.srtt_bits)) g.tcp_tick

  -- The linear increase, by `wnd_option_`.
  pub linear_increase : Cwnd R → Growth R → Option (Cwnd R × Growth R)
  unfolding limited_slow_start increase_param
  linear_increase s w =
      let rtt = rtt_of s in
      let (increment, w') = increase_param s w in
      if c.wnd_option == 0
      then some (count_up s, w)
      else if c.wnd_option == 1
      then some (record s { cwnd = add s.cwnd (limited s (over g.increase_num s.cwnd)) }, w)
      else if c.wnd_option == 2
      then some (fill_up s (mul (mul rtt rtt) g.wnd_const), w)
      else if c.wnd_option == 3
      then some (fill_up s (mul (mul w.awnd w.awnd) g.wnd_const), w)
      else if c.wnd_option == 4
      then some (fill_up s (mul w.awnd g.wnd_const), w)
      else if c.wnd_option == 5
      then some (fill_up s (mul rtt g.wnd_const), w)
      else if c.wnd_option == 6
      then some (
        record s {
          cwnd = add s.cwnd (over g.increase_num (mul s.cwnd (pow s.cwnd g.k_parameter)));
        },
        w,
      )
      else if c.wnd_option == 8
      then some (record s { cwnd = add s.cwnd (limited s increment) }, w')
      else none

  -- if (maxcwnd_ && (int(cwnd_) > maxcwnd_)) cwnd_ = maxcwnd_;
  abbrev pub at_most_max : Cwnd R × Growth R → Cwnd R × Growth R
  at_most_max (s, w) =
      if not (g.maxcwnd == 0) && ltb g.maxcwnd (trunc s.cwnd)
      then (record s { cwnd = of_int g.maxcwnd }, w)
      else (s, w)

  abbrev pub then_limit : Option (Cwnd R × Growth R) → Option (Cwnd R × Growth R)
  then_limit none = none
  then_limit (some r) = some (at_most_max r)

  -- `opencwnd`
  pub opencwnd : Cwnd R → Growth R → Option (Cwnd R × Growth R)
  unfolding linear_increase
  opencwnd s w = then_limit (
      if lt s.cwnd (of_int s.ssthresh)
      then some (record s { cwnd = add s.cwnd one }, w)
      else linear_increase s w)

  -- With such an option the window opens.
  pub opencwnd-known : (s : Cwnd R) (w : Growth R) → IsKnown c → opencwnd s w ≢ none
  unfolding opencwnd linear_increase
  opencwnd-known s w known = ground arith
