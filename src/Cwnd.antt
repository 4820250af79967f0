-- ===== src/Cwnd.antt =====
-- The cuts of the congestion window by `class TcpAgent` of tcp/tcp.cc: `windowd`, `decrease_param`,
-- `slowdown` and `ecn`. The arithmetic of `double`, with its logarithm, is an argument; `window()`,
-- which Sender models, gives slowdown a number that is not negative.
pub mod Cuts
pub mod Growth
mod Tests
use saps_extended.Base.{ℕ, ◌+◌, ◌/◌, Bool, true, false, not, ◌&&◌, ◌||◌, ltb, ◌==◌, if◌then◌else◌}
use saps_extended.Base.Int.{ℤ, ltb_ℤ}
use saps_extended.Red.{Double}
use saps_extended.Rto.{Timing, Rto, rtt_backoff}

-- The bits of `how`, without those that no code tests.
pub record How : Type 0 where
  pub tcp_idle : Bool
  pub no_outstanding_data : Bool
  pub close_ssthresh_half : Bool
  pub close_ssthresh_dctcp : Bool
  pub three_quarter_ssthresh : Bool
  pub close_cwnd_half : Bool
  pub close_cwnd_dctcp : Bool
  pub cwnd_half_with_min : Bool
  pub close_cwnd_restart : Bool
  pub close_cwnd_init : Bool
  pub close_cwnd_one : Bool
  pub close_cwnd_half_way : Bool

abbrev pub nothing : How
nothing = record {
  tcp_idle = false;
  no_outstanding_data = false;
  close_ssthresh_half = false;
  close_ssthresh_dctcp = false;
  three_quarter_ssthresh = false;
  close_cwnd_half = false;
  close_cwnd_dctcp = false;
  cwnd_half_with_min = false;
  close_cwnd_restart = false;
  close_cwnd_init = false;
  close_cwnd_one = false;
  close_cwnd_half_way = false;
}

-- `last_cwnd_action_`
pub data Action : Type 0 where
  initial dupack timed_out ecn_bit exited : Action

abbrev pub is_timeout : Action → Bool
is_timeout timed_out = true
is_timeout initial = false
is_timeout dupack = false
is_timeout ecn_bit = false
is_timeout exited = false

-- The members that are bound from Tcl, `hstcp_.dec1` and `hstcp_.dec2`.
pub record Settings (R : Type 0) : Type 0 where
  pub wnd : R
  pub wnd_option : ℕ
  pub wnd_restart : R
  pub wnd_init : R
  pub precision_reduce : Bool
  pub low_window : R
  pub l_parameter : R
  pub dec1 : R
  pub dec2 : R
  pub dctcp : Bool

pub record Cwnd (R : Type 0) : Type 0 where
  pub cwnd : R
  pub ssthresh : ℕ
  pub w_used : R
  pub decrease_num : R
  pub dctcp_alpha : R
  pub fcnt : R
  pub count : ℕ
  pub first_decrease : Bool
  pub cong_action : Bool
  pub ncwndcuts : ℕ
  pub ncwndcuts1 : ℕ
  pub necnresponses : ℕ
  pub last_action : Action
  pub recover : ℤ
  pub maxseq : ℤ
  pub ecn_backoff : Bool
  pub rto : Rto

-- `win`, `halfwin` and `decreasewin` of `slowdown`.
pub record Cut (R : Type 0) : Type 0 where
  pub win : R
  pub halfwin : R
  pub decreasewin : R

module _ {R : Type 0} (d : Double R) (log : R → R) (c : Settings R) where
  open d use {num, of_int, trunc, add, sub, mul, over, pow, lt, le}

  -- `windowd`
  pub windowd : Cwnd R → R
  windowd s = if lt s.cwnd c.wnd then s.cwnd else c.wnd

  -- `decrease_param`
  pub decrease_param : Cwnd R → R
  decrease_param s = add c.dec1 (mul (log s.cwnd) c.dec2)

  -- (wnd_option_ == 8) && (cwnd_ > low_window_)
  abbrev pub is_highspeed : Cwnd R → Bool
  is_highspeed s = c.wnd_option == 8 && lt c.low_window s.cwnd

  -- `decrease_num_`
  pub set_decrease : Cwnd R → Cwnd R
  set_decrease s =
      if c.wnd_option == 6
      then s
      else if is_highspeed s
      then record s { decrease_num = decrease_param s }
      else s

  -- The window less what binomial controls keep of it.
  abbrev pub binomial : R → R → R
  binomial num_ w = sub w (mul (sub (num 1 1) num_) (pow w c.l_parameter))

  -- With `precision_reduce_`.
  pub precise_cut : Cwnd R → Cut R
  precise_cut s =
      let w = windowd s in
      record {
        win = w;
        halfwin = over w (num 2 1);
        decreasewin =
            if c.wnd_option == 6
            then binomial s.decrease_num w
            else if is_highspeed s
            then sub w (mul s.decrease_num w)
            else mul s.decrease_num w;
      }

  -- Without it, from the result of `window()`.
  pub int_cut : ℕ → Cwnd R → Cut R
  int_cut window s =
      let w = windowd s in
      let int_w = of_int window in
      record {
        win = int_w;
        halfwin = of_int (window / 2);
        decreasewin = of_int (
            trunc (
              if c.wnd_option == 6
              then binomial s.decrease_num int_w
              else if is_highspeed s
              then sub w (mul s.decrease_num w)
              else mul s.decrease_num int_w));
      }

  -- (1 - dctcp_alpha_/2.0) * windowd()
  abbrev pub dctcp_window : Cwnd R → R
  dctcp_window s = mul (sub (num 1 1) (over s.dctcp_alpha (num 2 1))) (windowd s)

  -- `ssthresh_`, before it is raised to 2.
  pub new_ssthresh : How → Bool → Cut R → Cwnd R → ℕ
  new_ssthresh how slowstart cut s =
      let quarters = over (mul (num 3 1) s.cwnd) (num 4 1) in
      if how.close_ssthresh_half
      then trunc (
          if s.first_decrease || slowstart || is_timeout s.last_action
          then cut.halfwin
          else cut.decreasewin)
      else if how.close_ssthresh_dctcp
      then trunc (dctcp_window s)
      else if how.three_quarter_ssthresh && lt (of_int s.ssthresh) quarters
      then trunc quarters
      else s.ssthresh

  -- if (cwnd_ < 1) cwnd_ = 1;
  abbrev pub at_least_1 : R → R
  at_least_1 x = if lt x (num 1 1) then num 1 1 else x

  -- `cwnd_`, before it is raised to 1 at the end.
  pub new_cwnd : How → Bool → Cut R → Cwnd R → R
  new_cwnd how slowstart cut s =
      let half = num 5 10 in
      if how.close_cwnd_half
      then if s.first_decrease || slowstart || (le s.decrease_num half && le half s.decrease_num)
        then cut.halfwin
        else cut.decreasewin
      else if how.close_cwnd_dctcp
      then dctcp_window s
      else if how.cwnd_half_with_min
      then at_least_1 cut.decreasewin
      else if how.close_cwnd_restart
      then of_int (trunc c.wnd_restart)
      else if how.close_cwnd_init
      then of_int (trunc c.wnd_init)
      else if how.close_cwnd_one
      then num 1 1
      else if how.close_cwnd_half_way
      then at_least_1 (add s.w_used (mul s.decrease_num (sub cut.win s.w_used)))
      else s.cwnd

  -- The cuts that tell the receiver.
  abbrev pub tells : How → Bool
  tells how =
      how.close_cwnd_half || how.close_cwnd_restart || how.close_cwnd_init || how.close_cwnd_one
      || how.close_cwnd_dctcp

  -- `slowdown`, with the result of `window()`.
  unfoldable pub slowdown : ℕ → How → Cwnd R → Cwnd R
  unfolding set_decrease
  slowdown window how s =
      let slowstart = lt s.cwnd (of_int s.ssthresh) in
      let s1 = set_decrease s in
      let cut = (if c.precision_reduce then precise_cut s1 else int_cut window s1) in
      let ssthresh = new_ssthresh how slowstart cut s1 in
      record s1 {
        ssthresh = if ltb ssthresh 2 then 2 else ssthresh;
        cwnd = at_least_1 (new_cwnd how slowstart cut s1);
        cong_action = tells how || s.cong_action;
        fcnt = num 0 1;
        count = 0;
        first_decrease = false;
        ncwndcuts = s.ncwndcuts + 1;
        ncwndcuts1 =
            if how.tcp_idle || how.no_outstanding_data then s.ncwndcuts1 else s.ncwndcuts1 + 1;
      }

  abbrev pub ecn_how : How
  ecn_how =
      if c.dctcp
      then record nothing { close_cwnd_dctcp = true; close_ssthresh_dctcp = true }
      else record nothing { close_cwnd_half = true; close_ssthresh_half = true }

  -- A window of one packet is not cut further: from the second time on the timer backs off.
  unfoldable pub back_off : Timing → Cwnd R → Cwnd R
  back_off t s =
      if le s.cwnd (num 1 1)
      then if s.ecn_backoff
        then record s { rto = rtt_backoff t s.rto }
        else record s { ecn_backoff = true }
      else record s { ecn_backoff = false }

  -- `ecn`
  unfoldable pub ecn : Timing → ℕ → ℤ → Cwnd R → Cwnd R
  unfolding back_off slowdown
  ecn t window seqno s =
      if ltb_ℤ s.recover seqno || is_timeout s.last_action
      then (let cut =
            slowdown window ecn_how
              (back_off t (record s { recover = s.maxseq; last_action = ecn_bit })) in
          record cut { necnresponses = cut.necnresponses + 1 })
      else s
