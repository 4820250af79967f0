-- ===== src/Cwnd/Tests.antt =====
-- A DCTCP sender with a window of ten packets, in thousandths, and segments up to number 29 sent.
use saps_extended.Base.{arith, some, ◌≤◌, ℕ, ◌+◌, ◌≡◌, refl, [], ◌∷◌, true, false}
use saps_extended.Base.Int.{pos}
use saps_extended.Red.Thousandths.{thousandths}
use saps_extended.Rto.{Timing, Rto}
use saps_extended.Cwnd.{How, nothing, initial, Settings, Cwnd, slowdown, ecn}
use saps_extended.Cwnd.Growth.{GrowSettings, Growth}
use saps_extended.Cwnd.Growth.Rounds.{IsExact, open_times, opencwnd_round}
use saps_extended.Cwnd.Cuts.{IsFloored, slowdown-IsFloored, ecn_all, ecn_all-once}

abbrev timing : Timing
timing = record {
  tcp_tick = 10;
  ts_option = true;
  rfc2988 = true;
  boot_time = 0;
  srtt_bits = 3;
  rttvar_bits = 2;
  rttvar_exp = 2;
  srtt_init = 0;
  rttvar_init = 12000;
  rtxcur_init = 3000;
  minrto = 200;
  maxrto = 60000;
}

abbrev rto : Rto
rto = record {
  t_rtt = 5;
  t_srtt = 40;
  t_rttvar = 8;
  t_rtxcur = 130;
  t_backoff = 1;
  use_rtt = false;
}

abbrev settings : Settings ℕ
settings = record {
  wnd = 50000;
  wnd_option = 1;
  wnd_restart = 1000;
  wnd_init = 2000;
  precision_reduce = true;
  low_window = 38000;
  l_parameter = 1000;
  dec1 = 0;
  dec2 = 0;
  dctcp = true;
}

abbrev ten : Cwnd ℕ
ten = record {
  cwnd = 10000;
  ssthresh = 8;
  w_used = 0;
  decrease_num = 500;
  dctcp_alpha = 400;
  fcnt = 0;
  count = 3;
  first_decrease = false;
  cong_action = false;
  ncwndcuts = 0;
  ncwndcuts1 = 0;
  necnresponses = 0;
  last_action = initial;
  recover = pos 0;
  maxseq = pos 29;
  ecn_backoff = false;
  rto = rto;
}

-- A fifth of the window is cut off.
ten-cut : (ecn thousandths (λ x. x) settings timing 10 (pos 5) ten).cwnd ≡ 8000
unfolding ecn saps_extended.Cwnd.new_cwnd saps_extended.Cwnd.windowd
ten-cut = refl

slowdown-IsFloored_example :
    IsFloored thousandths
      (slowdown thousandths (λ x. x) settings 10 (record nothing { close_cwnd_one = true }) ten)
slowdown-IsFloored_example =
    slowdown-IsFloored thousandths (λ x. x) settings 10 (record nothing { close_cwnd_one = true })
      ten refl

ecn_all-once_example :
    let once = ecn thousandths (λ x. x) settings timing 10 (pos 5) ten in
    let s' =
      ecn_all thousandths
        (λ x. x)
        settings
        timing
        ((10, pos 5) ∷ (8, pos 6) ∷ (8, pos 29) ∷ [])
        ten in
    (s' ≡ once) × (s'.ncwndcuts ≡ 0 + 1) × (s'.necnresponses ≡ 0 + 1)
ecn_all-once_example =
    ecn_all-once thousandths (λ x. x) settings timing 10 (pos 5) ((8, pos 6) ∷ (8, pos 29) ∷ []) ten
      refl (refl, (refl, tt))

thousandths-IsExact : IsExact thousandths
thousandths-IsExact = record {
  lt_int = λ a b. ground arith;
  le_int = λ a b. ground arith;
  add_one = λ a. omega arith;
  trunc_int = λ a. omega arith;
}

abbrev grow : GrowSettings ℕ
grow = record {
  increase_num = 1000;
  wnd_const = 4000;
  k_parameter = 0;
  cwnd_range = 0;
  p1 = 0;
  p2 = 0;
  tcp_tick = 10;
  srtt_bits = 3;
  max_ssthresh = 0;
  maxcwnd = 0;
}

abbrev growth : Growth ℕ
growth = record { awnd = 4000; cwnd_last = 0; increase_last = 0 }

abbrev four : Cwnd ℕ
four = record ten { cwnd = 4000 }

opencwnd_round_example :
    (4 + 4 ≤ four.ssthresh
      → open_times thousandths (λ x. x) (λ x. x) settings grow 4 four growth
        ≡ some (record four { cwnd = 8000 }, growth))
    × (four.ssthresh ≤ 4
        → four.count ≡ 0
        → settings.wnd_option ≡ 0
        → open_times thousandths (λ x. x) (λ x. x) settings grow 4 four growth
          ≡ some (record four { cwnd = 5000; count = 0 }, growth))
opencwnd_round_example =
    opencwnd_round thousandths (λ x. x) (λ x. x) settings grow 4 four growth thousandths-IsExact
      refl (omega arith) refl
