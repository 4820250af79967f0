-- ===== src/Rto/Tests.antt =====
-- The retransmission timer with ticks of ten units and the standard gains.
use saps_extended.Base.{◌*◌, ◌≡◌, refl, true, false, arith}
use saps_extended.Rto.{Timing, Rto, rtt_init, rtt_timeout, rtt_update, smooth, rtt_backoff}
use saps_extended.Rto.Timeout.{capped, backoff_doubles}
use saps_extended.Rto.Estimate.{Smoothed, smooth-Smoothed}

abbrev timing : Timing
timing = record {
  tcp_tick = 10;
  ts_option = true;
  rfc2988 = true;
  boot_time = 0;
  srtt_bits = 3;
  rttvar_bits = 2;
  rttvar_exp = 2;
  srtt_init = 0;
  rttvar_init = 12000;
  rtxcur_init = 3000;
  minrto = 200;
  maxrto = 60000;
}

-- A round-trip time of about 5 ticks.
abbrev rto : Rto
rto = record {
  t_rtt = 5;
  t_srtt = 40;
  t_rttvar = 8;
  t_rtxcur = 130;
  t_backoff = 1;
  use_rtt = false;
}

updated : (rtt_update timing rto 1000 70).t_srtt ≡ 42
unfolding rtt_update saps_extended.Rto.sample smooth saps_extended.Rto.add_short
    saps_extended.Rto.short_diff
updated = refl

backoff_doubles_example :
    (rtt_timeout timing (rtt_backoff timing rto)).1 ≡ capped timing (2 * (rtt_timeout timing rto).1)
backoff_doubles_example =
    backoff_doubles timing (record { rfc2988 = refl; ticks = omega arith; ordered = omega arith })
      rto refl (omega arith)

smooth-Smoothed_example : Smoothed timing 10 7 rto (smooth timing rto 7)
smooth-Smoothed_example =
    smooth-Smoothed timing 10 7 rto
      (record { srtt_bits = refl; rttvar_bits = refl; rttvar_exp = refl }) (omega arith)
      (omega arith) (omega arith) (omega arith)
      (record { srtt = omega arith; rttvar = omega arith })
