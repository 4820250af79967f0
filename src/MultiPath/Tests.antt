-- ===== src/MultiPath/Tests.antt =====
-- The theorems of the multipath classifier at concrete tables and packets.
use saps_extended.Base.{ℕ, ◌+◌, ◌*◌, ◌%◌, ◌<◌, ◌≡◌, refl, Bool, true, false, some, ltb, ◌==◌, arith}
use saps_extended.MultiPath.{
  Config, Header, spray, search_from, selective, flowcell_full, ecmp_hash, Choice, classify,
}
use saps_extended.MultiPath.Rotate.{Found, spray_round}
use saps_extended.MultiPath.Live.{Answers, classify_live}
use saps_extended.MultiPath.Failures.{selective_misses, flowcell_full_misses}
use saps_extended.MultiPath.Ecmp.{IsSizeAware, FirstSet, two_levels}

-- Four links, the first two of them down.
abbrev two_up : ℕ → Bool
two_up i = ltb 1 i

-- Packet spraying over four links.
abbrev spraying : Config
spraying = record {
  perflow = 0;
  packet_spraying = true;
  flowcell_spraying = false;
  selective_spraying = false;
  k = 0;
  failure_case = 0;
  maxslot = 3;
  slot = two_up;
}

-- A fat tree with K = 6 over tables of two and of three links, of which the first two are down.
abbrev tor_switch : Config
tor_switch = record spraying { packet_spraying = false; k = 6; maxslot = 1; slot = λ _. true }

abbrev agg_switch : Config
agg_switch = record tor_switch { maxslot = 2; slot = λ i. i == 2 }

abbrev packet : Header
packet = record {
  link_id = 3;
  failure_detected = true;
  is_elephant = false;
  visited_tor = 0;
  agg_decision = 0;
  is_tcp = true;
  sport = 1;
  dport = 2;
  src = 3;
  dst = 4;
  flowid = 5;
  ttl = 32;
}

spray_skips : spray spraying 4 3 3 ≡ (3, 0)
unfolding spray
spray_skips = refl

spray_wraps : spray spraying 4 0 0 ≡ (2, 3)
unfolding spray
spray_wraps = refl

spray_round_example :
    let (cl, ns) = spray spraying 4 1 1 in
    (d : ℕ) × Found spraying 1 d cl × (two_up cl ≡ true) × (cl < 4) × (ns ≡ (cl + 1) % 4)
spray_round_example = spray_round spraying 1 2 (omega arith) (omega arith) refl

classify_live_example : Answers spraying 1 packet 0 0 (classify spraying 1 packet 0 0)
classify_live_example =
    classify_live spraying 1 packet 0 0 2 (omega arith) refl (omega arith) (omega arith)
      (omega arith) refl

-- Only the link before the last one is up.
abbrev one_up : Config
one_up = record spraying { selective_spraying = true; slot = λ i. i == 2 }

selective_misses_example :
    ((selective one_up packet).0 < 4) × ((selective one_up packet).0 == 2 ≡ false)
selective_misses_example = selective_misses one_up packet (omega arith) (omega arith) (λ i h. refl)

-- Only link 0 is up.
abbrev first_up : Config
first_up = record spraying {
  packet_spraying = false;
  flowcell_spraying = true;
  failure_case = 2;
  slot = λ i. i == 0;
}

flowcell_full_misses_example : (flowcell_full first_up packet).0 == 0 ≡ false
flowcell_full_misses_example = flowcell_full_misses first_up packet refl (omega arith) (λ i. refl)

flowcell_full_run : flowcell_full first_up packet ≡ (2, 3)
unfolding flowcell_full search_from
flowcell_full_run = refl

tor_switch-IsSizeAware : IsSizeAware tor_switch
tor_switch-IsSizeAware = record {
  no_perflow = refl;
  some_k = omega arith;
  no_spraying = refl;
  no_flowcells = refl;
}

agg_switch-IsSizeAware : IsSizeAware agg_switch
agg_switch-IsSizeAware = record {
  no_perflow = refl;
  some_k = omega arith;
  no_spraying = refl;
  no_flowcells = refl;
}

two_levels_example :
    (x : Choice) × (y : Choice) × (down : ℕ) × (up : ℕ) × (classify tor_switch 0 packet 7 0
      ≡ some x)
    × (classify agg_switch 2 x.header 8 0 ≡ some y)
    × (2 * up + down ≡ ecmp_hash tor_switch packet 7 % 6)
    × (down < 2)
    × (up < 3)
    × FirstSet tor_switch down x.cl
    × FirstSet agg_switch up y.cl
    × (y.header.visited_tor ≡ 0)
two_levels_example =
    two_levels tor_switch agg_switch packet 0 2 7 8 0 0 1 2 tor_switch-IsSizeAware
      agg_switch-IsSizeAware refl (omega arith) (omega arith) (omega arith) refl (omega arith) refl
