-- ===== src/Recovery/Resend.antt =====
-- The timers keep the invariant, and take back nothing that is acknowledged.
use saps_extended.Base.{
  ℕ, ◌≡◌, ◌⊎◌, inl, inr, refl, ap, ◌∙◌, List, Bool, true, false, not, ◌&&◌, ◌||◌, arith,
  if◌then◌else◌, Bool-cases, ◌==◌, ltb,
}
use saps_extended.Base.Int.{ℤ, negsuc, pos_part, neg_part, ◌≤ℤ◌, ltb_ℤ, eqb_ℤ, le_of_eqs, le_trans}
use saps_extended.Sender.{Segment, window}
use saps_extended.Recovery.{Setup, Sack1, set_cwnd, slow}
use saps_extended.Recovery.Loss.{set_recover, is_ecn}
use saps_extended.Recovery.Timeout.{
  Timer, rtx, delsnd, fb, set_frto, leave_recovery, restart_fl_bndr, outstanding, lower_init,
  may_frto, cut_at_timeout, before_resend, tcp_timeout, sack_timeout, no_frto, timeout,
}
use saps_extended.Recovery.Calm.{Same-refl, Calm, slow-Calm, reset_timer-Calm, much-Calm}
use saps_extended.Recovery.Sound.{IsValid, Goes, Goes-Calm, Goes-refl}

abbrev OneOrTwo : ℕ → Type 0
OneOrTwo n = (n ≡ 1) ⊎ (n ≡ 2)

-- `recover_` and `frto_` may differ, and the option of the initial window.
record Quiet {R B : Type 0} (a b : Sack1 R B) : Type 0 where
  highest : b.sender.highest_ack ≡ a.sender.highest_ack
  last : b.sender.last_ack ≡ a.sender.last_ack
  dupacks : b.sender.dupacks ≡ a.sender.dupacks
  fast : b.sender.fastrecov ≡ a.sender.fastrecov
  more : a.sender.maxseq ≤ℤ b.sender.maxseq
  init : OneOrTwo a.wnd_init_option → OneOrTwo b.wnd_init_option

Quiet-trans : {R B : Type 0} {a b c : Sack1 R B} → Quiet a b → Quiet b c → Quiet a c
Quiet-trans p q = record {
  highest = q.highest ∙ p.highest;
  last = q.last ∙ p.last;
  dupacks = q.dupacks ∙ p.dupacks;
  fast = q.fast ∙ p.fast;
  more = omega (arith, p.more, q.more);
  init = λ known. q.init (p.init known);
}

quiet :
    {R B : Type 0} (a b : Sack1 R B)
    → b.sender.highest_ack ≡ a.sender.highest_ack
    → b.sender.last_ack ≡ a.sender.last_ack
    → b.sender.dupacks ≡ a.sender.dupacks
    → b.sender.fastrecov ≡ a.sender.fastrecov
    → b.sender.maxseq ≡ a.sender.maxseq
    → (OneOrTwo a.wnd_init_option → OneOrTwo b.wnd_init_option)
    → Quiet a b
quiet a b highest last dupacks fast same init = record {
  highest = highest;
  last = last;
  dupacks = dupacks;
  fast = fast;
  more = omega (arith, ap pos_part same, ap neg_part same);
  init = init;
}

same_option : {n m : ℕ} → m ≡ n → OneOrTwo n → OneOrTwo m
same_option same (inl one) = inl (same ∙ one)
same_option same (inr two) = inr (same ∙ two)

Calm-Quiet : {R B : Type 0} {a b : Sack1 R B} → Calm a b → Quiet a b
Calm-Quiet c = record {
  highest = c.sender.highest;
  last = c.sender.last;
  dupacks = c.sender.dupacks;
  fast = c.sender.fast;
  more = c.sender.more;
  init = same_option c.init;
}

module _ {R B : Type 0} (e : Setup R B) where
  lower_init-Quiet : (a : Sack1 R B) → Quiet a (lower_init e a)
  unfolding lower_init
  lower_init-Quiet a = elim (Bool-cases (eqb_ℤ a.sender.highest_ack (negsuc 0))) [
    | inr later ↦ simp (later) (quiet a a refl refl refl refl refl (λ k. k))
    | inl first ↦ elim (Bool-cases (a.wnd_init_option == 2)) [
      | inl two ↦ simp (first, two) (quiet a _ refl refl refl refl refl (λ _. inl refl))
      | inr other ↦
          elim (Bool-cases (
            (a.wnd_init_option == 1) && e.double.lt (e.double.num 1 1) a.wnd_init && e.bugfix_ss)) [
              | inl large ↦ simp (first, other, large) (quiet a _ refl refl refl refl refl (λ k. k))
              | inr small ↦ simp (first, other, small) (quiet a a refl refl refl refl refl (λ k. k))
            ]
    ]
  ]

  may_frto-Quiet : (a : Sack1 R B) → Quiet a (may_frto e a)
  may_frto-Quiet a = elim (Bool-cases (e.frto_enabled || e.sfrto_enabled)) [
    | inl on ↦ simp (on) (quiet a _ refl refl refl refl refl (λ k. k))
    | inr off ↦ simp (off) (quiet a a refl refl refl refl refl (λ k. k))
  ]

  cut_at_timeout-Quiet : (a : Sack1 R B) → Quiet a (cut_at_timeout e a)
  unfolding cut_at_timeout
  cut_at_timeout-Quiet a = elim (Bool-cases (not (outstanding e a) && e.restart_bugfix)) [
    | inl none_out ↦ simp (none_out) (Calm-Quiet (slow-Calm e _ a))
    | inr some_out ↦
        elim (Bool-cases
          (ltb_ℤ a.sender.highest_ack a.sender.recover && is_ecn a.cut.last_action)) [
            | inl answered ↦
                simp (some_out, answered)
                  (Quiet-trans (Calm-Quiet (slow-Calm e _ a)) (may_frto-Quiet _))
            | inr plain ↦
                simp (some_out, plain)
                  (Quiet-trans (quiet a _ refl refl refl refl refl (λ k. k))
                    (Quiet-trans (Calm-Quiet (slow-Calm e _ _)) (may_frto-Quiet _)))
          ]
  ]

  one_if-Quiet : (b : Bool) (x : R) (a : Sack1 R B) → Quiet a (if b then set_cwnd e x a else a)
  one_if-Quiet true x a = quiet a _ refl refl refl refl refl (λ k. k)
  one_if-Quiet false x a = quiet a a refl refl refl refl refl (λ k. k)

  cut_unless-Quiet :
      (b : Bool) (a : Sack1 R B)
      → Quiet a (if b then a else cut_at_timeout e (lower_init e (set_recover a.sender.maxseq a)))
  cut_unless-Quiet true a = quiet a a refl refl refl refl refl (λ k. k)
  cut_unless-Quiet false a =
      Quiet-trans (quiet a (set_recover a.sender.maxseq a) refl refl refl refl refl (λ k. k))
        (Quiet-trans (lower_init-Quiet _) (cut_at_timeout-Quiet _))

  before_resend-Quiet : (now : ℕ) (a : Sack1 R B) → Quiet a (before_resend e now a)
  unfolding before_resend
  before_resend-Quiet now a =
      let zero_frto = set_frto e 0 a in
      let win = pos_part (window zero_frto.sender) in
      let kept = record zero_frto {
        pipe_prev = if ltb a.cut.ssthresh win then win else a.cut.ssthresh;
      } in
      let d = e.double in
      let low = d.lt kept.cut.cwnd (d.num 1 1) in
      let one = (if low then set_cwnd e (d.num 1 1) kept else kept) in
      let idle = not (outstanding e one) && not e.slow_start_restart in
      let c : Quiet a kept = quiet a kept refl refl refl refl refl (λ k. k) in
      Quiet-trans c (
        Quiet-trans (one_if-Quiet low (d.num 1 1) kept) (
          Quiet-trans (cut_unless-Quiet idle one) (
            Quiet-trans (Calm-Quiet (reset_timer-Calm e now false _ _))
              (quiet _ _ refl refl refl refl refl (λ k. k)))))

  -- The state after `Sack1TcpAgent::timeout` has left fast recovery.
  record Left (a b : Sack1 R B) : Type 0 where
    goes : Goes e a.sender.highest_ack b
    slow : b.sender.fastrecov ≡ false
    none_counted : b.sender.dupacks ≡ 0

  left :
      (a b : Sack1 R B)
      → IsValid e a
      → b.sender.highest_ack ≡ a.sender.highest_ack
      → b.sender.last_ack ≡ (
          if ltb_ℤ a.sender.last_ack a.sender.highest_ack
          then a.sender.highest_ack
          else a.sender.last_ack)
      → b.sender.maxseq ≡ a.sender.maxseq
      → b.sender.fastrecov ≡ false
      → b.sender.dupacks ≡ 0
      → b.wnd_init_option ≡ a.wnd_init_option
      → Left a b
  left a b v highest last maxseq slow none_counted init =
      let s = a.sender in
      let top = (if ltb_ℤ s.last_ack s.highest_ack then s.highest_ack else s.last_ack) in
      record {
        goes = record {
          valid = record {
            sound = record {
              below = le_of_eqs top s.highest_ack last highest (ground (arith, v.sound.below));
              sent = le_of_eqs s.highest_ack s.maxseq highest maxseq v.sound.sent;
              recovering = λ fast. cc (fast, slow);
              normal =
                  λ _. le_of_eqs s.highest_ack top highest last (ground (arith, v.sound.below));
              init = same_option init v.sound.init;
            };
            first = λ _ _. none_counted;
          };
          grows = le_of_eqs s.highest_ack s.highest_ack refl highest (omega arith);
        };
        slow = slow;
        none_counted = none_counted;
      }

  leave_recovery-Left : (a : Sack1 R B) → IsValid e a → Left a (leave_recovery e a)
  unfolding leave_recovery restart_fl_bndr
  leave_recovery-Left a v =
      let s = a.sender in
      elim (Bool-cases e.flow_bender) [
        | inl bends ↦ simp (bends) (left a _ v refl refl refl refl refl refl)
        | inr plain ↦ simp (plain) (left a _ v refl refl refl refl refl refl)
      ]

  Quiet-Goes : {a b c : Sack1 R B} → Left a b → Quiet b c → Goes e a.sender.highest_ack c
  Quiet-Goes {a} {b} {c} l q =
      let s = b.sender in
      let v = l.goes.valid.sound in
      record {
        valid = record {
          sound = record {
            below = le_of_eqs s.last_ack s.highest_ack q.last q.highest v.below;
            sent =
                le_trans c.sender.highest_ack s.maxseq c.sender.maxseq
                  (le_of_eqs s.highest_ack s.maxseq q.highest refl v.sent) q.more;
            recovering = λ fast. cc (fast, q.fast, l.slow);
            normal = λ _. le_of_eqs s.highest_ack s.last_ack q.highest q.last (v.normal l.slow);
            init = q.init v.init;
          };
          first = λ _ _. q.dupacks ∙ l.none_counted;
        };
        grows = le_of_eqs a.sender.highest_ack s.highest_ack refl q.highest l.goes.grows;
      }

  no_frto-Goes :
      {highest : ℤ} (b : Bool) (r : Sack1 R B × List Segment)
      → Goes e highest r.0
      → Goes e highest (no_frto e b r).0
  no_frto-Goes true (a, out) g = record {
    valid = record {
      sound = record {
        below = g.valid.sound.below;
        sent = g.valid.sound.sent;
        recovering = g.valid.sound.recovering;
        normal = g.valid.sound.normal;
        init = g.valid.sound.init;
      };
      first = λ _ two. absurd (omega (arith, two));
    };
    grows = g.grows;
  }
  no_frto-Goes false (a, out) g = g

  pub timeout-Goes :
      (now : ℕ) (t : Timer) (a : Sack1 R B)
      → IsValid e a
      → Goes e a.sender.highest_ack (timeout e now t a).0
  unfolding timeout sack_timeout tcp_timeout restart_fl_bndr
  timeout-Goes now rtx a v = no_frto-Goes a.sender.fastrecov _ (
      Goes-Calm e
        (Quiet-Goes (leave_recovery-Left a v) (before_resend-Quiet now (leave_recovery e a)))
        (much-Calm e now false 1 _))
  timeout-Goes now delsnd a v =
      no_frto-Goes a.sender.fastrecov _ (Goes-Calm e (Goes-refl e a v) (much-Calm e now true 1 a))
  timeout-Goes now fb a v =
      no_frto-Goes a.sender.fastrecov _
        (Goes-Calm e (Goes-refl e a v) (record { sender = Same-refl a.sender; init = refl }))
