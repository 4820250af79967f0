-- ===== src/Recovery/Restart/Resets.antt =====
-- What `timeout` leaves for `send_much`: the state in which the sender starts again.
use saps_extended.Base.{
  ℕ, ◌+◌, ◌≤◌, ◌≡◌, ◌≢◌, refl, ap, subst, ◌∙◌, Bool, true, false, not, ◌&&◌, ◌||◌, Option, none,
  some, arith, Bool-cases, inl, inr, ltb, if◌then◌else◌,
}
use saps_extended.Base.Int.{ℤ, pos, pos_part, ◌+ℤ◌, ltb_ℤ, eqb_ℤ}
use saps_extended.Rto.Timeout.{reset_rtx_timer-t_seqno}
use saps_extended.Cwnd.{How, nothing, timed_out}
use saps_extended.Cwnd.Cuts.{slowdown-IsFloored}
use saps_extended.Red.{Double}
use saps_extended.Sender.{Sender, window}
use saps_extended.Recovery.{
  Setup, Sack1, settings, cut_of, rtx_of, is_some, set_cwnd, slow, reset_timer,
}
use saps_extended.Recovery.Loss.{set_recover, set_action, is_ecn}
use saps_extended.Recovery.Timeout.{
  set_frto, leave_recovery, restart_fl_bndr, outstanding, lower_init, may_frto, cut_at_timeout,
  before_resend,
}

-- What is used of the arithmetic: 1 is not less than 1, and what is not less than 1 counts as 1.
pub record CountsOne {R : Type 0} (d : Double R) : Type 0 where
  pub not_less : d.lt (d.num 1 1) (d.num 1 1) ≡ false
  pub trunc_one : (x : R) → d.lt x (d.num 1 1) ≡ false → 1 ≤ d.trunc x

-- What the restart reads, from sender `s` and scoreboard `b`.
pub record Facts {R B : Type 0} (s : Sender) (b : B) (c : Sack1 R B) : Type 0 where
  pub highest : c.sender.highest_ack ≡ s.highest_ack
  pub last : c.sender.last_ack ≡ s.last_ack
  pub curseq : c.sender.curseq ≡ s.curseq
  pub delsnd : c.sender.delsnd ≡ s.delsnd
  pub overhead : c.sender.overhead ≡ s.overhead
  pub wnd : c.sender.wnd ≡ s.wnd
  pub fast : c.sender.fastrecov ≡ s.fastrecov
  pub small : s.frto ≡ 0 → ltb c.sender.frto 2 ≡ true
  pub big : 1 ≤ c.sender.cwnd
  pub board : c.board ≡ b

module _ {R B : Type 0} (e : Setup R B) (law : CountsOne e.double) where
  slow-big : (how : How) (a : Sack1 R B) → 1 ≤ (slow e how a).sender.cwnd
  unfolding slow
  slow-big how a =
      law.trunc_one _
        (slowdown-IsFloored e.double e.log (settings e a) (pos_part (window a.sender)) how
          (cut_of e a) law.not_less).window

  slow_path : (how : How) (a : Sack1 R B) → Facts a.sender a.board (may_frto e (slow e how a))
  unfolding slow
  slow_path how a = elim (Bool-cases (e.frto_enabled || e.sfrto_enabled)) [
    | inl on ↦ simp (on) (record {
      highest = refl;
      last = refl;
      curseq = refl;
      delsnd = refl;
      overhead = refl;
      wnd = refl;
      fast = refl;
      small = λ _. refl;
      big = slow-big how a;
      board = refl;
    })
    | inr off ↦ simp (off) (record {
      highest = refl;
      last = refl;
      curseq = refl;
      delsnd = refl;
      overhead = refl;
      wnd = refl;
      fast = refl;
      small = λ zero_frto. ground (arith, zero_frto);
      big = slow-big how a;
      board = refl;
    })
  ]

  cut_path : (a : Sack1 R B) → outstanding e a ≡ true → Facts a.sender a.board (cut_at_timeout e a)
  unfolding cut_at_timeout
  cut_path a out =
      let not_idle : (not (outstanding e a) && e.restart_bugfix) ≡ false = ground (arith, out) in
      let one = record nothing { close_cwnd_one = true } in
      elim (Bool-cases (ltb_ℤ a.sender.highest_ack a.sender.recover && is_ecn a.cut.last_action)) [
        | inl answered ↦ simp (not_idle, answered) (slow_path one a)
        | inr plain ↦
            simp (not_idle, plain)
              (slow_path (record nothing { close_ssthresh_half = true; close_cwnd_restart = true })
                (set_action timed_out (record a { nrexmit = a.nrexmit + 1 })))
      ]

  lower_init-same :
      (a : Sack1 R B) → ((lower_init e a).sender ≡ a.sender) × ((lower_init e a).board ≡ a.board)
  unfolding lower_init
  lower_init-same a = ground arith

  Facts-of :
      (s t : Sender) (b : B) (c : Sack1 R B)
      → s.highest_ack ≡ t.highest_ack
      → s.last_ack ≡ t.last_ack
      → s.curseq ≡ t.curseq
      → s.delsnd ≡ t.delsnd
      → s.overhead ≡ t.overhead
      → s.wnd ≡ t.wnd
      → s.fastrecov ≡ t.fastrecov
      → s.frto ≡ t.frto
      → Facts s b c
      → Facts t b c
  Facts-of s t b c highest last curseq delsnd overhead wnd fast frto f = record {
    highest = f.highest ∙ highest;
    last = f.last ∙ last;
    curseq = f.curseq ∙ curseq;
    delsnd = f.delsnd ∙ delsnd;
    overhead = f.overhead ∙ overhead;
    wnd = f.wnd ∙ wnd;
    fast = f.fast ∙ fast;
    small = λ zero_frto. f.small (frto ∙ zero_frto);
    big = f.big;
    board = f.board;
  }

  -- The cut, of the state that `before_resend` cuts.
  whole_cut :
      (b : Bool) (a : Sack1 R B)
      → outstanding e a ≡ true
      → b ≡ false
      → Facts a.sender a.board
          (if b then a else cut_at_timeout e (lower_init e (set_recover a.sender.maxseq a)))
  whole_cut b a out cuts =
      let marked = set_recover a.sender.maxseq a in
      let (same, board) = lower_init-same marked in
      let still_out : outstanding e (lower_init e marked) ≡ true =
        ap (λ t. not (eqb_ℤ t.highest_ack t.maxseq)) same ∙ out in
      simp (cuts) (
        Facts-of marked.sender a.sender a.board _ refl refl refl refl refl refl refl refl (
          subst (λ s. Facts s a.board (cut_at_timeout e (lower_init e marked))) same
            (subst
              (λ b'. Facts (lower_init e marked).sender b' (cut_at_timeout e (lower_init e marked)))
              board (cut_path (lower_init e marked) still_out))))

  one_if :
      (b : Bool) (x : R) (a : Sack1 R B) (c : Sack1 R B)
      → Facts (if b then set_cwnd e x a else a).sender (if b then set_cwnd e x a else a).board c
      → Facts a.sender a.board c
  one_if true x a c f =
      Facts-of (set_cwnd e x a).sender a.sender a.board c refl refl refl refl refl refl refl refl f
  one_if false x a c f = f

  -- The state in which sending starts again.
  pub record Ready (s : Sender) (b : B) (c : Sack1 R B) : Type 0 where
    pub facts : Facts s b c
    pub next : c.sender.t_seqno ≡ s.highest_ack +ℤ pos 1
    pub pending : c.sender.rtx_pending ≡ true

  out_if :
      (b : Bool) (x : R) (a : Sack1 R B)
      → outstanding e (if b then set_cwnd e x a else a) ≡ outstanding e a
  out_if true x a = refl
  out_if false x a = refl

  is_some-not_none : (o : Option ℕ) → o ≢ none → is_some o ≡ true
  is_some-not_none none h = absurd (h refl)
  is_some-not_none (some n) h = refl

  reset-Ready :
      (now : ℕ) (backoff : Bool) (s : Sender) (b : B) (a : Sack1 R B)
      → Facts s b a
      → Ready s b (set_action timed_out (reset_timer e now false backoff a))
  unfolding reset_timer
  reset-Ready now backoff s b a f =
      let (next, some_timer) = reset_rtx_timer-t_seqno e.timing (rtx_of e a) backoff in
      let after_it : ℤ → ℤ = λ x. x +ℤ pos 1 in
      record {
        facts = record {
          highest = f.highest;
          last = f.last;
          curseq = f.curseq;
          delsnd = f.delsnd;
          overhead = f.overhead;
          wnd = f.wnd;
          fast = f.fast;
          small = f.small;
          big = f.big;
          board = f.board;
        };
        next = next ∙ ap after_it f.highest;
        pending = is_some-not_none _ some_timer;
      }

  pub before_resend-Ready :
      (now : ℕ) (a : Sack1 R B)
      → outstanding e a ≡ true
      → Ready (record a.sender { frto = 0 }) a.board (before_resend e now a)
  unfolding before_resend
  before_resend-Ready now a out =
      let d = e.double in
      let zero_frto = set_frto e 0 a in
      let win = pos_part (window zero_frto.sender) in
      let kept = record zero_frto {
        pipe_prev = if ltb a.cut.ssthresh win then win else a.cut.ssthresh;
      } in
      let low = d.lt kept.cut.cwnd (d.num 1 1) in
      let one = (if low then set_cwnd e (d.num 1 1) kept else kept) in
      let idle = not (outstanding e one) && not e.slow_start_restart in
      let out' : outstanding e one ≡ true = out_if low (d.num 1 1) kept ∙ out in
      let cuts : idle ≡ false = ground (arith, out') in
      let cut =
        (if idle
          then one
          else cut_at_timeout e (lower_init e (set_recover one.sender.maxseq one))) in
      reset-Ready now (outstanding e cut || not e.restart_bugfix) (record a.sender { frto = 0 })
        a.board cut (one_if low (d.num 1 1) kept cut (whole_cut idle one out' cuts))

  -- The state that `Sack1TcpAgent::timeout` hands over.
  pub leave_recovery-is :
      (a : Sack1 R B)
      → let s = a.sender in
        ((leave_recovery e a).sender ≡ record s {
          dctcp_maxseq = s.t_seqno;
          dupacks = 0;
          fastrecov = false;
          last_ack = if ltb_ℤ s.last_ack s.highest_ack then s.highest_ack else s.last_ack;
          recover = s.maxseq;
        })
        × ((leave_recovery e a).board ≡ e.scb.clear a.board)
  unfolding leave_recovery restart_fl_bndr
  leave_recovery-is a = elim (Bool-cases e.flow_bender) [
    | inl bends ↦ simp (bends) (refl, refl)
    | inr plain ↦ simp (plain) (refl, refl)
  ]
