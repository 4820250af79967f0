-- ===== src/Recovery/Partial.antt =====
-- In fast recovery `recv` keeps the invariant, and takes back nothing that is acknowledged.
use saps_extended.Base.{
  ℕ, ◌≡◌, refl, Bool, true, false, not, ◌&&◌, ◌||◌, arith, if◌then◌else◌, Bool-cases, inl, inr, ltb,
}
use saps_extended.Base.Int.{ℤ, pos, ◌+ℤ◌, ◌-ℤ◌, ◌≤ℤ◌, ltb_ℤ, leb_ℤ, le_of_eqs}
use saps_extended.Packet.{Packet}
use saps_extended.Recovery.{Setup, Sack1, new_timer}
use saps_extended.Recovery.Newack.{end_backoff}
use saps_extended.Recovery.Loss.{set_pipe, partial_round, partial_ack_action}
use saps_extended.Recovery.Recv.{update_board, end_recovery, partial, another, recv_recovery}
use saps_extended.Recovery.Calm.{
  Same-put, Same-refl, Same-trans, unmoved, Calm, Calm-refl, Calm-trans, new_timer-Calm,
  output-Same,
}
use saps_extended.Recovery.Receipt.{newack-Settled, close-Settled}
use saps_extended.Recovery.Sound.{
  IsValid, Settled-IsValid, Calm-IsValid, Goes, Goes-Calm, Goes-refl,
}
use saps_extended.Recovery.Normal.{send_if-Goes, clear-Calm}

module _ {R B : Type 0} (e : Setup R B) where
  pipe-Calm : (pipe : ℤ) (a : Sack1 R B) → Calm a (set_pipe pipe a)
  pipe-Calm pipe a = record {
    sender = unmoved a.sender _ refl refl refl refl refl refl refl;
    init = refl;
  }

  backoff-Calm : (a : Sack1 R B) → Calm a (end_backoff e a)
  backoff-Calm a = record { sender = Same-refl a.sender; init = refl }

  partial_round-Calm : (now : ℕ) (a : Sack1 R B) → Calm a (partial_round e now a).0
  unfolding partial_round
  partial_round-Calm now a = record {
    sender =
        Same-trans (unmoved a.sender _ refl refl refl refl refl refl refl)
          (Same-put (output-Same now _ 4 _));
    init = refl;
  }

  partial_ack_action-Calm : (now : ℕ) (a : Sack1 R B) → Calm a (partial_ack_action e now a).0
  unfolding partial_ack_action
  partial_ack_action-Calm now a =
      let next = a.sender.highest_ack +ℤ pos 1 in
      let start = record a { next_pkt = if ltb_ℤ a.next_pkt next then next else a.next_pkt } in
      let c : Calm a start = record { sender = Same-refl a.sender; init = refl } in
      Calm-trans c (
        Calm-trans (partial_round-Calm now start)
          (partial_round-Calm now (partial_round e now start).0))

  timed-Calm :
      (now : ℕ) (seqno : ℤ) (a : Sack1 R B) → Calm a (end_backoff e (new_timer e now seqno a))
  timed-Calm now seqno a = Calm-trans (new_timer-Calm e now seqno a) (backoff-Calm _)

  first_if-Calm :
      (b : Bool) (now : ℕ) (seqno : ℤ) (a : Sack1 R B)
      → Calm a (
          if b then a else record (end_backoff e (new_timer e now seqno a)) { firstpartial = true })
  first_if-Calm true now seqno a = Calm-refl a
  first_if-Calm false now seqno a =
      Calm-trans (timed-Calm now seqno a) (record { sender = Same-refl _; init = refl })

  -- What is acknowledged moves up, and the rest is sending and timing.
  partial-Calm :
      (now : ℕ) (p : Packet) (a : Sack1 R B)
      → let s = a.sender in
        Calm
          (update_board e p (record a { sender = record s { highest_ack = p.tcp.seqno } }))
          (partial e now p a).0
  unfolding partial
  partial-Calm now p a =
      let high =
        update_board e p (record a { sender = record a.sender { highest_ack = p.tcp.seqno } }) in
      elim (Bool-cases e.partial_ack) [
        | inl sends ↦ simp (sends) (
            Calm-trans (partial_ack_action-Calm now high)
              (Calm-trans (pipe-Calm _ _) (first_if-Calm _ now p.tcp.seqno _)))
        | inr sends_none ↦
            simp (sends_none) (Calm-trans (pipe-Calm _ high) (timed-Calm now p.tcp.seqno _))
      ]

  partial-Goes :
      (now : ℕ) (p : Packet) (a : Sack1 R B)
      → IsValid e a
      → p.tcp.seqno ≤ℤ a.sender.maxseq
      → a.sender.fastrecov ≡ true
      → leb_ℤ a.sender.recover p.tcp.seqno ≡ false
      → ltb_ℤ a.sender.highest_ack p.tcp.seqno ≡ true
      → Goes e a.sender.highest_ack (partial e now p a).0
  partial-Goes now p a v sent fast short above =
      Goes-Calm e
        (record {
          valid = record {
            sound = record {
              below = ground (arith, v.sound.below);
              sent = sent;
              recovering = λ _. ground arith;
              normal = λ slow. cc (slow, fast);
              init = v.sound.init;
            };
            first = v.first;
          };
          grows = ground arith;
        })
        (partial-Calm now p a)

  another-Goes :
      (p : Packet) (a : Sack1 R B) → IsValid e a → Goes e a.sender.highest_ack (another e p a)
  unfolding another
  another-Goes p a v =
      let updated = update_board e p a in
      elim (Bool-cases (e.scb.check_update updated.board && ltb 0 a.sender.dupacks)) [
        | inr stays ↦
            simp (stays)
              (Goes-Calm e (Goes-refl e a v) (record { sender = Same-refl a.sender; init = refl }))
        | inl more ↦ simp (more) (record {
          valid = record {
            sound = record {
              below = v.sound.below;
              sent = v.sound.sent;
              recovering = v.sound.recovering;
              normal = v.sound.normal;
              init = v.sound.init;
            };
            first = λ on two. absurd (ground (arith, v.first on two, more));
          };
          grows = omega arith;
        })
      ]

  end_recovery-Goes :
      (now : ℕ) (p : Packet) (a : Sack1 R B)
      → IsValid e a
      → p.tcp.seqno ≤ℤ a.sender.maxseq
      → a.sender.highest_ack ≤ℤ p.tcp.seqno
      → Goes e a.sender.highest_ack (end_recovery e now p a)
  unfolding end_recovery
  end_recovery-Goes now p a v sent above =
      let over = record a { sender = record a.sender { recover = pos 0; fastrecov = false } } in
      let settled = close-Settled e _ (newack-Settled e now p over) in
      Goes-Calm e
        (record {
          valid = Settled-IsValid e p.tcp.seqno settled refl sent v.sound.init;
          grows = le_of_eqs a.sender.highest_ack p.tcp.seqno refl settled.highest above;
        })
        (clear-Calm e _)

  pub recv_recovery-Goes :
      (valid : Bool) (now : ℕ) (p : Packet) (a : Sack1 R B)
      → IsValid e a
      → a.sender.fastrecov ≡ true
      → p.tcp.seqno ≤ℤ a.sender.maxseq
      → Goes e a.sender.highest_ack (recv_recovery e valid now p a).0
  unfolding recv_recovery
  recv_recovery-Goes valid now p a v fast sent =
      let pipe = a.sender.pipe -ℤ pos 1 in
      let less = set_pipe pipe a in
      let v' = Calm-IsValid e (pipe-Calm pipe a) v in
      send_if-Goes e (valid || e.aggressive_maxburst) now _
        (elim (Bool-cases (leb_ℤ a.sender.recover p.tcp.seqno)) [
          | inl over ↦
              simp (over) (
                end_recovery-Goes now p less v' sent
                  (ground (arith, v.sound.recovering fast, over)))
          | inr short ↦ elim (Bool-cases (ltb_ℤ a.sender.highest_ack p.tcp.seqno)) [
            | inl above ↦ simp (short, above) (partial-Goes now p less v' sent fast short above)
            | inr old ↦ elim (Bool-cases (not a.timeout)) [
              | inl again ↦ simp (short, old, again) (another-Goes p less v')
              | inr waits ↦ simp (short, old, waits) (Goes-refl e less v')
            ]
          ]
        ])
