-- ===== src/Recovery/Duplicate.antt =====
-- A duplicate acknowledgement keeps the invariant, whether or not it starts fast recovery.
use saps_extended.Base.{
  ℕ, ◌+◌, ◌<◌, ◌≡◌, inl, inr, refl, ap, sym, ◌∙◌, [], Bool, true, false, not, ◌&&◌, ◌||◌, arith,
  if◌then◌else◌, Bool-cases, ◌==◌, ltb,
}
use saps_extended.Base.Int.{
  ℤ, pos, pos_part, neg_part, ◌+ℤ◌, ◌≤ℤ◌, ltb_ℤ, eqb_ℤ, le_of_eqs, le_trans,
}
use saps_extended.Packet.{Packet}
use saps_extended.Cwnd.{dupack}
use saps_extended.Sacked.{is_sacked}
use saps_extended.Sender.{send_one}
use saps_extended.Recovery.{Setup, Sack1, put_sender, slow}
use saps_extended.Recovery.Newack.{spurious_timeout}
use saps_extended.Recovery.Loss.{
  num_dupacks, set_pipe, set_action, set_fastrecov, retransmit, recover_after_ecn, sack_action,
  dupack_action, halves, is_ecn,
}
use saps_extended.Recovery.Recv.{count_duplicate, sfrto_step, duplicate, update_board}
use saps_extended.Recovery.Calm.{
  Same-put, Same-refl, unmoved, Calm, Calm-refl, Calm-trans, slow-Calm, reset_timer-Calm,
  output-Same, send_one-Same,
}
use saps_extended.Recovery.Sound.{IsSound, IsValid, Grows, init_of, Calm-IsSound, Calm-Grows}

-- A loss is acted on: fast recovery lasts until all is acknowledged that was sent.
record Lost {R B : Type 0} (a b : Sack1 R B) : Type 0 where
  highest : b.sender.highest_ack ≡ a.sender.highest_ack
  last : b.sender.last_ack ≡ a.sender.last_ack
  frto : b.sender.frto ≡ a.sender.frto
  more : a.sender.maxseq ≤ℤ b.sender.maxseq
  init : b.wnd_init_option ≡ a.wnd_init_option
  recovering : b.sender.fastrecov ≡ true → b.sender.highest_ack ≤ℤ b.sender.recover

Lost-Calm : {R B : Type 0} {a b c : Sack1 R B} → Lost a b → Calm b c → Lost a c
Lost-Calm {b = b} p q = record {
  highest = q.sender.highest ∙ p.highest;
  last = q.sender.last ∙ p.last;
  frto = q.sender.frto ∙ p.frto;
  more = omega (arith, p.more, q.sender.more);
  init = q.init ∙ p.init;
  recovering = λ fast.
      le_of_eqs b.sender.highest_ack b.sender.recover q.sender.highest q.sender.recover
        (p.recovering (sym q.sender.fast ∙ fast));
}

-- Fast recovery starts, from a state with the same acknowledgements.
Calm-Lost :
    {R B : Type 0} (e : Setup R B) {a a1 b : Sack1 R B}
    → Calm a1 b
    → a1.sender.highest_ack ≡ a.sender.highest_ack
    → a1.sender.last_ack ≡ a.sender.last_ack
    → a1.sender.frto ≡ a.sender.frto
    → a1.sender.maxseq ≡ a.sender.maxseq
    → a1.wnd_init_option ≡ a.wnd_init_option
    → a1.sender.highest_ack ≤ℤ a1.sender.recover
    → Lost a (set_fastrecov e b)
Calm-Lost e {a1 = a1} c highest last frto more init room = record {
  highest = c.sender.highest ∙ highest;
  last = c.sender.last ∙ last;
  frto = c.sender.frto ∙ frto;
  more = omega (arith, c.sender.more, ap pos_part more, ap neg_part more);
  init = c.init ∙ init;
  recovering =
      λ _. le_of_eqs a1.sender.highest_ack a1.sender.recover c.sender.highest c.sender.recover room;
}

module _ {R B : Type 0} (e : Setup R B) where
  retransmit-Calm : (now : ℕ) (a : Sack1 R B) → Calm a (retransmit e now a).0
  unfolding retransmit
  retransmit-Calm now a = record {
    sender = Same-put (output-Same now (a.sender.last_ack +ℤ pos 1) 2 a.sender);
    init = refl;
  }

  set_action-Calm : (a : Sack1 R B) → Calm a (set_action dupack a)
  set_action-Calm a = record { sender = Same-refl a.sender; init = refl }

  set_pipe-Calm : (pipe : ℤ) (a : Sack1 R B) → Calm a (set_pipe pipe a)
  set_pipe-Calm pipe a = record {
    sender = unmoved a.sender _ refl refl refl refl refl refl refl;
    init = refl;
  }

  sack_action-Lost :
      (now : ℕ) (a : Sack1 R B)
      → a.sender.highest_ack ≤ℤ a.sender.maxseq
      → Lost a (sack_action e now a).0
  unfolding sack_action
  sack_action-Lost now a sent =
      Lost-Calm (Calm-Lost e (reset_timer-Calm e now true false _) refl refl refl refl refl sent)
        (Calm-trans (set_action-Calm _) (Calm-trans (slow-Calm e halves _) (retransmit-Calm now _)))

  slow_if-Calm : (b : Bool) (a : Sack1 R B) → Calm a (if b then slow e halves a else a)
  slow_if-Calm true a = slow-Calm e halves a
  slow_if-Calm false a = Calm-refl a

  recover_after_ecn-Lost :
      (now : ℕ) (a : Sack1 R B)
      → a.sender.highest_ack ≤ℤ a.sender.recover
      → Lost a (recover_after_ecn e now a).0
  unfolding recover_after_ecn
  recover_after_ecn-Lost now a room =
      let c = Calm-trans (set_action-Calm a) (
        Calm-trans (slow_if-Calm e.cwnd.dctcp (set_action dupack a))
          (reset_timer-Calm e now true false _)) in
      Lost-Calm (Calm-Lost e (Calm-trans c (set_pipe-Calm _ _)) refl refl refl refl refl room)
        (retransmit-Calm now _)

  unless_fixed :
      (fixed : Bool) (now : ℕ) (a : Sack1 R B)
      → a.sender.highest_ack ≤ℤ a.sender.maxseq
      → a.sender.fastrecov ≡ false
      → Lost a (if fixed then (a, []) else sack_action e now a).0
  unless_fixed true now a sent slow = record {
    highest = refl;
    last = refl;
    frto = refl;
    more = omega arith;
    init = refl;
    recovering = λ fast. cc (fast, slow);
  }
  unless_fixed false now a sent slow = sack_action-Lost now a sent

  dupack_action-Lost :
      (now : ℕ) (a : Sack1 R B)
      → a.sender.highest_ack ≤ℤ a.sender.maxseq
      → a.sender.fastrecov ≡ false
      → Lost a (dupack_action e now a).0
  unfolding dupack_action
  dupack_action-Lost now a sent slow =
      let s = a.sender in
      elim (Bool-cases (
        ltb_ℤ s.recover s.highest_ack
        || (not e.bug_fix && not s.ecn)
        || (e.bugfix_ss && eqb_ℤ s.highest_ack (pos 0)))) [
          | inl fresh ↦ simp (fresh) (sack_action-Lost now a sent)
          | inr old ↦ elim (Bool-cases (s.ecn && is_ecn a.cut.last_action)) [
            | inl answered ↦ simp (old, answered) (recover_after_ecn-Lost now a (ground arith))
            | inr other ↦ simp (old, other) (unless_fixed e.bug_fix now a sent slow)
          ]
        ]

-- A duplicate has been counted: before the second step of F-RTO this starts no recovery.
record Counted {R B : Type 0} (e : Setup R B) (highest : ℤ) (b : Sack1 R B) : Type 0 where
  sound : IsSound b
  grows : highest ≤ℤ b.sender.highest_ack
  quick : e.sfrto_enabled ≡ true → b.sender.frto ≡ 2 → b.sender.fastrecov ≡ false

module _ {R B : Type 0} (e : Setup R B) (two : 1 < e.numdupacks) where
  Lost-IsSound : {a b : Sack1 R B} → IsSound a → a.sender.fastrecov ≡ false → Lost a b → IsSound b
  Lost-IsSound {a} {b} h slow l = record {
    below = le_of_eqs a.sender.last_ack a.sender.highest_ack l.last l.highest h.below;
    sent =
        le_trans b.sender.highest_ack a.sender.maxseq b.sender.maxseq
          (le_of_eqs a.sender.highest_ack a.sender.maxseq l.highest refl h.sent) l.more;
    recovering = l.recovering;
    normal = λ _. le_of_eqs a.sender.highest_ack a.sender.last_ack l.highest l.last (h.normal slow);
    init = init_of l.init h.init;
  }

  more_than_one : (a : Sack1 R B) → 1 < num_dupacks e a
  more_than_one a = ground (arith, two)

  same-Grows : (a b : Sack1 R B) → b.sender.highest_ack ≡ a.sender.highest_ack → Grows a b
  same-Grows a b same = le_of_eqs a.sender.highest_ack a.sender.highest_ack refl same (omega arith)

  Calm-Counted :
      {b : Sack1 R B} (a : Sack1 R B)
      → IsSound a
      → a.sender.fastrecov ≡ false
      → Calm a b
      → Counted e a.sender.highest_ack b
  Calm-Counted a h slow c = record {
    sound = Calm-IsSound c h;
    grows = Calm-Grows c;
    quick = λ _ _. c.sender.fast ∙ slow;
  }

  count_duplicate-Counted :
      (now : ℕ) (a : Sack1 R B)
      → IsValid e a
      → a.sender.fastrecov ≡ false
      → Counted e a.sender.highest_ack (count_duplicate e now a).0
  unfolding count_duplicate
  count_duplicate-Counted now a v slow =
      let more = record a { sender = record a.sender { dupacks = a.sender.dupacks + 1 } } in
      let h : IsSound more = record {
        below = v.sound.below;
        sent = v.sound.sent;
        recovering = v.sound.recovering;
        normal = v.sound.normal;
        init = v.sound.init;
      } in
      elim (Bool-cases (more.sender.dupacks == num_dupacks e more)) [
        | inl hit ↦
            let l = dupack_action-Lost e now more h.sent slow in
            simp (hit) (record {
              sound = Lost-IsSound h slow l;
              grows = same-Grows more (dupack_action e now more).0 l.highest;
              quick = λ on is_two.
                  absurd
                    (ground (arith, more_than_one more, v.first on (sym l.frto ∙ is_two), hit));
            })
        | inr miss ↦
            elim (Bool-cases (ltb more.sender.dupacks (num_dupacks e more) && e.singledup)) [
              | inl early ↦
                  let c : Calm more (put_sender e more (send_one now more.sender)).0 = record {
                    sender = Same-put (send_one-Same now more.sender);
                    init = refl;
                  } in
                  simp (miss, early) (Calm-Counted more h slow c)
              | inr later ↦ simp (miss, later) (Calm-Counted more h slow (Calm-refl more))
            ]
      ]

  sfrto_step-IsValid :
      (p : Packet) {highest : ℤ} (b : Sack1 R B)
      → Counted e highest b
      → IsValid e (sfrto_step e p b) × (highest ≤ℤ (sfrto_step e p b).sender.highest_ack)
  unfolding sfrto_step spurious_timeout
  sfrto_step-IsValid p b h =
      let s = b.sender in
      let normal_when : (e.sfrto_enabled && (s.frto == 2)) ≡ true → s.fastrecov ≡ false =
        λ second. h.quick (ground arith) (ground arith) in
      elim (Bool-cases (e.sfrto_enabled && (s.frto == 2))) [
        | inr other ↦ simp (other) (
          record {
            sound = h.sound;
            first = λ on is_two. absurd (ground (arith, on, is_two, other));
          },
          h.grows,
        )
        | inl second ↦
            elim (Bool-cases (
              e.scb.is_changed b.board
              && not (is_sacked p.tcp.sa_length p.tcp.sack_area s.recover s.maxseq))) [
                | inl spurious ↦
                    simp (second, spurious)
                      (
                        record {
                          sound = record {
                            below = h.sound.below;
                            sent = h.sound.sent;
                            recovering = λ fast. cc (fast, normal_when second);
                            normal = h.sound.normal;
                            init = h.sound.init;
                          };
                          first = λ _ is_two. absurd (omega (arith, is_two));
                        },
                        h.grows,
                      )
                | inr lost ↦
                    simp (second, lost)
                      (
                        record {
                          sound = record {
                            below = h.sound.below;
                            sent = h.sound.sent;
                            recovering = h.sound.recovering;
                            normal = h.sound.normal;
                            init = h.sound.init;
                          };
                          first = λ _ is_two. absurd (omega (arith, is_two));
                        },
                        h.grows,
                      )
              ]
      ]

  pub duplicate-IsValid :
      (now : ℕ) (p : Packet) (a : Sack1 R B)
      → IsValid e a
      → a.sender.fastrecov ≡ false
      → let b = (duplicate e now p a).0 in IsValid e b × Grows a b
  unfolding duplicate
  duplicate-IsValid now p a v slow =
      let updated = update_board e p a in
      let v' : IsValid e updated = record {
        sound = record {
          below = v.sound.below;
          sent = v.sound.sent;
          recovering = v.sound.recovering;
          normal = v.sound.normal;
          init = v.sound.init;
        };
        first = v.first;
      } in
      elim (Bool-cases (e.scb.check_update updated.board)) [
        | inl news ↦
            simp (news) (sfrto_step-IsValid p _ (count_duplicate-Counted now updated v' slow))
        | inr none_new ↦ simp (none_new) (
            sfrto_step-IsValid p updated
              (record { sound = v'.sound; grows = omega arith; quick = λ _ _. slow }))
      ]
