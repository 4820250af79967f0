-- ===== src/Recovery/Receipt.antt =====
-- What a new acknowledgement leaves: everything up to it is acknowledged, and no duplicates count.
use saps_extended.Base.{
  ℕ, ◌≡◌, ◌≢◌, inl, inr, refl, ap, ◌∙◌, Bool, true, false, not, ◌&&◌, ◌||◌, Option, none, some,
  arith, if◌then◌else◌, Bool-cases, ◌==◌,
}
use saps_extended.Base.Int.{ℤ, pos, pos_part, neg_part, ◌+ℤ◌, ◌≤ℤ◌, leb_ℤ, eqb_ℤ}
use saps_extended.Packet.{Packet, is_set}
use saps_extended.Cwnd.{Cwnd}
use saps_extended.Cwnd.Growth.{Growth, opencwnd, IsKnown, opencwnd-known}
use saps_extended.Sender.{Sender}
use saps_extended.Recovery.{Setup, Sack1, settings, cut_of, put_cut, new_timer, ecnecho}
use saps_extended.Recovery.Newack.{
  advance, take_stamp, take_timed, average_window, newack, may_end_backoff, update_rtt, open_window,
  note_echo, close, frto_step, spurious_timeout, recv_newack_helper, may_open, put_open,
}
use saps_extended.Recovery.Calm.{
  Same, Same-refl, unmoved, Calm, Calm-refl, Calm-trans, Calm-view, new_timer-Calm,
}

-- All up to `seqno` is acknowledged; `recover_` and `frto_` are left open.
pub record Settled {R B : Type 0} (seqno : ℤ) (a b : Sack1 R B) : Type 0 where
  pub highest : b.sender.highest_ack ≡ seqno
  pub last : b.sender.last_ack ≡ seqno
  pub dupacks : b.sender.dupacks ≡ 0
  pub fast : b.sender.fastrecov ≡ a.sender.fastrecov
  pub more : a.sender.maxseq ≤ℤ b.sender.maxseq
  pub init : b.wnd_init_option ≡ a.wnd_init_option

pub Settled-Calm :
    {R B : Type 0} {seqno : ℤ} {a b c : Sack1 R B}
    → Settled seqno a b
    → Calm b c
    → Settled seqno a c
Settled-Calm p q = record {
  highest = q.sender.highest ∙ p.highest;
  last = q.sender.last ∙ p.last;
  dupacks = q.sender.dupacks ∙ p.dupacks;
  fast = q.sender.fast ∙ p.fast;
  more = omega (arith, p.more, q.sender.more);
  init = q.init ∙ p.init;
}

pub Calm-Settled :
    {R B : Type 0} {seqno : ℤ} {a b c : Sack1 R B}
    → Calm a b
    → Settled seqno b c
    → Settled seqno a c
Calm-Settled p q = record {
  highest = q.highest;
  last = q.last;
  dupacks = q.dupacks;
  fast = q.fast ∙ p.sender.fast;
  more = omega (arith, p.sender.more, q.more);
  init = q.init ∙ p.init;
}

-- Only `recover_`, `frto_` and members that no part of this reads may differ.
record Loose {R B : Type 0} (a b : Sack1 R B) : Type 0 where
  highest : b.sender.highest_ack ≡ a.sender.highest_ack
  last : b.sender.last_ack ≡ a.sender.last_ack
  dupacks : b.sender.dupacks ≡ a.sender.dupacks
  fast : b.sender.fastrecov ≡ a.sender.fastrecov
  more : b.sender.maxseq ≡ a.sender.maxseq
  init : b.wnd_init_option ≡ a.wnd_init_option

Settled-Loose :
    {R B : Type 0} {seqno : ℤ} {a b c : Sack1 R B}
    → Settled seqno a b
    → Loose b c
    → Settled seqno a c
Settled-Loose p q = record {
  highest = q.highest ∙ p.highest;
  last = q.last ∙ p.last;
  dupacks = q.dupacks ∙ p.dupacks;
  fast = q.fast ∙ p.fast;
  more = omega (arith, p.more, ap pos_part q.more, ap neg_part q.more);
  init = q.init ∙ p.init;
}

moved :
    {R B : Type 0} (a b : Sack1 R B)
    → b.sender.highest_ack ≡ a.sender.highest_ack
    → b.sender.last_ack ≡ a.sender.last_ack
    → b.sender.dupacks ≡ a.sender.dupacks
    → b.sender.fastrecov ≡ a.sender.fastrecov
    → b.sender.maxseq ≡ a.sender.maxseq
    → b.wnd_init_option ≡ a.wnd_init_option
    → Loose a b
moved a b highest last dupacks fast more init = record {
  highest = highest;
  last = last;
  dupacks = dupacks;
  fast = fast;
  more = more;
  init = init;
}

Loose-refl : {R B : Type 0} (a : Sack1 R B) → Loose a a
Loose-refl a = moved a a refl refl refl refl refl refl

module _ {R B : Type 0} (e : Setup R B) where
  end_backoff-Calm :
      (p : Packet) (a : Sack1 R B)
      → ((may_end_backoff e p a).sender ≡ a.sender)
        × ((may_end_backoff e p a).wnd_init_option ≡ a.wnd_init_option)
  end_backoff-Calm p a =
      elim (Bool-cases (not a.ect || (not a.cut.ecn_backoff || not (ecnecho p)))) [
        | inl ends ↦ rw ends (refl, refl)
        | inr stays ↦ rw stays (refl, refl)
      ]

  take_stamp-Calm : (now : ℕ) (p : Packet) (a : Sack1 R B) → Calm a (take_stamp e now p a)
  unfolding take_stamp
  take_stamp-Calm now p a =
      let timed = update_rtt e now p.tcp.ts_echo (record a { ts_echo = p.tcp.ts_echo }) in
      let (sender, init) = end_backoff-Calm p timed in
      elim (Bool-cases e.timing.ts_option) [
        | inr off ↦ simp (off) (Calm-refl a)
        | inl on ↦ elim (Bool-cases e.ts_reset_rto) [
          | inr keep ↦ simp (on, keep) (Calm-view refl (Same-refl a.sender) refl)
          | inl ends ↦ simp (on, ends) (Calm-view sender (Same-refl _) init)
        ]
      ]

  idle-Same : (s : Sender) → Same s (record s { rtt_active = false })
  idle-Same s = unmoved s _ refl refl refl refl refl refl refl

  take_timed-Calm : (now : ℕ) (p : Packet) (a : Sack1 R B) → Calm a (take_timed e now p a)
  unfolding take_timed
  take_timed-Calm now p a =
      let (sender, init) = end_backoff-Calm p a in
      let idle = idle-Same (may_end_backoff e p a).sender in
      elim (Bool-cases (a.sender.rtt_active && leb_ℤ a.sender.rtt_seq p.tcp.seqno)) [
        | inr other ↦ simp (other) (Calm-refl a)
        | inl timed ↦ elim (Bool-cases e.timing.ts_option) [
          | inl on ↦ simp (timed, on) (Calm-view sender idle init)
          | inr off ↦ simp (timed, off) (Calm-view sender idle init)
        ]
      ]

  advance-Settled : (seqno : ℤ) (a : Sack1 R B) → Settled seqno a (advance e seqno a)
  unfolding advance
  advance-Settled seqno a = record {
    highest = refl;
    last = refl;
    dupacks = refl;
    fast = refl;
    more = omega arith;
    init = refl;
  }

  average-Calm : (a : Sack1 R B) → Calm a (average_window e a)
  unfolding average_window
  average-Calm a = Calm-view refl (Same-refl a.sender) refl

  timer_early :
      (fix : Bool) (now : ℕ) (seqno : ℤ) (a : Sack1 R B)
      → Calm a (if fix then a else new_timer e now seqno a)
  timer_early true now seqno a = Calm-refl a
  timer_early false now seqno a = new_timer-Calm e now seqno a

  timer_late :
      (fix : Bool) (now : ℕ) (seqno : ℤ) (a : Sack1 R B)
      → Calm a (if fix then new_timer e now seqno a else a)
  timer_late true now seqno a = new_timer-Calm e now seqno a
  timer_late false now seqno a = Calm-refl a

  stamps_if :
      (none_taken : Bool) (now : ℕ) (p : Packet) (a : Sack1 R B)
      → Calm a (if none_taken then a else take_timed e now p (take_stamp e now p a))
  stamps_if true now p a = Calm-refl a
  stamps_if false now p a =
      Calm-trans (take_stamp-Calm now p a) (take_timed-Calm now p (take_stamp e now p a))

  pub newack-Settled :
      (now : ℕ) (p : Packet) (a : Sack1 R B) → Settled p.tcp.seqno a (newack e now p a)
  unfolding newack
  newack-Settled now p a =
      let seqno = p.tcp.seqno in
      Settled-Calm (Calm-Settled (timer_early e.timerfix now seqno a) (advance-Settled seqno _)) (
        Calm-trans (stamps_if (is_set p.flags.no_ts) now p _)
          (Calm-trans (timer_late e.timerfix now seqno _) (average-Calm _)))

  note_echo-Loose : (p : Packet) (a : Sack1 R B) → Loose a (note_echo e p a)
  unfolding note_echo
  note_echo-Loose p a = ground arith

  close-Loose : (a : Sack1 R B) → Loose a (close e a)
  unfolding close
  close-Loose a = ground arith

  spurious-Loose : (a : Sack1 R B) → Loose a (spurious_timeout e a)
  unfolding spurious_timeout
  spurious-Loose a = record {
    highest = refl;
    last = refl;
    dupacks = refl;
    fast = refl;
    more = refl;
    init = refl;
  }

  frto_step-Loose : (a : Sack1 R B) → Loose a (frto_step e a)
  unfolding frto_step
  frto_step-Loose a =
      let s = a.sender in
      let next = s.recover +ℤ pos 1 in
      elim (Bool-cases (s.frto == 1)) [
        | inr no_first ↦ elim (Bool-cases (s.frto == 2)) [
          | inl second ↦ simp (no_first, second) (spurious-Loose a)
          | inr off ↦ simp (no_first, off) (Loose-refl a)
        ]
        | inl first ↦
            elim (Bool-cases (
              leb_ℤ (s.highest_ack +ℤ pos s.wnd) next
              || leb_ℤ s.curseq next
              || eqb_ℤ s.highest_ack s.recover)) [
                | inl ends ↦ simp (first, ends) (moved a _ refl refl refl refl refl refl)
                | inr goes ↦ simp (first, goes) (moved a _ refl refl refl refl refl refl)
              ]
      ]

  echoed_and_closed :
      (p : Packet) (a : Sack1 R B) → Loose a (frto_step e (close e (note_echo e p a)))
  echoed_and_closed p a =
      let x = note_echo-Loose p a in
      let y = close-Loose (note_echo e p a) in
      let z = frto_step-Loose (close e (note_echo e p a)) in
      record {
        highest = z.highest ∙ (y.highest ∙ x.highest);
        last = z.last ∙ (y.last ∙ x.last);
        dupacks = z.dupacks ∙ (y.dupacks ∙ x.dupacks);
        fast = z.fast ∙ (y.fast ∙ x.fast);
        more = z.more ∙ (y.more ∙ x.more);
        init = z.init ∙ (y.init ∙ x.init);
      }

  pub close-Settled :
      {seqno : ℤ} {a : Sack1 R B} (b : Sack1 R B) → Settled seqno a b → Settled seqno a (close e b)
  close-Settled b h = Settled-Loose h (close-Loose b)

  open-Settled :
      {seqno : ℤ} {a : Sack1 R B} (b : Sack1 R B) (x : Option (Cwnd R × Growth R))
      → x ≢ none
      → Settled seqno a b
      → (c : Sack1 R B) × (put_open e b x ≡ some c) × Settled seqno a c
  open-Settled b none some_x h = absurd (some_x refl)
  open-Settled b (some (k, w)) some_x h = (
    record (put_cut e b k) { growth = w },
    refl,
    Settled-Loose h (moved b _ refl refl refl refl refl refl),
  )

  -- The call ends, if `opencwnd` knows the option.
  pub recv_newack_helper-Settled :
      (now : ℕ) (p : Packet) (a : Sack1 R B)
      → IsKnown e.cwnd
      → (b : Sack1 R B) × (recv_newack_helper e now p a ≡ some b) × Settled p.tcp.seqno a b
  unfolding recv_newack_helper open_window
  recv_newack_helper-Settled now p a known =
      let acked = newack e now p a in
      let h = newack-Settled now p a in
      elim (Bool-cases (may_open e p acked)) [
        | inr stays ↦ simp (stays) (
          frto_step e (close e (note_echo e p acked)),
          refl,
          Settled-Loose h (echoed_and_closed p acked),
        )
        | inl opens ↦
            let (b, eq, k) =
              open-Settled acked
                (opencwnd e.double e.log e.exp (settings e acked) e.grow (cut_of e acked)
                  acked.growth)
                (opencwnd-known e.double e.log e.exp (settings e acked) e.grow (cut_of e acked)
                  acked.growth known)
                h in
            simp (opens, eq)
              (
                frto_step e (close e (note_echo e p b)),
                refl,
                Settled-Loose k (echoed_and_closed p b),
              )
      ]
