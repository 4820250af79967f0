-- ===== src/Recovery/Calm.antt =====
-- What sending, the timers and the cuts of the window leave alone: what is acknowledged, and fast
-- recovery.
use saps_extended.Base.{
  subst, ℕ, zero, suc, ◌+◌, ◌≡◌, inl, inr, refl, ap, ◌∙◌, List, Bool, true, false, not, ◌&&◌, ◌||◌,
  Option, none, some, [], arith, ltb, ◌==◌, if◌then◌else◌, Bool-cases,
}
use saps_extended.Base.Int.{ℤ, pos, negsuc, pos_part, neg_part, ◌+ℤ◌, ◌≤ℤ◌, ltb_ℤ, leb_ℤ, eqb_ℤ}
use saps_extended.Cwnd.{How}
use saps_extended.Cwnd.Cuts.{slowdown-recover}
use saps_extended.Sender.{Sender, Segment, output, hand_over, note_new, send_next, send_one, window}
use saps_extended.Sender.Sack.{
  Board, sack_choose, sack_send, sack_round, sack_many, sack_send_much, within, sack_may_send,
}
use saps_extended.Recovery.{Setup, Sack1, settings, cut_of, slow, new_timer, reset_timer, much}

pub record Same (s s' : Sender) : Type 0 where
  pub highest : s'.highest_ack ≡ s.highest_ack
  pub last : s'.last_ack ≡ s.last_ack
  pub recover : s'.recover ≡ s.recover
  pub fast : s'.fastrecov ≡ s.fastrecov
  pub dupacks : s'.dupacks ≡ s.dupacks
  pub frto : s'.frto ≡ s.frto
  pub more : s.maxseq ≤ℤ s'.maxseq

-- All of it stays.
pub unmoved :
    (s s' : Sender)
    → s'.highest_ack ≡ s.highest_ack
    → s'.last_ack ≡ s.last_ack
    → s'.recover ≡ s.recover
    → s'.fastrecov ≡ s.fastrecov
    → s'.dupacks ≡ s.dupacks
    → s'.frto ≡ s.frto
    → s'.maxseq ≡ s.maxseq
    → Same s s'
unmoved s s' highest last recover fast dupacks frto same = record {
  highest = highest;
  last = last;
  recover = recover;
  fast = fast;
  dupacks = dupacks;
  frto = frto;
  more = omega (arith, ap pos_part same, ap neg_part same);
}

pub Same-refl : (s : Sender) → Same s s
Same-refl s = unmoved s s refl refl refl refl refl refl refl

pub Same-trans : {s t u : Sender} → Same s t → Same t u → Same s u
Same-trans a b = record {
  highest = b.highest ∙ a.highest;
  last = b.last ∙ a.last;
  recover = b.recover ∙ a.recover;
  fast = b.fast ∙ a.fast;
  dupacks = b.dupacks ∙ a.dupacks;
  frto = b.frto ∙ a.frto;
  more = omega (arith, a.more, b.more);
}

-- The notes of the timers count for nothing here.
pub Same-put : {s s' : Sender} → Same s s' → Same s (record s' { rescheds = [] })
Same-put h = record {
  highest = h.highest;
  last = h.last;
  recover = h.recover;
  fast = h.fast;
  dupacks = h.dupacks;
  frto = h.frto;
  more = h.more;
}

pub output-Same :
    (now : ℕ) (seqno : ℤ) (reason : ℕ) (s : Sender) → Same s (output now seqno reason s).0
unfolding output hand_over note_new
output-Same now seqno reason s = ground arith

pub send_one-Same : (now : ℕ) (s : Sender) → Same s (send_one now s).0
unfolding send_one send_next
send_one-Same now s =
    let o = output-Same now s.t_seqno 0 s in
    ground (arith, o.highest, o.last, o.recover, o.fast, o.dupacks, o.frto, o.more)

sack_send-Same : (now reason : ℕ) (x : ℤ) (s : Sender) → Same s (sack_send now reason x s).0
unfolding sack_send
sack_send-Same now reason x s =
    let o = output-Same now x reason s in
    record {
      highest = o.highest;
      last = o.last;
      recover = o.recover;
      fast = o.fast;
      dupacks = o.dupacks;
      frto = o.frto;
      more = o.more;
    }

abbrev SameOr : {B : Type 0} → Sender → Option (ℤ × Sender × B) → Type 0
SameOr s none = Unit
SameOr s (some c) = Same s c.1

SameOr-if :
    {B : Type 0} {s : Sender} (test : Bool) (c : ℤ × Sender × B)
    → Same s c.1
    → SameOr s (if test then some c else none)
SameOr-if true c h = h
SameOr-if false c h = tt

module _ {B : Type 0} (scb : Board B) where
  sack_choose-Same : (s : Sender) (b : B) → SameOr s (sack_choose scb s b)
  unfolding sack_choose
  sack_choose-Same s b = elim (Bool-cases (eqb_ℤ (scb.next_retran b) (negsuc 0))) [
    | inl new ↦ rw new (
        SameOr-if (within s && ltb_ℤ s.t_seqno s.curseq)
          (s.t_seqno, record s { t_seqno = s.t_seqno +ℤ pos 1 }, b)
          (unmoved s _ refl refl refl refl refl refl refl))
    | inr old ↦ rw old (
        SameOr-if
          (ltb_ℤ (pos 0) s.recover && leb_ℤ (scb.next_retran b) (s.highest_ack +ℤ pos s.wnd))
          (scb.next_retran b, s, scb.mark_retran (scb.next_retran b) b) (Same-refl s))
  ]

  module _ (now reason maxburst sent : ℕ) (s : Sender) (b : B) where
    sack_round-Same :
        (c : Option (ℤ × Sender × B)) (more : Sender → B → Sender × B × List Segment)
        → SameOr s c
        → ((s' : Sender) (b' : B) → Same s s' → Same s (more s' b').0)
        → Same s (sack_round scb now reason maxburst sent s b c more).0
    unfolding sack_round
    sack_round-Same none more h rest = Same-refl s
    sack_round-Same (some (x, s1, b1)) more h rest =
        let sent_one = Same-trans h (sack_send-Same now reason x s1) in
        elim (Bool-cases (ltb 0 maxburst && (sent + 1 == maxburst))) [
          | inl full ↦ rw full sent_one
          | inr room ↦ rw room (rest _ b1 sent_one)
        ]

  sack_many-Same :
      (fuel now : ℕ) (force : Bool) (reason maxburst sent : ℕ) (s : Sender) (b : B)
      → Same s (sack_many scb fuel now force reason maxburst sent s b).0
  unfolding sack_many
  sack_many-Same zero now force reason maxburst sent s b = Same-refl s
  sack_many-Same (suc fuel) now force reason maxburst sent s b =
      elim (Bool-cases (sack_may_send s)) [
        | inr stop ↦ rw stop (Same-refl s)
        | inl go ↦ elim (Bool-cases (not s.overhead || force)) [
          | inr wait ↦ rw (go, wait) (unmoved s _ refl refl refl refl refl refl refl)
          | inl eager ↦
              rw (go, eager)
                (sack_round-Same now reason maxburst sent s b (sack_choose scb s b)
                  (sack_many scb fuel now force reason maxburst (sent + 1)) (sack_choose-Same s b)
                  (λ s' b' k.
                    Same-trans k (sack_many-Same fuel now force reason maxburst (sent + 1) s' b')))
        ]
      ]

  pub sack_send_much-Same :
      (fuel now : ℕ) (force : Bool) (reason maxburst : ℕ) (s : Sender) (b : B)
      → Same s (sack_send_much scb fuel now force reason maxburst s b).0
  unfolding sack_send_much
  sack_send_much-Same fuel now force reason maxburst s b =
      elim (Bool-cases (not force && s.delsnd)) [
        | inl wait ↦ rw wait (Same-refl s)
        | inr go ↦ rw go (sack_many-Same fuel now force reason maxburst 0 s b)
      ]

-- The same of the whole agent.
pub record Calm {R B : Type 0} (a b : Sack1 R B) : Type 0 where
  pub sender : Same a.sender b.sender
  pub init : b.wnd_init_option ≡ a.wnd_init_option

-- The sender may differ in other members than these.
pub Calm-view :
    {R B : Type 0} {a b : Sack1 R B} {t : Sender}
    → t ≡ a.sender
    → Same t b.sender
    → b.wnd_init_option ≡ a.wnd_init_option
    → Calm a b
Calm-view {b = b} same view init = record {
  sender = subst (λ u. Same u b.sender) same view;
  init = init;
}

pub Calm-refl : {R B : Type 0} (a : Sack1 R B) → Calm a a
Calm-refl a = record { sender = Same-refl a.sender; init = refl }

pub Calm-trans : {R B : Type 0} {a b c : Sack1 R B} → Calm a b → Calm b c → Calm a c
Calm-trans p q = record { sender = Same-trans p.sender q.sender; init = q.init ∙ p.init }

module _ {R B : Type 0} (e : Setup R B) where
  pub slow-Calm : (how : How) (a : Sack1 R B) → Calm a (slow e how a)
  unfolding slow
  slow-Calm how a = record {
    sender = record {
      highest = refl;
      last = refl;
      recover =
          slowdown-recover e.double e.log (settings e a) (pos_part (window a.sender)) how
            (cut_of e a);
      fast = refl;
      dupacks = refl;
      frto = refl;
      more = omega arith;
    };
    init = refl;
  }

  pub new_timer-Calm : (now : ℕ) (seqno : ℤ) (a : Sack1 R B) → Calm a (new_timer e now seqno a)
  unfolding new_timer
  new_timer-Calm now seqno a = record {
    sender = unmoved a.sender _ refl refl refl refl refl refl refl;
    init = refl;
  }

  pub reset_timer-Calm :
      (now : ℕ) (mild backoff : Bool) (a : Sack1 R B) → Calm a (reset_timer e now mild backoff a)
  unfolding reset_timer
  reset_timer-Calm now mild backoff a = record {
    sender = unmoved a.sender _ refl refl refl refl refl refl refl;
    init = refl;
  }

  pub much-Calm :
      (now : ℕ) (force : Bool) (reason : ℕ) (a : Sack1 R B) → Calm a (much e now force reason a).0
  unfolding much
  much-Calm now force reason a = record {
    sender =
        Same-put
          (sack_send_much-Same e.scb.board e.fuel now force reason e.maxburst a.sender a.board);
    init = refl;
  }
