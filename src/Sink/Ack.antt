-- ===== src/Sink/Ack.antt =====
-- One acknowledgement, and one received packet, of a sink with either kind of acker.
use saps_extended.Base.{
  ℕ, ◌+◌, ◌≤◌, ◌<◌, ◌≡◌, refl, sym, ◌∙◌, ap, subst, List, [], ◌∷◌, ◌++◌, ◌==◌, if◌then◌else◌, arith,
  length, le→not-ltb, lt→ltb,
}
use saps_extended.Base.Int.{ℤ}
use saps_extended.Acker
use saps_extended.Acker.{Acker, seqno, update, update_ts, update_ecn_unacked}
use saps_extended.Acker.Refine.{IsValid}
use saps_extended.Acker.Frame.{other_fields-IsValid, update-IsValid, update_ts-IsValid}
use saps_extended.Sacker.{nsa}
use saps_extended.Sacker.Invariant.{IsSacker}
use saps_extended.Sacker.Append.{append_ack_lem}
use saps_extended.Packet.{Packet, initpkt}
use saps_extended.Sink.{
  Receiver, plain, sack, acker, set_acker, Sink, Env, Output, recv_bytes, send, append_receiver,
  next_ecn_unacked, build_ack, ack, deliver, take_in, recv,
}

-- The window of the acker is valid, and a sacker is configured.
abbrev pub IsReceiver : Receiver → Type 0
IsReceiver (plain a) = IsValid a
IsReceiver (sack s) = IsSacker s

pub acker-IsValid : (r : Receiver) → IsReceiver r → IsValid (acker r)
acker-IsValid (plain a) v = v
acker-IsValid (sack s) v = v.acker

pub set_acker-IsReceiver :
    (r : Receiver) (a : Acker) → IsReceiver r → IsValid a → IsReceiver (set_acker r a)
set_acker-IsReceiver (plain b) a v w = w
set_acker-IsReceiver (sack s) a v w = record {
  acker = w;
  stack = v.stack;
  size = v.size;
  limit = v.limit;
}

pub acker-set_acker : (r : Receiver) (a : Acker) → acker (set_acker r a) ≡ a
acker-set_acker (plain b) a = refl
acker-set_acker (sack s) a = refl

-- The acknowledgement's SACK blocks leave its number and the window alone.
append_receiver_lem :
    (r : Receiver) (old : ℤ) (p : Packet)
    → let (r', p') = append_receiver r old p in
      (p'.tcp.seqno ≡ p.tcp.seqno) × (p'.flags ≡ p.flags) × (acker r' ≡ acker r)
unfolding append_receiver
append_receiver_lem (plain a) old p = (refl, refl, refl)
append_receiver_lem (sack s) old p = (refl, refl, refl)

append_receiver-IsReceiver :
    (r : Receiver) (old : ℤ) (p : Packet)
    → IsReceiver r
    → length p.tcp.sack_area ≡ nsa + 1
    → IsReceiver (append_receiver r old p).0
unfolding append_receiver
append_receiver-IsReceiver (plain a) old p v room = v
append_receiver-IsReceiver (sack s) old p v room =
    (append_ack_lem s old p.tcp.sack_area p.cmn.size v room).0

build_ack_lem :
    (s : Sink) (env : Env) (p : Packet) (u : ℕ)
    → let n = build_ack s env p u in
      (n.tcp.seqno ≡ seqno (acker s.receiver)) × (n.tcp.sack_area ≡ env.blank.tcp.sack_area)
unfolding build_ack initpkt
build_ack_lem s env p u = (refl, refl)

-- What `ack` has done: the acknowledgement carries the number below the left edge, which is noted
-- as sent; the window stays valid and its left edge where it is, and ECN is as
-- `next_ecn_unacked` says.
pub record Acked (s : Sink) (p : Packet) (r : Receiver) (npkt : Packet) : Type 0 where
  pub valid : IsReceiver r
  pub seqno : npkt.tcp.seqno ≡ Acker.seqno (acker s.receiver)
  pub next : (acker r).next ≡ (acker s.receiver).next
  pub last_ack_sent : (acker r).last_ack_sent ≡ Acker.seqno (acker s.receiver)
  pub ecn_unacked :
      (acker r).ecn_unacked ≡ next_ecn_unacked s.save p.flags (acker s.receiver).ecn_unacked

Acked-stored :
    (s : Sink) (p : Packet) (r : Receiver) (npkt : Packet)
    → IsReceiver r
    → npkt.tcp.seqno ≡ Acker.seqno (acker s.receiver)
    → acker r ≡ record (acker s.receiver) {
      ecn_unacked = next_ecn_unacked s.save p.flags (acker s.receiver).ecn_unacked;
    }
    → Acked s p (set_acker r (record (acker r) { last_ack_sent = npkt.tcp.seqno })) npkt
Acked-stored s p r npkt v q e = record {
  valid = set_acker-IsReceiver r _ v (
      other_fields-IsValid (acker r) (acker r).ecn_unacked (acker r).ts_to_echo (acker r).is_dup
        npkt.tcp.seqno (acker-IsValid r v));
  seqno = q;
  next = ap (λ a. a.next) (acker-set_acker r _) ∙ ap (λ a. a.next) e;
  last_ack_sent = ap (λ a. a.last_ack_sent) (acker-set_acker r _) ∙ q;
  ecn_unacked = ap (λ a. a.ecn_unacked) (acker-set_acker r _) ∙ ap (λ a. a.ecn_unacked) e;
}

module _ (s : Sink) (env : Env) (p : Packet) (v : IsReceiver s.receiver)
    (room : length env.blank.tcp.sack_area ≡ nsa + 1) where
  unacked : ℕ
  unacked = next_ecn_unacked s.save p.flags (acker s.receiver).ecn_unacked

  marked : Receiver
  marked = set_acker s.receiver (record (acker s.receiver) { ecn_unacked = unacked })

  marked-IsReceiver : IsReceiver marked
  unfolding marked
  marked-IsReceiver = set_acker-IsReceiver s.receiver _ v (
      other_fields-IsValid (acker s.receiver) unacked (acker s.receiver).ts_to_echo
        (acker s.receiver).is_dup (acker s.receiver).last_ack_sent (acker-IsValid s.receiver v))

  pub ack-Acked : Acked s p (ack s env p).0.receiver (ack s env p).1
  unfolding ack update_ecn_unacked marked unacked
  ack-Acked =
      let built = build_ack s env p unacked in
      let (q, f, e) = append_receiver_lem marked p.tcp.seqno built in
      Acked-stored s p _ _
        (append_receiver-IsReceiver marked p.tcp.seqno built marked-IsReceiver
          (ap length (build_ack_lem s env p unacked).1 ∙ room))
        (q ∙ (build_ack_lem s env p unacked).0) (e ∙ acker-set_acker s.receiver _)

-- The bytes that go to the application, if there are any.
abbrev pub delivered : ℕ → List Output
delivered n = if n == 0 then [] else recv_bytes n ∷ []

-- What the common part of `recv` has done to the window, with `n` bytes for the application.
pub record TakenIn (s : Sink) (p : Packet) (n : ℕ) (r : Sink × List Output) : Type 0 where
  pub out : r.1 ≡ delivered n
  pub bytes : r.0.bytes ≡ s.bytes + n
  pub valid : IsReceiver r.0.receiver
  pub window :
      update
        (update_ts (acker s.receiver) p.tcp.seqno p.tcp.ts s.ts_echo_rfc1323)
        p.tcp.seqno
        p.cmn.size
      ≡ (acker r.0.receiver, n)
  pub save : r.0.save ≡ s.save
  pub lastreset : r.0.lastreset ≡ s.lastreset
  pub timer_pending : r.0.timer_pending ≡ s.timer_pending

-- Only the byte count changes with a delivery.
deliver_lem :
    (s : Sink) (n : ℕ)
    → ((deliver s n).1 ≡ delivered n)
      × ((deliver s n).0.bytes ≡ s.bytes + n)
      × ((deliver s n).0.receiver ≡ s.receiver)
      × ((deliver s n).0.save ≡ s.save)
      × ((deliver s n).0.lastreset ≡ s.lastreset)
      × ((deliver s n).0.timer_pending ≡ s.timer_pending)
unfolding deliver
deliver_lem s n = ground arith

pub take_in_lem :
    (s : Sink) (p : Packet) → IsReceiver s.receiver → (n : ℕ) × TakenIn s p n (take_in s p)
unfolding take_in
take_in_lem s p v =
    let old = update_ts (acker s.receiver) p.tcp.seqno p.tcp.ts s.ts_echo_rfc1323 in
    let (a, n) = update old p.tcp.seqno p.cmn.size in
    let (out, bytes, receiver, save, lastreset, timer) =
      deliver_lem (record s { receiver = set_acker s.receiver a }) n in
    (
      n,
      record {
        out = out;
        bytes = bytes;
        valid = subst IsReceiver (sym receiver) (
            set_acker-IsReceiver s.receiver a v (
              update-IsValid old p.tcp.seqno p.cmn.size (
                update_ts-IsValid (acker s.receiver) p.tcp.seqno p.tcp.ts s.ts_echo_rfc1323
                  (acker-IsValid s.receiver v))));
        window = ap (λ b. (b, n)) (sym (ap acker receiver ∙ acker-set_acker s.receiver a));
        save = save;
        lastreset = lastreset;
        timer_pending = timer;
      },
    )

ack-bytes : (s : Sink) (env : Env) (p : Packet) → (ack s env p).0.bytes ≡ s.bytes
unfolding ack
ack-bytes s env p = refl

seqno-next : (a b : Acker) → a.next ≡ b.next → seqno a ≡ seqno b
unfolding seqno
seqno-next a b e = simp (e)

-- What `recv` has done with packet `p`, with `n` bytes for the application and the
-- acknowledgement `npkt`.
pub record Received (s : Sink) (p : Packet) (n : ℕ) (npkt : Packet) (r : Sink × List Output)
    : Type 0 where
  pub out : r.1 ≡ delivered n ++ (send npkt ∷ [])
  pub bytes : r.0.bytes ≡ s.bytes + n
  pub valid : IsReceiver r.0.receiver
  pub seqno : npkt.tcp.seqno ≡ Acker.seqno (acker r.0.receiver)
  pub noted : (acker r.0.receiver).last_ack_sent ≡ npkt.tcp.seqno

-- Let the receiver be valid, the blank packet have NSA + 1 rows for SACK blocks, and the packet
-- not be from before the last reset. Then TcpSink::recv sends exactly one acknowledgement, after
-- the bytes that it hands to the application, if there are any; its number is the one below the
-- new left edge, which is noted as the last sent; the byte count grows by what was handed over,
-- and the receiver stays valid.
pub recv_lem :
    (s : Sink) (env : Env) (p : Packet)
    → IsReceiver s.receiver
    → length env.blank.tcp.sack_area ≡ nsa + 1
    → s.lastreset ≤ p.tcp.ts
    → (n : ℕ) × (npkt : Packet) × Received s p n npkt (recv s env p)
unfolding recv
recv_lem s env p v room fresh =
    let (n, t) = take_in_lem s p v in
    let a = ack-Acked (take_in s p).0 env p t.valid room in
    (
      n,
      (ack (take_in s p).0 env p).1,
      rw (le→not-ltb p.tcp.ts s.lastreset fresh) record {
        out = ap (λ o. o ++ (send (ack (take_in s p).0 env p).1 ∷ [])) t.out;
        bytes = ack-bytes (take_in s p).0 env p ∙ t.bytes;
        valid = a.valid;
        seqno = a.seqno ∙ seqno-next _ _ (sym a.next);
        noted = a.last_ack_sent ∙ sym a.seqno;
      },
    )

-- A packet from before the last reset changes nothing and is not answered.
pub recv_stale :
    (s : Sink) (env : Env) (p : Packet) → p.tcp.ts < s.lastreset → recv s env p ≡ (s, [])
unfolding recv
recv_stale s env p stale = rw (lt→ltb p.tcp.ts s.lastreset stale)
