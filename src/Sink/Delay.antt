-- ===== src/Sink/Delay.antt =====
-- `DelAckSink` over sequences of packets, timeouts and resets: how many acknowledgements may be
-- held back.
use saps_extended.Base.{
  ℕ, suc, ◌+◌, ◌*◌, ◌≤◌, ◌<◌, ◌≡◌, refl, sym, ◌∙◌, ap, List, [], ◌∷◌, ◌++◌, Bool, true, false,
  Option, none, some, ltb, if◌then◌else◌, arith, Bool-cases, inl, inr, le→not-ltb, lt→ltb,
}
use native.Mathlib.Decide.{dec_lt}
use saps_extended.Packet.{Packet}
use saps_extended.Sink.{
  Sink, Env, Output, recv_bytes, send, ack, deliver, take_in, is_delayed, reset, delack_recv,
  timeout_with, timeout, delack_reset,
}

-- How many acknowledgements are among the outputs.
abbrev pub acks : List Output → ℕ
acks [] = 0
acks (recv_bytes n ∷ out) = acks out
acks (send p ∷ out) = suc (acks out)

-- A packet is stashed.
abbrev pub is_some : Option Packet → Bool
is_some none = false
is_some (some p) = true

-- The timer runs if and only if a packet is stashed.
abbrev pub IsPaired : Sink → Type 0
IsPaired s = s.timer_pending ≡ is_some s.save

-- 1 if the timer runs
abbrev pub pending : Sink → ℕ
pending s = if s.timer_pending then 1 else 0

deliver_quiet :
    (s : Sink) (n : ℕ)
    → (acks (deliver s n).1 ≡ 0)
      × (acks ((deliver s n).1 ++ []) ≡ 0)
      × ((deliver s n).0.save ≡ s.save)
      × ((deliver s n).0.timer_pending ≡ s.timer_pending)
unfolding deliver
deliver_quiet s n = ground arith

acks-append : (xs : List Output) (p : Packet) → acks (xs ++ (send p ∷ [])) ≡ suc (acks xs)
acks-append [] p = refl
acks-append (recv_bytes n ∷ xs) p = acks-append xs p
acks-append (send q ∷ xs) p = ap suc (acks-append xs p)

-- Taking a packet in acknowledges nothing and leaves the stash and the timer alone.
take_in_quiet :
    (s : Sink) (p : Packet)
    → (acks (take_in s p).1 ≡ 0)
      × ((take_in s p).0.save ≡ s.save)
      × ((take_in s p).0.timer_pending ≡ s.timer_pending)
unfolding take_in
take_in_quiet s p = let q = deliver_quiet _ _ in (q.0, q.2, q.3)

ack_quiet : (s : Sink) (env : Env) (p : Packet) → ((ack s env p).0.timer_pending ≡ s.timer_pending)
unfolding ack
ack_quiet s env p = refl

delayed_idle : (s : Sink) (p : Packet) → is_delayed s p ≡ true → s.timer_pending ≡ false
unfolding is_delayed
delayed_idle s p h = ground arith

-- A packet from after the last reset is acknowledged at once, or the timer runs for it; it is
-- acknowledged at once if the timer was running.
record Answered (s : Sink) (r : Sink × List Output) : Type 0 where
  paired : IsPaired r.0
  one : acks r.1 + pending r.0 ≡ 1
  second : s.timer_pending ≡ true → acks r.1 ≡ 1

delack_recv-Answered :
    (s : Sink) (env : Env) (p : Packet) → s.lastreset ≤ p.tcp.ts → Answered s (delack_recv s env p)
unfolding delack_recv ack
delack_recv-Answered s env p fresh =
    let (quiet, save, timer) = take_in_quiet s p in
    elim (Bool-cases (is_delayed (take_in s p).0 p)) [
      | inl wait ↦
          rw (le→not-ltb p.tcp.ts s.lastreset fresh, wait)
            record {
              paired = refl;
              one = omega (arith, quiet);
              second = λ running. absurd (ground (arith, delayed_idle (take_in s p).0 p wait));
            }
      | inr now ↦
          let npkt = (ack (record (take_in s p).0 { timer_pending = false }) env p).1 in
          rw (le→not-ltb p.tcp.ts s.lastreset fresh, now)
            record {
              paired = refl;
              one = omega (arith, acks-append (take_in s p).1 npkt, quiet);
              second = λ running. acks-append (take_in s p).1 npkt ∙ ap suc quiet;
            }
    ]

-- When the timer fires, the stashed packet is acknowledged.
timeout_lem :
    (s : Sink) (env : Env)
    → IsPaired s
    → let r = timeout s env in IsPaired r.0 × (r.0.timer_pending ≡ false) × (acks r.1 ≡ pending s)
unfolding timeout timeout_with ack
timeout_lem s env h = go s.save refl h
  where
    go :
        (o : Option Packet)
        → s.save ≡ o
        → s.timer_pending ≡ is_some o
        → let r = timeout_with o s env in
          IsPaired r.0 × (r.0.timer_pending ≡ false) × (acks r.1 ≡ pending s)
    go none e t = (sym (ap is_some e), refl, ground arith)
    go (some p) e t = (refl, refl, ground arith)

delack_reset_lem :
    (s : Sink) (now : ℕ)
    → IsPaired (delack_reset s now) × ((delack_reset s now).timer_pending ≡ false)
unfolding delack_reset reset
delack_reset_lem s now = (refl, refl)

-- What may happen to a sink: a packet comes, the timer fires, the agent is reset.
pub data Event : Type 0 where
  arrives : Env → Packet → Event
  fires : Env → Event
  restarts : ℕ → Event

abbrev pub step : Event → Sink → Sink × List Output
step (arrives env p) s = delack_recv s env p
step (fires env) s = timeout s env
step (restarts now) s = (delack_reset s now, [])

-- The packets that are not from before the last reset, the acknowledgements, and the resets.
pub record Tally : Type 0 where
  pub fresh : ℕ
  pub acked : ℕ
  pub restarted : ℕ

abbrev pub counted : Event → Sink → List Output → Tally → Tally
counted (arrives env p) s out t = record t {
  fresh = if ltb p.tcp.ts s.lastreset then t.fresh else suc t.fresh;
  acked = t.acked + acks out;
}
counted (fires env) s out t = record t { acked = t.acked + acks out }
counted (restarts now) s out t = record t {
  acked = t.acked + acks out;
  restarted = suc t.restarted;
}

pub run : List Event → Sink → Tally → Sink × Tally
run [] s t = (s, t)
run (e ∷ events) s t = let (s', out) = step e s in run events s' (counted e s out t)

-- The acknowledgements and a running timer against the packets.
pub record Balanced (s : Sink) (t : Tally) : Type 0 where
  pub paired : IsPaired s
  pub at_most : t.acked + pending s ≤ t.fresh
  pub at_least : t.fresh ≤ 2 * t.acked + pending s + t.restarted

stale_lem :
    (s : Sink) (env : Env) (p : Packet) → p.tcp.ts < s.lastreset → delack_recv s env p ≡ (s, [])
unfolding delack_recv
stale_lem s env p h = rw (lt→ltb p.tcp.ts s.lastreset h)

step-Balanced :
    (e : Event) (s : Sink) (t : Tally)
    → Balanced s t
    → let (s', out) = step e s in Balanced s' (counted e s out t)
step-Balanced (arrives env p) s t b = elim (dec_lt p.tcp.ts s.lastreset) [
  | yes old ↦
      rw (stale_lem s env p old, lt→ltb p.tcp.ts s.lastreset old)
        record {
          paired = b.paired;
          at_most = omega (arith, b.at_most);
          at_least = omega (arith, b.at_least);
        }
  | no new ↦
      let a = delack_recv-Answered s env p (omega arith) in
      rw (le→not-ltb p.tcp.ts s.lastreset (omega arith)) record {
        paired = a.paired;
        at_most = ground (arith, a.one, a.second, b.at_most);
        at_least = ground (arith, a.one, a.second, b.at_least);
      }
]
step-Balanced (fires env) s t b =
    let (paired, idle, one) = timeout_lem s env b.paired in
    record {
      paired = paired;
      at_most = ground (arith, idle, one, b.at_most);
      at_least = ground (arith, idle, one, b.at_least);
    }
step-Balanced (restarts now) s t b =
    let (paired, idle) = delack_reset_lem s now in
    record {
      paired = paired;
      at_most = ground (arith, idle, b.at_most);
      at_least = ground (arith, idle, b.at_least);
    }

-- Whatever packets, timeouts and resets come, a delayed-ACK sink that is in balance stays so: the
-- timer runs exactly while a packet is stashed; the acknowledgements, with one for a running
-- timer, are no more than the packets that are not from before the last reset; and these are at
-- most twice the acknowledgements, with one more for a running timer and one for each reset.
pub run-Balanced :
    (events : List Event) (s : Sink) (t : Tally)
    → Balanced s t
    → let (s', t') = run events s t in Balanced s' t'
unfolding run
run-Balanced [] s t b = b
run-Balanced (e ∷ events) s t b = run-Balanced events _ _ (step-Balanced e s t b)
