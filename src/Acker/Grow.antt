-- ===== src/Acker/Grow.antt =====
-- The shape of the receive window, and the loop of `update` that makes room for a packet.
use native.Mathlib.Nat.{two-pow-succ}
use saps_extended.Base.{
  ℕ, zero, suc, ◌+◌, ◌-◌, ◌*◌, ◌^◌, ◌≤◌, ◌<◌, ◌≡◌, refl, ◌∙◌, leb, arith, replicate,
  length-replicate, Bool-cases, inl, inr,
}
use saps_extended.Base.Circular.{IsRing}
use saps_extended.Acker.{Acker, resize_buffers, grow, slot}
use saps_extended.Acker.Window.{copy_slots-IsRing, read-copy_slots}

-- The array is a ring; the packets from the left edge to one past the highest fit into it, and
-- the entry past the highest is empty.
pub record Shape (a : Acker) : Type 0 where
  pub ring : IsRing a.wndmask a.seen
  pub wide : 63 ≤ a.wndmask
  pub ordered : a.next ≤ a.maxseen + 1
  pub fits : a.maxseen + 1 < a.next + a.wndmask
  pub open_right : slot a (a.maxseen + 1) ≡ 0

-- `b` holds what `a` holds, in another array.
pub record Same (a b : Acker) : Type 0 where
  pub next : b.next ≡ a.next
  pub maxseen : b.maxseen ≡ a.maxseen
  pub is_dup : b.is_dup ≡ a.is_dup
  pub ecn_unacked : b.ecn_unacked ≡ a.ecn_unacked
  pub ts_to_echo : b.ts_to_echo ≡ a.ts_to_echo
  pub last_ack_sent : b.last_ack_sent ≡ a.last_ack_sent
  pub slots : (j : ℕ) → a.next ≤ j → j ≤ a.maxseen + 1 → slot b j ≡ slot a j

Same-refl : (a : Acker) → Same a a
Same-refl a = record {
  next = refl;
  maxseen = refl;
  is_dup = refl;
  ecn_unacked = refl;
  ts_to_echo = refl;
  last_ack_sent = refl;
  slots = λ j p q. refl;
}

Same-trans : {a b c : Acker} → Same a b → Same b c → Same a c
Same-trans {a} {b} {c} s t = record {
  next = t.next ∙ s.next;
  maxseen = t.maxseen ∙ s.maxseen;
  is_dup = t.is_dup ∙ s.is_dup;
  ecn_unacked = t.ecn_unacked ∙ s.ecn_unacked;
  ts_to_echo = t.ts_to_echo ∙ s.ts_to_echo;
  last_ack_sent = t.last_ack_sent ∙ s.last_ack_sent;
  slots = λ j p q. t.slots j (omega (arith, s.next)) (omega (arith, s.maxseen)) ∙ s.slots j p q;
}

blank :
    (a : Acker) (k : ℕ)
    → a.wndmask + 1 ≡ 2 ^ k
    → IsRing ((a.wndmask + 1) * 2 - 1) (replicate ((a.wndmask + 1) * 2) 0)
blank a k e = record {
  bits = suc k;
  ones = omega (arith, two-pow-succ k);
  sized = length-replicate ((a.wndmask + 1) * 2) 0 ∙ omega arith;
}

slot-resize :
    (a : Acker) (j : ℕ)
    → Shape a
    → a.next ≤ j
    → j ≤ a.maxseen + 1
    → slot (resize_buffers a ((a.wndmask + 1) * 2)) j ≡ slot a j
unfolding slot resize_buffers
slot-resize a j s p q = ground (
  arith,
  read-copy_slots (a.maxseen + 2 - a.next) a.next a.seen a.wndmask ((a.wndmask + 1) * 2 - 1) a.next
      j (blank a s.ring.bits s.ring.ones) (omega arith) (omega (arith, s.fits, s.ordered)) p
      (omega (arith, s.fits)),
)

-- `resize_buffers` keeps every entry of the window.
pub resize_buffers-Same : (a : Acker) → Shape a → Same a (resize_buffers a ((a.wndmask + 1) * 2))
unfolding resize_buffers
resize_buffers-Same a s = record {
  next = refl;
  maxseen = refl;
  is_dup = refl;
  ecn_unacked = refl;
  ts_to_echo = refl;
  last_ack_sent = refl;
  slots = λ j p q. unfold resize_buffers in slot-resize a j s p q;
}

pub resize_buffers-Shape : (a : Acker) → Shape a → Shape (resize_buffers a ((a.wndmask + 1) * 2))
unfolding resize_buffers
resize_buffers-Shape a s = record {
  ring =
      copy_slots-IsRing (a.maxseen + 2 - a.next) a.next a.seen a.wndmask _
        (blank a s.ring.bits s.ring.ones);
  wide = omega (arith, s.wide);
  ordered = s.ordered;
  fits = omega (arith, s.fits);
  open_right = slot-resize a (a.maxseen + 1) s s.ordered (omega arith) ∙ s.open_right;
}

resized_room :
    (a : Acker)
    → let b = resize_buffers a ((a.wndmask + 1) * 2) in
      (b.next ≡ a.next) × (b.wndmask ≡ a.wndmask + a.wndmask + 1)
unfolding resize_buffers
resized_room a = (refl, omega arith)

-- For a window in shape and fuel enough to bring its bound above the packet, the loop that
-- doubles the array ends by its test: the packet fits, the window is in shape, and its content
-- has not changed.
pub grow_lem :
    (fuel : ℕ) (a : Acker) (seq : ℕ)
    → Shape a
    → seq + 1 < a.next + a.wndmask + fuel
    → Shape (grow fuel a seq)
      × Same a (grow fuel a seq)
      × (seq + 1 < (grow fuel a seq).next + (grow fuel a seq).wndmask)
unfolding grow
grow_lem zero a seq s h = (s, Same-refl a, omega arith)
grow_lem (suc fuel) a seq s h = elim (Bool-cases (leb (a.next + a.wndmask) (seq + 1))) [
  | inl more ↦
      let (shape, same, room) =
        grow_lem fuel (resize_buffers a ((a.wndmask + 1) * 2)) seq (resize_buffers-Shape a s)
          (omega (arith, resized_room a, s.wide)) in
      rw more (shape, Same-trans (resize_buffers-Same a s) same, room)
  | inr done ↦ rw done (s, Same-refl a, ground arith)
]
