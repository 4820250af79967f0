-- ===== src/Acker/Frame.antt =====
-- What `update` leaves alone, and what a window does not depend on.
use saps_extended.Base.{ℕ, zero, suc, ◌+◌, ◌*◌, ◌≡◌, Bool, true, false, arith}
use saps_extended.Base.Int.{ℤ, pos, negsuc}
use saps_extended.Acker.{
  Acker, slot, resize_buffers, grow, extend, accept, place, update_at, update, update_ts,
}
use saps_extended.Acker.Refine.{IsValid}
use saps_extended.Acker.Update.{update-Updated}

-- The fields that belong to the acknowledgements.
pub record Keeps (a b : Acker) : Type 0 where
  pub ecn_unacked : b.ecn_unacked ≡ a.ecn_unacked
  pub ts_to_echo : b.ts_to_echo ≡ a.ts_to_echo
  pub last_ack_sent : b.last_ack_sent ≡ a.last_ack_sent

grow-Keeps : (fuel : ℕ) (a : Acker) (seq : ℕ) → Keeps a (grow fuel a seq)
unfolding grow resize_buffers
grow-Keeps zero a seq = ground arith
grow-Keeps (suc fuel) a seq =
    ground (arith, grow-Keeps fuel (resize_buffers a ((a.wndmask + 1) * 2)) seq)

place-Keeps : (a : Acker) (seq bytes : ℕ) (fresh : Bool) → Keeps a (place a seq bytes fresh).0
unfolding place accept
place-Keeps a seq bytes fresh = ground arith

update_at-Keeps : (a : Acker) (seq bytes : ℕ) → Keeps a (update_at a seq bytes).0
unfolding update_at extend
update_at-Keeps a seq bytes =
    let g = grow (seq + 2) (record a { is_dup = false }) seq in
    ground (
      arith,
      grow-Keeps (seq + 2) (record a { is_dup = false }) seq,
      place-Keeps g seq bytes false,
      place-Keeps (extend g seq bytes) seq bytes true,
    )

-- `update` writes the window only.
pub update-Keeps : (a : Acker) (seq : ℤ) (bytes : ℕ) → Keeps a (update a seq bytes).0
unfolding update
update-Keeps a (pos seq) bytes = update_at-Keeps a seq bytes
update-Keeps a (negsuc n) bytes = ground arith

-- The other fields do not make a window invalid.
pub other_fields-IsValid :
    (a : Acker) (u t : ℕ) (d : Bool) (l : ℤ)
    → IsValid a
    → IsValid (record a { ecn_unacked = u; ts_to_echo = t; is_dup = d; last_ack_sent = l })
unfolding slot
other_fields-IsValid a u t d l v = record {
  shape = record {
    ring = v.shape.ring;
    wide = v.shape.wide;
    ordered = v.shape.ordered;
    fits = v.shape.fits;
    open_right = v.shape.open_right;
  };
  open_left = v.open_left;
}

pub update-IsValid : (a : Acker) (seq : ℤ) (bytes : ℕ) → IsValid a → IsValid (update a seq bytes).0
unfolding update
update-IsValid a (pos seq) bytes v = (update-Updated a seq bytes v).valid
update-IsValid a (negsuc n) bytes v =
    other_fields-IsValid a a.ecn_unacked a.ts_to_echo true a.last_ack_sent v

pub update_ts-IsValid :
    (a : Acker) (seq : ℤ) (ts : ℕ) (rfc : Bool) → IsValid a → IsValid (update_ts a seq ts rfc)
unfolding update_ts
update_ts-IsValid a seq ts rfc v =
    ground (arith, other_fields-IsValid a a.ecn_unacked ts a.is_dup a.last_ack_sent v)
