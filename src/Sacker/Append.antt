-- ===== src/Sacker/Append.antt =====
-- `append_ack` for every packet number.
use saps_extended.Base.{ℕ, ◌+◌, ◌*◌, ◌≤◌, ◌≡◌, refl, sym, ◌∙◌, ap, List, length, arith}
use saps_extended.Base.Int.{ℤ, pos, negsuc}
use saps_extended.SackStack.{Block, SackStack}
use saps_extended.Sacker.{Sacker, Rows, nsa, append_at, append_ack}
use saps_extended.Sacker.Invariant.{IsSacker, Fits}
use saps_extended.Sacker.Blocks.{append_at-Fits}

Fits-IsSacker :
    (s : Sacker) (r : SackStack × Rows) → IsSacker s → Fits s r → IsSacker (record s { sf = r.0 })
Fits-IsSacker s r v f = record {
  acker = v.acker;
  stack = f.stack;
  size = v.size ∙ ap pos (sym f.size);
  limit = omega (arith, f.size, v.limit);
}

-- For every packet number and an acknowledgement area of NSA + 1 rows a configured sacker stays
-- one, sends at most NSA blocks, keeps the length of sack_area_, and adds eight bytes to the
-- packet for each block.
pub append_ack_lem :
    (s : Sacker) (old : ℤ) (area : List Block) (size : ℕ)
    → IsSacker s
    → length area ≡ nsa + 1
    → let r = append_ack s old area size in
      IsSacker (record s { sf = r.sf })
      × (r.sa_length ≤ nsa)
      × (length r.area ≡ nsa + 1)
      × (r.size ≡ size + r.sa_length * 8)
unfolding append_ack
append_ack_lem s (pos old) area size v room =
    let f = append_at-Fits s old area v room in
    (Fits-IsSacker s (append_at s old area) v f, omega (arith, f.rows, v.limit), f.room, refl)
append_ack_lem s (negsuc n) area size v room = (
  record { acker = v.acker; stack = v.stack; size = v.size; limit = v.limit },
  omega arith,
  room,
  omega arith,
)
