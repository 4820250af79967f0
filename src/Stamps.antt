-- ===== src/Stamps.antt =====
-- The times at which segments were sent, kept by `TcpAgent::output` of tcp/tcp.cc if `bugfix_ts_`
-- is set: an array `tss` that is indexed modulo its size, and doubles when it is getting full.
pub mod Table
mod Tests
use saps_extended.Base.{
  ℕ, zero, suc, ◌+◌, ◌*◌, ◌-◌, ◌%◌, List, [], ◌∷◌, Bool, true, false, ◌&&◌, Option, none, some, ltb,
  ◌==◌, if◌then◌else◌, get_or, set, replicate,
}
use saps_extended.Base.Int.{ℤ, pos, negsuc}

-- `tss_size_`, and `tss` if it is not NULL.
pub record Stamps : Type 0 where
  pub size : ℕ
  pub tss : Option (List ℕ)

-- for (int i=0; i<tss_size_; i++) ntss[(highest_ack_ + i) % (tss_size_ * 2)] = …, from `i` on, with
-- the rounds left
unfoldable pub copy_stamps : ℕ → ℕ → ℕ → ℕ → List ℕ → List ℕ → List ℕ
copy_stamps zero i size highest tss ntss = ntss
copy_stamps (suc rounds) i size highest tss ntss =
    copy_stamps rounds (i + 1) size highest tss
      (set ntss ((highest + i) % (size * 2)) (get_or tss ((highest + i) % size) 0))

-- The new array; `none` if `highest_ack_` is negative, since the first write is then before it.
unfoldable pub grow_stamps : ℤ → ℕ → List ℕ → Option (List ℕ)
grow_stamps (negsuc n) size tss = none
grow_stamps (pos highest) size tss =
    some (copy_stamps size 0 size highest tss (replicate (size * 2) 0))

-- (seqno - highest_ack_) > tss_size_ * 0.9, without the rounding of `double`
unfoldable pub nearly_full : ℤ → ℕ → ℕ → Bool
nearly_full (pos highest) seqno size = ltb (size * 9) ((seqno - highest) * 10)
nearly_full (negsuc n) seqno size = ltb (size * 9) ((seqno + suc n) * 10)

-- `calloc` for the first array
abbrev pub first_tss : Stamps → List ℕ
first_tss s = elim (s.tss) [ none ↦ replicate s.size 0 | some tss ↦ tss ]

-- if (tss!=NULL) tss[seqno % tss_size_] = tcph->ts();
unfoldable pub stamp : ℕ → ℕ → Stamps → Stamps
stamp seqno now s = record s {
  tss = elim (s.tss) [ none ↦ none | some tss ↦ some (set tss (seqno % s.size) now) ];
}

abbrev pub grown : ℕ → Option (List ℕ) → Option Stamps
grown size none = none
grown size (some tss) = some (record { size = size * 2; tss = some tss })

abbrev pub stamped : ℕ → ℕ → Option Stamps → Option Stamps
stamped seqno now none = none
stamped seqno now (some s) = some (stamp seqno now s)

-- The time `now` of the segment `seqno`. `bugfix` is `bugfix_ts_`.
unfoldable pub store : Bool → ℤ → ℕ → ℕ → Stamps → Option Stamps
unfolding stamp
store bugfix highest seqno now s =
    if bugfix
    then if nearly_full highest seqno s.size
      then stamped seqno now (grown s.size (grow_stamps highest s.size (first_tss s)))
      else some (stamp seqno now (record s { tss = some (first_tss s) }))
    else some (stamp seqno now s)
