-- ===== src/Acker/Window.antt =====
-- What `resize_buffers` and the clearing loop of `update` do to the circular array.
use saps_extended.Base.{
  ℕ, zero, suc, ◌+◌, ◌≤◌, ◌≡◌, List, Bool, ◌&&◌, ltb, leb, arith, if◌then◌else◌,
}
use saps_extended.Base.Circular.{read, IsRing, write-IsRing, read-write}
use saps_extended.Acker.{copy_slots, clear_slots}

-- i <= j < i + n
abbrev pub within : ℕ → ℕ → ℕ → Bool
within i n j = leb i j && ltb j (i + n)

pub copy_slots-IsRing :
    (n i : ℕ) (seen : List ℕ) (mask new_mask : ℕ) {new_seen : List ℕ}
    → IsRing new_mask new_seen
    → IsRing new_mask (copy_slots n i seen mask new_mask new_seen)
unfolding copy_slots
copy_slots-IsRing zero i seen mask new_mask r = r
copy_slots-IsRing (suc n) i seen mask new_mask r =
    copy_slots-IsRing n (i + 1) seen mask new_mask (write-IsRing i (read seen mask i) r)

pub read-copy_slots :
    (n i : ℕ) (seen : List ℕ) (mask new_mask : ℕ) {new_seen : List ℕ} (lo j : ℕ)
    → IsRing new_mask new_seen
    → lo ≤ i
    → i + n ≤ lo + new_mask + 1
    → lo ≤ j
    → j ≤ lo + new_mask
    → read (copy_slots n i seen mask new_mask new_seen) new_mask j
      ≡ (if within i n j then read seen mask j else read new_seen new_mask j)
unfolding copy_slots
read-copy_slots zero i seen mask new_mask lo j r a b c d = ground arith
read-copy_slots (suc n) i seen mask new_mask {new_seen} lo j r a b c d = ground (
  arith,
  read-copy_slots n (i + 1) seen mask new_mask lo j (write-IsRing i (read seen mask i) r)
      (omega arith) (omega arith) c d,
  read-write lo i j (read seen mask i) r a (omega arith) c d,
)

pub clear_slots-IsRing :
    (n i : ℕ) {mask : ℕ} {seen : List ℕ}
    → IsRing mask seen
    → IsRing mask (clear_slots n i mask seen)
unfolding clear_slots
clear_slots-IsRing zero i r = r
clear_slots-IsRing (suc n) i r = clear_slots-IsRing n (i + 1) (write-IsRing i 0 r)

pub read-clear_slots :
    (n i : ℕ) {mask : ℕ} {seen : List ℕ} (lo j : ℕ)
    → IsRing mask seen
    → lo ≤ i
    → i + n ≤ lo + mask + 1
    → lo ≤ j
    → j ≤ lo + mask
    → read (clear_slots n i mask seen) mask j ≡ (if within i n j then 0 else read seen mask j)
unfolding clear_slots
read-clear_slots zero i lo j r a b c d = ground arith
read-clear_slots (suc n) i lo j r a b c d = ground (
  arith,
  read-clear_slots n (i + 1) lo j (write-IsRing i 0 r) (omega arith) (omega arith) c d,
  read-write lo i j 0 r a (omega arith) c d,
)
