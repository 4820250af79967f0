-- ===== src/Sacker/Recent.antt =====
-- The first SACK block: the run of packets around the one that has just come.
use saps_extended.Base.{
  ℕ, zero, suc, ◌+◌, ◌-◌, ◌≤◌, ◌<◌, ◌≡◌, ◌≢◌, refl, ◌==◌, arith, Bool-cases, inl, inr,
}
use native.Mathlib.Decide.{dec_lt}
use saps_extended.Base.Int.{pos}
use saps_extended.Acker.{Acker, slot}
use saps_extended.Acker.Refine.{IsValid}
use saps_extended.Sacker.{find_right, find_left, recent_block}

-- Every packet of [i, j) has come.
abbrev pub AllSeen : Acker → ℕ → ℕ → Type 0
AllSeen a i j = (k : ℕ) → i ≤ k → k < j → slot a k ≢ 0

find_right_lem :
    (n i : ℕ) (a : Acker)
    → i + n ≡ a.maxseen + 1
    → slot a (a.maxseen + 1) ≡ 0
    → (r : ℕ) × (find_right n a i ≡ r)
      × (i ≤ r)
      × (r ≤ a.maxseen + 1)
      × AllSeen a i r
      × (slot a r ≡ 0)
unfolding find_right
find_right_lem zero i a e z =
    (a.maxseen + 1, refl, omega arith, omega arith, λ k p q. absurd (omega arith), z)
find_right_lem (suc n) i a e z = elim (Bool-cases (slot a i == 0)) [
  | inl hole ↦ (i, rw hole, omega arith, omega arith, λ k p q. absurd (omega arith), ground arith)
  | inr taken ↦
      let (r, eq, low, high, all, end) = find_right_lem n (i + 1) a (omega arith) z in
      (r, rw taken eq, omega arith, high, λ k p q. ground (arith, all k), end)
]

-- With a hole at `h` the loop finds one at or above it.
find_left_lem :
    (n edge h : ℕ) (a : Acker)
    → h < edge
    → edge ≤ h + n
    → slot a h ≡ 0
    → (l : ℕ) × (find_left n a edge ≡ pos l)
      × (h < l)
      × (l ≤ edge)
      × AllSeen a l edge
      × (slot a (l - 1) ≡ 0)
unfolding find_left
find_left_lem zero edge h a p q z = absurd (omega arith)
find_left_lem (suc n) edge h a p q z = elim (Bool-cases (slot a (edge - 1) == 0)) [
  | inl hole ↦ (edge, rw hole, p, omega arith, λ k p q. absurd (omega arith), ground arith)
  | inr taken ↦
      let (l, eq, low, high, all, end) =
        find_left_lem n (edge - 1) h a (ground arith) (omega arith) z in
      (l, rw taken eq, low, omega arith, λ k p q. ground (arith, all k), end)
]

-- The block [l, r) is the longest run of received packets around `old`: both its neighbours have
-- not come.
pub record IsRun (a : Acker) (old l r : ℕ) : Type 0 where
  pub above : a.next < l
  pub left : l ≤ old
  pub right : old < r
  pub top : r ≤ a.maxseen + 1
  pub all : AllSeen a l r
  pub hole_left : slot a (l - 1) ≡ 0
  pub hole_right : slot a r ≡ 0

module _ (a : Acker) (old r l : ℕ) (seen : slot a old ≢ 0) where
  seen_before_hole : old ≤ r → slot a r ≡ 0 → old < r
  seen_before_hole p z = ground arith

  hole_below : AllSeen a old r → slot a (l - 1) ≡ 0 → l ≤ r → old < r → 0 < l → l ≤ old
  hole_below all z p q h = elim (dec_lt old l) [
    | yes k ↦ absurd (all (l - 1) (omega arith) (omega arith) z)
    | no k ↦ omega arith
  ]

  block_eq :
      find_right (a.maxseen + 1 - old) a old ≡ r
      → find_left (r - a.next) a r ≡ pos l
      → recent_block a old ≡ record { left = pos l; right = pos r }
  unfolding recent_block
  block_eq er el = rw (er, el)

-- For a packet that is held in a valid window, the first block is the longest run of received
-- packets around it.
pub recent_block_lem :
    (a : Acker) (old : ℕ)
    → IsValid a
    → a.next ≤ old
    → old ≤ a.maxseen
    → slot a old ≢ 0
    → (l : ℕ) × (r : ℕ) × (recent_block a old ≡ record { left = pos l; right = pos r })
      × IsRun a old l r
recent_block_lem a old v low high seen =
    let (r, er, r_low, r_high, r_all, r_end) =
      find_right_lem (a.maxseen + 1 - old) old a (omega arith) v.shape.open_right in
    let right : old < r = seen_before_hole a old r 0 seen r_low r_end in
    let (l, el, l_low, l_high, l_all, l_end) =
      find_left_lem (r - a.next) r a.next a (omega arith) (omega arith) v.open_left in
    (
      l,
      r,
      block_eq a old r l seen er el,
      record {
        above = l_low;
        left = hole_below a old r l seen r_all l_end l_high right (omega arith);
        right = right;
        top = r_high;
        all = l_all;
        hole_left = l_end;
        hole_right = r_end;
      },
    )
