-- ===== src/Stamps/Table.antt =====
-- The table keeps the times of the segments from `highest_ack_` on, also when it doubles.
use native.Mathlib.Nat.{mod-lt}
use saps_extended.Base.{
  ℕ, zero, suc, ◌+◌, ◌*◌, ◌-◌, ◌%◌, ◌<◌, ◌≤◌, ◌≡◌, refl, ap, ◌∙◌, List, true, false, some, arith,
  ltb, ◌==◌, if◌then◌else◌, Bool-cases, inl, inr, length, get_or, set, replicate, length-set,
  length-replicate, get_or-set_self, get_or-set_ne,
}
use saps_extended.Base.Int.{pos}
use saps_extended.Base.Circular.{mod-inj}
use saps_extended.Stamps.{Stamps, copy_stamps, grow_stamps, nearly_full, first_tss, stamp, store}

-- Writes and reads within a window no longer than the array.
set-window :
    (tss : List ℕ) (size lo i j v : ℕ)
    → length tss ≡ size
    → lo ≤ i
    → i < lo + size
    → lo ≤ j
    → j < lo + size
    → get_or (set tss (i % size) v) (j % size) 0 ≡ (if i == j then v else get_or tss (j % size) 0)
set-window tss size lo i j v len a b c d = ground (
  arith,
  len,
  mod-inj size lo i j a b c d,
  mod-lt i {m = size} (omega arith),
  get_or-set_self tss (i % size) v 0,
  get_or-set_ne tss (i % size) (j % size) v 0,
)

length-copy_stamps :
    (rounds i size highest : ℕ) (tss ntss : List ℕ)
    → length (copy_stamps rounds i size highest tss ntss) ≡ length ntss
unfolding copy_stamps
length-copy_stamps zero i size highest tss ntss = refl
length-copy_stamps (suc rounds) i size highest tss ntss =
    length-copy_stamps rounds (i + 1) size highest tss _ ∙ length-set ntss _ _

-- The rounds from `i` on copy the entries from `i` on, and keep the others.
copy_stamps-at :
    (rounds i size highest j : ℕ) (tss ntss : List ℕ)
    → length ntss ≡ size * 2
    → i + rounds ≡ size
    → j < size
    → get_or (copy_stamps rounds i size highest tss ntss) ((highest + j) % (size * 2)) 0 ≡ (
        if ltb j i
        then get_or ntss ((highest + j) % (size * 2)) 0
        else get_or tss ((highest + j) % size) 0)
unfolding copy_stamps
copy_stamps-at zero i size highest j tss ntss len whole h = ground arith
copy_stamps-at (suc rounds) i size highest j tss ntss len whole h =
    let v = get_or tss ((highest + i) % size) 0 in
    let rest =
      copy_stamps-at rounds (i + 1) size highest j tss (set ntss ((highest + i) % (size * 2)) v)
        (length-set ntss _ _ ∙ len) (omega arith) h in
    let here =
      set-window ntss (size * 2) highest (highest + i) (highest + j) v len (omega arith)
        (omega arith) (omega arith) (omega arith) in
    ground (arith, rest, here, ap (λ k. get_or tss ((highest + k) % size) 0) {x = i} {y = j})

-- The time that is kept for a segment.
pub time_of : Stamps → ℕ → ℕ
time_of s seqno = get_or (first_tss s) (seqno % s.size) 0

-- The array has its size, which is not 0.
pub record IsTable (s : Stamps) : Type 0 where
  pub sized : length (first_tss s) ≡ s.size
  pub positive : 0 < s.size

stamp-time_of :
    (s : Stamps) (tss : List ℕ) (highest seqno now k : ℕ)
    → s.tss ≡ some tss
    → length tss ≡ s.size
    → highest ≤ seqno
    → seqno < highest + s.size
    → highest ≤ k
    → k < highest + s.size
    → time_of (stamp seqno now s) k ≡ (if seqno == k then now else get_or tss (k % s.size) 0)
unfolding time_of stamp
stamp-time_of s tss highest seqno now k e len a b c d =
    simp (e) (set-window tss s.size highest seqno k now len a b c d)

stamp-IsTable :
    (s : Stamps) (tss : List ℕ) (seqno now : ℕ)
    → s.tss ≡ some tss
    → length tss ≡ s.size
    → 0 < s.size
    → IsTable (stamp seqno now s)
unfolding stamp
stamp-IsTable s tss seqno now e len h = record {
  sized = simp (e) (length-set tss (seqno % s.size) now ∙ len);
  positive = h;
}

not_full-lt :
    (highest seqno size : ℕ)
    → 0 < size
    → nearly_full (pos highest) seqno size ≡ false
    → seqno < highest + size
unfolding nearly_full
not_full-lt highest seqno size h e = ground arith

grown_at :
    (highest size k : ℕ) (tss : List ℕ)
    → highest ≤ k
    → k < highest + size
    → get_or (copy_stamps size 0 size highest tss (replicate (size * 2) 0)) (k % (size * 2)) 0
      ≡ get_or tss (k % size) 0
grown_at highest size k tss a b =
    let j = k - highest in
    let at : highest + j ≡ k = omega arith in
    let copied =
      copy_stamps-at size 0 size highest j tss (replicate (size * 2) 0)
        (length-replicate (size * 2) 0) (omega arith) (omega arith) in
    ground (
      arith,
      copied,
      ap
          (λ x.
            get_or (copy_stamps size 0 size highest tss (replicate (size * 2) 0)) (x % (size * 2))
              0)
          at,
      ap (λ x. get_or tss (x % size) 0) at,
    )

-- With bugfix_ts_, from a table in shape, for a segment that is not below highest_ack_ and less
-- than twice the size above it: the table stays in shape, also when it doubles, and keeps the new
-- time for the segment and the old ones for all others of the window that the old table covers.
pub store-time_of :
    (s : Stamps) (highest seqno now : ℕ)
    → IsTable s
    → highest ≤ seqno
    → seqno < highest + s.size * 2
    → (s' : Stamps) × (store true (pos highest) seqno now s ≡ some s')
      × IsTable s'
      × ((k : ℕ)
          → highest ≤ k
          → k < highest + s.size
          → time_of s' k ≡ (if seqno == k then now else time_of s k))
unfolding store grow_stamps time_of
store-time_of s highest seqno now t a b =
    elim (Bool-cases (nearly_full (pos highest) seqno s.size)) [
      | inl full ↦
          let tss = copy_stamps s.size 0 s.size highest (first_tss s) (replicate (s.size * 2) 0) in
          let s1 : Stamps = record { size = s.size * 2; tss = some tss } in
          let len : length tss ≡ s.size * 2 =
            length-copy_stamps s.size 0 s.size highest (first_tss s) (replicate (s.size * 2) 0)
            ∙ length-replicate (s.size * 2) 0 in
          (
            stamp seqno now s1,
            rw full,
            stamp-IsTable s1 tss seqno now refl len (omega (arith, t.positive)),
            λ k c d.
                stamp-time_of s1 tss highest seqno now k refl len a b c (omega arith)
                ∙ ap (λ x. if seqno == k then now else x)
                    (grown_at highest s.size k (first_tss s) c d),
          )
      | inr room ↦
          let s1 : Stamps = record s { tss = some (first_tss s) } in
          (
            stamp seqno now s1,
            rw room,
            stamp-IsTable s1 (first_tss s) seqno now refl t.sized t.positive,
            λ k c d.
                stamp-time_of s1 (first_tss s) highest seqno now k refl t.sized a
                  (not_full-lt highest seqno s.size t.positive room) c d,
          )
    ]
