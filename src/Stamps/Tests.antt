-- ===== src/Stamps/Tests.antt =====
-- A table of ten entries, of which the segment 15 after 5 needs more.
use saps_extended.Base.{
  ℕ, ◌+◌, ◌<◌, ◌≤◌, ◌≡◌, refl, [], ◌∷◌, true, some, none, arith, ◌==◌, if◌then◌else◌,
}
use saps_extended.Base.Int.{pos, negsuc}
use saps_extended.Stamps.{Stamps, store, grow_stamps}
use saps_extended.Stamps.Table.{IsTable, time_of, store-time_of}

abbrev ten : Stamps
ten = record { size = 10; tss = some (20 ∷ 21 ∷ 22 ∷ 23 ∷ 24 ∷ 15 ∷ 16 ∷ 17 ∷ 18 ∷ 19 ∷ []) }

store-time_of_example :
    (s' : Stamps) × (store true (pos 5) 15 30 ten ≡ some s')
    × IsTable s'
    × ((k : ℕ) → 5 ≤ k → k < 5 + 10 → time_of s' k ≡ (if 15 == k then 30 else time_of ten k))
store-time_of_example =
    store-time_of ten 5 15 30 (record { sized = refl; positive = omega arith }) (omega arith)
      (omega arith)

-- Before the first acknowledgement the table cannot grow.
before_first : store true (negsuc 0) 9 30 ten ≡ none
unfolding store grow_stamps saps_extended.Stamps.nearly_full
before_first = refl
