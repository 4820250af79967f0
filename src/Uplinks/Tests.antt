-- ===== src/Uplinks/Tests.antt =====
-- Four uplinks, of which a flow may take the last two, and one failed link.
use saps_extended.Base.{ℕ, ◌≡◌, refl, some, List, [], ◌∷◌, ltb, if◌then◌else◌}
use saps_extended.Base.Int.{ℤ, pos, negsuc}
use saps_extended.Uplinks.{
  FailedLink, Svts, is_spine_failed, table_of, skip_invalid, skip_in, next_valid_link,
}

abbrev last_two : ℕ → ℤ
last_two i = if ltb 1 i then pos i else negsuc 0

abbrev none_at_all : ℕ → ℤ
none_at_all i = negsuc 0

abbrev svts : Svts
svts = record {
  no_failure = last_two;
  partial_failure = none_at_all;
  da_no_failure = none_at_all;
  da_partial_failure = none_at_all;
  da_full_failure = none_at_all;
}

abbrev failed : List FailedLink
failed = record { leaf = 1; spine = 2; failure_ratio = 100 } ∷ []

next_after_three : next_valid_link svts 0 4 3 ≡ some 2
unfolding next_valid_link table_of skip_in skip_invalid
next_after_three = refl

failed_fully : is_spine_failed failed 1 3 2 ≡ 2
unfolding is_spine_failed
failed_fully = refl
