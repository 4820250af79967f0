-- ===== src/Acker/Tests.antt =====
-- Runs of the receive window, and its theorems at concrete windows.
use saps_extended.Base.{ℕ, ◌≡◌, refl, List, [], ◌∷◌, true, false, arith}
use saps_extended.Base.Int.{pos}
use saps_extended.Acker.{Acker, new, slot, update}
use saps_extended.Acker.Deliver.{sum_range}
use saps_extended.Acker.Refine.{IsValid, new-IsValid, Updated}
use saps_extended.Acker.Update.{update-Updated}
use saps_extended.Acker.History.{receive, receive-new}

-- Packet 1 has come, packet 0 has not.
abbrev gap : Acker
gap = (update new (pos 1) 1000).0

gap-IsValid : IsValid gap
gap-IsValid = (update-Updated new 1 1000 new-IsValid).valid

gap_filled : let (a, n) = update gap (pos 0) 500 in (n ≡ 1500) × (a.next ≡ 2) × (a.is_dup ≡ false)
unfolding update new
gap_filled = (refl, refl, refl)

gap_repeated : let (a, n) = update gap (pos 1) 1000 in (n ≡ 0) × (a.next ≡ 0) × (a.is_dup ≡ true)
unfolding update new
gap_repeated = (refl, refl, refl)

-- Packet 100 does not fit into 64 entries.
window_doubled :
    let (a, n) = update gap (pos 100) 1000 in
    (a.wndmask ≡ 127) × (slot a 1 ≡ 1000) × (slot a 100 ≡ 1000)
unfolding update new
window_doubled = (refl, refl, refl)

update-Updated_example : Updated gap 0 500 (update gap (pos 0) 500)
update-Updated_example = update-Updated gap 0 500 gap-IsValid

abbrev packet_size : ℕ → ℕ
packet_size _ = 1000

abbrev shuffled : List ℕ
shuffled = 1 ∷ 0 ∷ 1 ∷ 3 ∷ []

receive-new_example :
    let (a, total) = receive packet_size new shuffled 0 in total ≡ sum_range packet_size 0 a.next
receive-new_example = (receive-new packet_size shuffled (λ i. omega arith)).0
