-- ===== src/Sacker/Tests.antt =====
-- Acknowledgements of a sacker, and its theorems at concrete ones.
use saps_extended.Base.{◌+◌, ◌*◌, ◌≤◌, ◌≡◌, refl, List, false, length, replicate, arith}
use saps_extended.Base.Int.{pos, negsuc}
use saps_extended.Acker
use saps_extended.Acker.{Acker, slot, update}
use saps_extended.Acker.Refine.{IsValid, new-IsValid}
use saps_extended.Acker.Update.{update-Updated}
use saps_extended.SackStack
use saps_extended.SackStack.{Block, unused, SackStack, head}
use saps_extended.SackStack.Laws.{IsStack, new-IsStack, push_front, push_front_lem}
use saps_extended.Sacker.Append.{append_ack_lem}
use saps_extended.Sacker.{Sacker, Rows, nsa, configure, append_at, append_ack}
use saps_extended.Sacker.Invariant.{IsSacker, configure-IsSacker}
use saps_extended.Sacker.Blocks.{Reported, append_at-Reported}

-- Packets 3 and 1 have come.
abbrev holes : Acker
holes = (update (update Acker.new (pos 3) 1000).0 (pos 1) 1000).0

holes-IsValid : IsValid holes
holes-IsValid =
    (update-Updated (update Acker.new (pos 3) 1000).0 1 1000
      (update-Updated Acker.new 3 1000 new-IsValid).valid).valid

abbrev fresh : Sacker
fresh = record { acker = holes; base_nblocks = negsuc 0; dsacks = false; sf = SackStack.new 0 }

abbrev sacker : Sacker
sacker = (configure fresh 5).0

sacker-IsSacker : IsSacker sacker
sacker-IsSacker = (configure-IsSacker fresh 5 holes-IsValid).0

abbrev area : List Block
area = replicate (nsa + 1) unused

append_at-Reported_example : Reported sacker 1 (append_at sacker 1 area)
unfolding configure update Acker.new SackStack.new
append_at-Reported_example =
    append_at-Reported sacker 1 area sacker-IsSacker refl (omega arith) (omega arith)
      (λ e. omega arith) (omega arith)

append_ack_lem_example :
    let r = append_ack sacker (pos 3) area 40 in
    IsSacker (record sacker { sf = r.sf })
    × (r.sa_length ≤ nsa)
    × (length r.area ≡ nsa + 1)
    × (r.size ≡ 40 + r.sa_length * 8)
append_ack_lem_example = append_ack_lem sacker (pos 3) area 40 sacker-IsSacker refl

-- No rows yet.
abbrev no_rows : Rows
no_rows = record { area = area; index = 0 }

-- The two runs of `holes`, the older one below.
abbrev two_runs : SackStack
two_runs =
    push_front (push_front (SackStack.new 3) (record { left = pos 3; right = pos 4 }))
      (record { left = pos 1; right = pos 2 })

two_runs-IsStack : IsStack two_runs
unfolding SackStack.new SackStack.set_head SackStack.push
two_runs-IsStack =
    (push_front_lem (push_front (SackStack.new 3) (record { left = pos 3; right = pos 4 }))
      (push_front_lem (SackStack.new 3) (new-IsStack 3) (omega arith)
        (record { left = pos 3; right = pos 4 })).0
      (omega arith) (record { left = pos 1; right = pos 2 })).0
