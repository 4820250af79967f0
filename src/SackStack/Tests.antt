-- ===== src/SackStack/Tests.antt =====
-- The stack of SACK blocks at concrete stacks.
use saps_extended.Base.{ℕ, ◌+◌, arith}
use saps_extended.Base.Int.{pos}
use saps_extended.SackStack.{Block, SackStack, new, set_head, push}
use saps_extended.SackStack.Laws.{IsStack, new-IsStack, push_front, push_front_lem}

-- Packet `n`.
abbrev block : ℕ → Block
block n = record { left = pos n; right = pos (n + 1) }

abbrev two_blocks : SackStack
two_blocks = push_front (push_front (new 2) (block 7)) (block 4)

two_blocks-IsStack : IsStack two_blocks
unfolding new set_head push
two_blocks-IsStack =
    (push_front_lem (push_front (new 2) (block 7))
      (push_front_lem (new 2) (new-IsStack 2) (omega arith) (block 7)).0 (omega arith) (block 4)).0
