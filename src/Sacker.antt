-- ===== src/Sacker.antt =====
-- `Sacker::append_ack`, `reset` and `configure` of tcp/tcp-sink.cc: the SACK blocks of an
-- acknowledgement.
pub mod Recent
pub mod Invariant
pub mod Older
pub mod Blocks
pub mod Append
mod Tests
use saps_extended.Base.{
  ℕ, zero, suc, ◌+◌, ◌-◌, ◌*◌, List, [], ◌∷◌, Bool, true, false, not, ◌&&◌, ◌||◌, ltb, leb, ◌==◌,
  if◌then◌else◌, get_or, set,
}
use saps_extended.Base.Int.{ℤ, pos, negsuc, pos_part, ltb_ℤ, leb_ℤ}
use saps_extended.Acker
use saps_extended.Acker.{Acker, slot, seqno}
use saps_extended.SackStack
use saps_extended.SackStack.{SackStack, Block, head, push, pop, set_head}

-- NSA
abbrev pub nsa : ℕ
nsa = 3

pub record Sacker : Type 0 where
  pub acker : Acker
  pub base_nblocks : ℤ
  pub dsacks : Bool
  pub sf : SackStack

-- `configure`, and `trace` with the new value: at most NSA blocks. `max_sack_blocks` is the value
-- of the bound variable, from 0 up; the result has the value that is written back to it.
unfoldable pub configure : Sacker → ℕ → Sacker × ℕ
configure s max_sack_blocks =
    let n = (if ltb nsa max_sack_blocks then nsa else max_sack_blocks) in
    (record s { sf = SackStack.new n; base_nblocks = pos n }, n)

pub reset : Sacker → Sacker
reset s = record s { sf = SackStack.reset s.sf; acker = Acker.reset s.acker }

-- `sack_area_` and the index of the next row to fill. A row out of range is not written.
pub record Rows : Type 0 where
  pub area : List Block
  pub index : ℕ

-- h->sa_left(sack_index) = left; h->sa_right(sack_index) = right; sack_index++;
pub add_row : Rows → Block → Rows
add_row r b = record { area = set r.area r.index b; index = r.index + 1 }

-- `for (i = i; i <= maxseen_; i++)` with `n` rounds left: the first hole, or one past the highest
pub find_right : ℕ → Acker → ℕ → ℕ
find_right zero a i = a.maxseen + 1
find_right (suc n) a i = let rest = find_right n a (i + 1) in if slot a i == 0 then i else rest

-- `for (i = sack_right-1; i > seqno; i--)` with `n` rounds left, from `edge - 1` down: one past
-- the first hole, or -1
pub find_left : ℕ → Acker → ℕ → ℤ
find_left zero a edge = negsuc 0
find_left (suc n) a edge =
    let rest = find_left n a (edge - 1) in if slot a (edge - 1) == 0 then pos edge else rest

-- The first block, for a packet that is above the cumulative acknowledgement, next_ - 1.
pub recent_block : Acker → ℕ → Block
recent_block a old =
    let right = find_right (a.maxseen + 1 - old) a old in
    record { left = find_left (right - a.next) a right; right = pos right }

-- `while (sack_index < base_nblocks_)` on fuel, with `k` blocks of the stack kept
pub add_old : ℕ → ℕ → ℕ → Block → SackStack → ℕ → Rows → SackStack × Rows
add_old zero nblocks maxseen recent sf k rows = (sf, rows)
add_old (suc fuel) nblocks maxseen recent sf k rows =
    let b = head sf k in
    let popped = add_old fuel nblocks maxseen recent (pop sf k) k rows in
    let kept = add_old fuel nblocks maxseen recent sf (k + 1) (add_row rows b) in
    if not (ltb rows.index nblocks)
    then (sf, rows)
    else if ltb_ℤ b.left (pos 0) || (ltb_ℤ b.right (pos 0) || ltb_ℤ (pos (maxseen + 1)) b.right)
    then (sf, rows)
    else if leb_ℤ recent.left b.left && leb_ℤ b.right recent.right
    then popped
    else kept

-- From `look rightward for first hole` to the end of that block.
pub add_blocks : Sacker → ℕ → Rows → SackStack × Rows
add_blocks s old rows =
    let nblocks = pos_part s.base_nblocks in
    let above = leb s.acker.next old in
    let recent =
      (if above then recent_block s.acker old else record {
        left = pos 0;
        right = pos (find_right (s.acker.maxseen + 1 - old) s.acker old);
      }) in
    let (sf, rows') =
      add_old (nblocks + s.sf.size + 1) nblocks s.acker.maxseen recent s.sf 0
        (if above then add_row rows recent else rows) in
    (if above then set_head (push sf) recent else sf, rows')

-- The DSACK block of a duplicate.
pub dsack_row : Sacker → ℕ → Rows → Rows
dsack_row s old rows =
    if s.dsacks && s.acker.is_dup
    then add_row rows (record { left = pos old; right = pos (old + 1) })
    else rows

-- `append_ack` for a packet number that is not negative; the blocks stand in `sack_area_`.
pub append_at : Sacker → ℕ → List Block → SackStack × Rows
append_at s old area =
    let none_yet : Rows = record { area = area; index = 0 } in
    let start = dsack_row s old none_yet in
    if leb (s.acker.maxseen + 1) s.acker.next && not (s.sf.cnt == 0)
    then (SackStack.reset s.sf, none_yet)
    else if (leb s.acker.next s.acker.maxseen || s.acker.is_dup) && ltb_ℤ (pos 0) s.base_nblocks
    then if leb (pos_part s.base_nblocks) start.index then (s.sf, start) else add_blocks s old start
    else (s.sf, none_yet)

-- What `append_ack` writes: the stack, `sack_area_`, `sa_length` and the size of the packet.
pub record Appended : Type 0 where
  pub sf : SackStack
  pub area : List Block
  pub sa_length : ℕ
  pub size : ℕ

pub append_ack : Sacker → ℤ → List Block → ℕ → Appended
append_ack s (negsuc n) area size = record { sf = s.sf; area = area; sa_length = 0; size = size }
append_ack s (pos old) area size =
    let (sf, rows) = append_at s old area in
    record { sf = sf; area = rows.area; sa_length = rows.index; size = size + rows.index * 8 }
