-- ===== src/Sacker/Blocks.antt =====
-- The blocks that a whole call of `append_ack` writes.
use saps_extended.Base.{
  ℕ, ◌+◌, ◌-◌, ◌≤◌, ◌<◌, ◌≡◌, ◌≢◌, refl, ◌∙◌, subst, true, not, ◌&&◌, ◌||◌, leb, ◌==◌, arith,
  if◌then◌else◌, Bool-cases, inl, inr, List, length, get_or, length-set, get_or-set_self,
  get_or-set_ne, le→leb, lt→not-leb,
}
use native.Mathlib.Decide.{dec_lt}
use saps_extended.Base.Int.{pos, pos_part, ltb_ℤ}
use saps_extended.Acker.{slot}
use saps_extended.SackStack
use saps_extended.SackStack.{SackStack, Block, unused, head, push, set_head}
use saps_extended.SackStack.Laws.{
  reset_lem, push_front, push_front_lem, size-reset, size-push_front,
}
use saps_extended.Sacker.{
  Sacker, Rows, nsa, add_row, add_old, recent_block, add_blocks, dsack_row, append_at, find_right,
}
use saps_extended.Sacker.Invariant.{IsSacker, Fits}
use saps_extended.Sacker.Recent.{IsRun, recent_block_lem}
use saps_extended.Sacker.Older.{IsOlder, AddedOld, add_old-AddedOld}

module _ (s : Sacker) (v : IsSacker s) (recent : Block) (start : Rows)
    (free : start.index ≤ s.sf.size) (room : length start.area ≡ nsa + 1) where
  -- the loop over the stack, as `add_blocks` calls it
  added : SackStack × Rows
  added = add_old (s.sf.size + s.sf.size + 1) s.sf.size s.acker.maxseen recent s.sf 0 start

  added_lem : AddedOld s.sf.size s.acker.maxseen recent s.sf start added
  unfolding added
  added_lem =
      add_old-AddedOld s.sf.size s.acker.maxseen recent (s.sf.size + s.sf.size + 1) s.sf 0 start
        v.stack free (omega (arith, v.limit))

  Fits-kept : Fits s added
  Fits-kept = record {
    stack = added_lem.stack;
    size = added_lem.size;
    rows = added_lem.bound;
    room = added_lem.room ∙ room;
  }

  Fits-pushed : 0 < s.sf.size → Fits s (push_front added.0 recent, added.1)
  Fits-pushed h = record {
    stack = (push_front_lem added.0 added_lem.stack (omega (arith, added_lem.size)) recent).0;
    size = size-push_front added.0 recent ∙ added_lem.size;
    rows = added_lem.bound;
    room = added_lem.room ∙ room;
  }

row_added :
    (r : Rows) (b : Block)
    → ((add_row r b).index ≡ r.index + 1) × (length (add_row r b).area ≡ length r.area)
unfolding add_row
row_added r b = (refl, length-set r.area r.index b)

module _ (s : Sacker) (old : ℕ) (rows : Rows) (v : IsSacker s) (free : rows.index < s.sf.size)
    (room : length rows.area ≡ nsa + 1) where
  first_row : Rows
  first_row = add_row rows (recent_block s.acker old)

  first_free : first_row.index ≤ s.sf.size
  unfolding first_row
  first_free = omega (arith, row_added rows (recent_block s.acker old))

  first_room : length first_row.area ≡ nsa + 1
  unfolding first_row
  first_room = (row_added rows (recent_block s.acker old)).1 ∙ room

  add_blocks_above :
      s.acker.next ≤ old
      → let r = added s v (recent_block s.acker old) first_row first_free first_room in
        add_blocks s old rows ≡ (push_front r.0 (recent_block s.acker old), r.1)
  unfolding add_blocks added first_row
  add_blocks_above h = rw (le→leb s.acker.next old h, v.size)

  add_blocks_below :
      (h : old < s.acker.next)
      → let recent : Block = record {
        left = pos 0;
        right = pos (find_right (s.acker.maxseen + 1 - old) s.acker old);
      } in
        add_blocks s old rows ≡ added s v recent rows (omega arith) room
  unfolding add_blocks added
  add_blocks_below h = rw (lt→not-leb s.acker.next old h, v.size)

  add_blocks-Fits : Fits s (add_blocks s old rows)
  add_blocks-Fits = elim (dec_lt old s.acker.next) [
    | yes below ↦ rw (add_blocks_below below) (Fits-kept s v _ rows (omega arith) room)
    | no above ↦
        rw (add_blocks_above (omega arith))
          (Fits-pushed s v (recent_block s.acker old) first_row first_free first_room (omega arith))
  ]

-- the number of DSACK rows
abbrev pub dsack_rows : Sacker → ℕ
dsack_rows s = if s.dsacks && s.acker.is_dup then 1 else 0

-- The acknowledgement `r` of packet `old`.
pub record Reported (s : Sacker) (old : ℕ) (r : SackStack × Rows) : Type 0 where
  pub left : ℕ
  pub right : ℕ
  pub run : IsRun s.acker old left right
  pub first : get_or r.1.area (dsack_rows s) unused ≡ record { left = pos left; right = pos right }
  pub newest : head r.0 0 ≡ record { left = pos left; right = pos right }
  pub some_row : dsack_rows s < r.1.index
  pub older :
      (j : ℕ)
      → dsack_rows s < j
      → j < r.1.index
      → IsOlder s.acker.maxseen
          (record { left = pos left; right = pos right })
          (get_or r.1.area j unused)
  pub dsack :
      (s.dsacks && s.acker.is_dup) ≡ true
      → get_or r.1.area 0 unused ≡ record { left = pos old; right = pos (old + 1) }

module _ (s : Sacker) (old : ℕ) (area : List Block) (v : IsSacker s)
    (room : length area ≡ nsa + 1) where
  no_rows : Rows
  no_rows = record { area = area; index = 0 }

  start : Rows
  start = dsack_row s old no_rows

  start_lem : (start.index ≤ 1) × (length start.area ≡ nsa + 1)
  unfolding start dsack_row no_rows
  start_lem = ground (arith, row_added no_rows (record { left = pos old; right = pos (old + 1) }))

  unchanged-Fits :
      (rows : Rows) → rows.index ≤ s.sf.size → length rows.area ≡ nsa + 1 → Fits s (s.sf, rows)
  unchanged-Fits rows h k = record { stack = v.stack; size = refl; rows = h; room = k }

  reset-Fits : Fits s (SackStack.reset s.sf, no_rows)
  unfolding no_rows
  reset-Fits = record {
    stack = (reset_lem s.sf v.stack).0;
    size = size-reset s.sf;
    rows = omega arith;
    room = room;
  }

  -- On every branch the stack stays in order, and the blocks fit into the header.
  pub append_at-Fits : Fits s (append_at s old area)
  unfolding append_at start no_rows
  append_at-Fits =
      elim (Bool-cases (leb (s.acker.maxseen + 1) s.acker.next && not (s.sf.cnt == 0))) [
        | inl clear ↦ rw clear reset-Fits
        | inr keep ↦
            elim (Bool-cases (
              (leb s.acker.next s.acker.maxseen || s.acker.is_dup)
              && ltb_ℤ (pos 0) s.base_nblocks)) [
                | inr quiet ↦ rw (keep, quiet) (unchanged-Fits no_rows (omega arith) room)
                | inl report ↦ elim (Bool-cases (leb (pos_part s.base_nblocks) start.index)) [
                  | inl full ↦
                      rw (keep, report, full)
                        (unchanged-Fits start (ground (arith, v.size, start_lem)) start_lem.1)
                  | inr free ↦
                      rw (keep, report, free)
                        (add_blocks-Fits s old start v (ground (arith, v.size)) start_lem.1)
                ]
              ]
      ]

  append_at_inside :
      s.acker.next ≤ s.acker.maxseen
      → start.index < s.sf.size
      → append_at s old area ≡ add_blocks s old start
  unfolding append_at start no_rows
  append_at_inside h k = ground (arith, v.size)

  module _ (low : s.acker.next ≤ old) (high : old ≤ s.acker.maxseen)
      (free : start.index < s.sf.size) where
    recent : Block
    recent = recent_block s.acker old

    first : Rows
    first = first_row s old start v free start_lem.1

    first_at : get_or first.area start.index unused ≡ recent
    unfolding first first_row add_row recent
    first_at =
        get_or-set_self start.area start.index (recent_block s.acker old) unused
          (omega (arith, start_lem, v.limit))

    loop : SackStack × Rows
    unfolding first
    loop =
        added s v recent first (first_free s old start v free start_lem.1)
          (first_room s old start v free start_lem.1)

    loop_lem : AddedOld s.sf.size s.acker.maxseen recent s.sf first loop
    unfolding loop first
    loop_lem =
        added_lem s v recent first (first_free s old start v free start_lem.1)
          (first_room s old start v free start_lem.1)

    append_at-loop : append_at s old area ≡ (push_front loop.0 recent, loop.1)
    unfolding loop recent first
    append_at-loop =
        append_at_inside (omega arith) free ∙ add_blocks_above s old start v free start_lem.1 low

    first_index : first.index ≡ start.index + 1
    unfolding first first_row
    first_index = (row_added start (recent_block s.acker old)).0

    loop_first : get_or loop.1.area start.index unused ≡ recent
    loop_first = loop_lem.same start.index (omega (arith, first_index)) ∙ first_at

    loop_head : head (push_front loop.0 recent) 0 ≡ recent
    loop_head = (push_front_lem loop.0 loop_lem.stack (omega (arith, loop_lem.size)) recent).1 0

  start_row :
      (s.dsacks && s.acker.is_dup) ≡ true
      → get_or start.area 0 unused ≡ record { left = pos old; right = pos (old + 1) }
  unfolding start dsack_row no_rows add_row
  start_row h = rw h (
      get_or-set_self area 0 (record { left = pos old; right = pos (old + 1) }) unused
        (omega (arith, room)))

  start_index : start.index ≡ dsack_rows s
  unfolding start dsack_row no_rows add_row
  start_index = ground arith

  first_dsack :
      (low : s.acker.next ≤ old) (high : old ≤ s.acker.maxseen) (free : start.index < s.sf.size)
      → (s.dsacks && s.acker.is_dup) ≡ true
      → get_or (loop low high free).1.area 0 unused
        ≡ record { left = pos old; right = pos (old + 1) }
  unfolding first first_row add_row
  first_dsack low high free h =
      (loop_lem low high free).same 0 (omega arith)
      ∙ (get_or-set_ne start.area start.index 0 (recent_block s.acker old) unused
            (ground (arith, start_index))
          ∙ start_row h)

  -- For a configured sacker, an acknowledgement area of NSA + 1 rows and a packet that is held in
  -- the window, with room for one row more than the DSACK row: the first block after the DSACK
  -- row is the longest run of received packets around the packet, and goes on top of the stack;
  -- every further block has edges that are not negative, does not end above the highest packet
  -- and is not covered by that run; and a duplicate is reported in row 0 as a DSACK block if
  -- DSACKs are on.
  pub append_at-Reported :
      s.acker.next ≤ old
      → old ≤ s.acker.maxseen
      → slot s.acker old ≢ 0
      → dsack_rows s < s.sf.size
      → Reported s old (append_at s old area)
  unfolding recent
  append_at-Reported low high seen k =
      let free : start.index < s.sf.size = omega (arith, start_index) in
      let (l, r, eq, run) = recent_block_lem s.acker old v.acker low high seen in
      rw (append_at-loop low high free) (record {
        left = l;
        right = r;
        run = run;
        first =
            subst (λ i. get_or (loop low high free).1.area i unused ≡ recent low high free)
              start_index (loop_first low high free)
            ∙ eq;
        newest = loop_head low high free ∙ eq;
        some_row =
            omega (arith, start_index, first_index low high free, (loop_lem low high free).grows);
        older = λ j p q.
            subst (λ b. IsOlder s.acker.maxseen b (get_or (loop low high free).1.area j unused)) eq
              ((loop_lem low high free).older j
                (omega (arith, start_index, first_index low high free)) q);
        dsack = first_dsack low high free;
      })
