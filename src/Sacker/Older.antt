-- ===== src/Sacker/Older.antt =====
-- The older blocks of an acknowledgement, from the stack: the loop ends, keeps the stack in order
-- and writes only blocks that the first one does not cover, within the room that there is.
use saps_extended.Base.{
  ℕ, zero, suc, ◌+◌, ◌-◌, ◌≤◌, ◌<◌, ◌≡◌, refl, ◌∙◌, sym, subst, Bool, true, false, ◌&&◌, ◌||◌, ltb,
  arith, Bool-cases, inl, inr, length, get_or, length-set, get_or-set_self, get_or-set_ne,
}
use native.Mathlib.Decide.{dec_lt}
use saps_extended.Base.Int.{pos, pos_part, ltb_ℤ, leb_ℤ}
use saps_extended.SackStack.{SackStack, Block, unused, head, pop}
use saps_extended.SackStack.Laws.{IsStack, pop_lem, size-pop, in_use}
use saps_extended.Sacker.{Rows, add_row, add_old}

-- `b` is a block of packets up to `maxseen` that `recent` does not cover.
abbrev pub is_end : ℕ → Block → Bool
is_end maxseen b =
    ltb_ℤ b.left (pos 0) || (ltb_ℤ b.right (pos 0) || ltb_ℤ (pos (maxseen + 1)) b.right)

abbrev pub covers : Block → Block → Bool
covers recent b = leb_ℤ recent.left b.left && leb_ℤ b.right recent.right

pub record IsOlder (maxseen : ℕ) (recent b : Block) : Type 0 where
  pub open_end : is_end maxseen b ≡ false
  pub uncovered : covers recent b ≡ false

-- What the loop has done when it stops, from the stack `sf` and the rows `rows`.
pub record AddedOld (nblocks maxseen : ℕ) (recent : Block) (sf : SackStack) (rows : Rows)
    (r : SackStack × Rows) : Type 0 where
  pub stack : IsStack r.0
  pub size : r.0.size ≡ sf.size
  pub grows : rows.index ≤ r.1.index
  pub bound : r.1.index ≤ nblocks
  pub room : length r.1.area ≡ length rows.area
  pub same : (j : ℕ) → j < rows.index → get_or r.1.area j unused ≡ get_or rows.area j unused
  pub older :
      (j : ℕ) → rows.index ≤ j → j < r.1.index → IsOlder maxseen recent (get_or r.1.area j unused)

module _ (nblocks maxseen : ℕ) (recent : Block) where
  stop-AddedOld :
      (sf : SackStack) (rows : Rows)
      → IsStack sf
      → rows.index ≤ nblocks
      → AddedOld nblocks maxseen recent sf rows (sf, rows)
  stop-AddedOld sf rows v b = record {
    stack = v;
    size = refl;
    grows = omega arith;
    bound = b;
    room = refl;
    same = λ j p. refl;
    older = λ j p q. absurd (omega arith);
  }

  keep-AddedOld :
      (sf : SackStack) (rows : Rows) (b : Block) (r : SackStack × Rows)
      → IsOlder maxseen recent b
      → rows.index < length rows.area
      → AddedOld nblocks maxseen recent sf (add_row rows b) r
      → AddedOld nblocks maxseen recent sf rows r
  unfolding add_row
  keep-AddedOld sf rows b r o k h = record {
    stack = h.stack;
    size = h.size;
    grows = omega (arith, h.grows);
    bound = h.bound;
    room = h.room ∙ length-set rows.area rows.index b;
    same =
        λ j p. h.same j (omega arith) ∙ get_or-set_ne rows.area rows.index j b unused (omega arith);
    older = λ j p q. elim (dec_lt rows.index j) [
      | yes above ↦ h.older j (omega arith) q
      | no here ↦
          subst (λ i. IsOlder maxseen recent (get_or r.1.area i unused)) (omega arith)
            (subst (IsOlder maxseen recent) (sym first) o)
    ];
  }
    where
      first : get_or r.1.area rows.index unused ≡ b
      first = h.same rows.index (omega arith) ∙ get_or-set_self rows.area rows.index b unused k

  pop-AddedOld :
      (sf : SackStack) (k : ℕ) (rows : Rows) (r : SackStack × Rows)
      → AddedOld nblocks maxseen recent (pop sf k) rows r
      → AddedOld nblocks maxseen recent sf rows r
  pop-AddedOld sf k rows r h = record {
    stack = h.stack;
    size = h.size ∙ (size-pop sf k).0;
    grows = h.grows;
    bound = h.bound;
    room = h.room;
    same = h.same;
    older = h.older;
  }

  -- A block that is not past the end of the history is in use.
  open_in_use :
      (sf : SackStack) (k : ℕ) → IsStack sf → is_end maxseen (head sf k) ≡ false → k < sf.cnt
  open_in_use sf k v e = in_use sf k (pos_part (head sf k).left) v (ground arith)

  row_index :
      (rows : Rows) (b : Block) → ltb rows.index nblocks ≡ true → (add_row rows b).index ≤ nblocks
  unfolding add_row
  row_index rows b h = ground arith

  row_room :
      (rows : Rows) (b : Block)
      → nblocks ≤ length rows.area
      → nblocks ≤ length (add_row rows b).area
  unfolding add_row
  row_room rows b h = omega (arith, length-set rows.area rows.index b)

  pub add_old-AddedOld :
      (fuel : ℕ) (sf : SackStack) (k : ℕ) (rows : Rows)
      → IsStack sf
      → rows.index ≤ nblocks
      → nblocks ≤ length rows.area
      → AddedOld nblocks maxseen recent sf rows (add_old fuel nblocks maxseen recent sf k rows)
  unfolding add_old
  add_old-AddedOld zero sf k rows v b l = stop-AddedOld sf rows v b
  add_old-AddedOld (suc fuel) sf k rows v b l = elim (Bool-cases (ltb rows.index nblocks)) [
    | inr full ↦ rw full (stop-AddedOld sf rows v b)
    | inl room ↦ elim (Bool-cases (is_end maxseen (head sf k))) [
      | inl end ↦ rw (room, end) (stop-AddedOld sf rows v b)
      | inr more ↦ elim (Bool-cases (covers recent (head sf k))) [
        | inl hit ↦
            rw (room, more, hit)
              (pop-AddedOld sf k rows _ (
                add_old-AddedOld fuel (pop sf k) k rows (pop_lem sf k v (open_in_use sf k v more)).0
                  b l))
        | inr miss ↦
            rw (room, more, miss)
              (keep-AddedOld sf rows (head sf k) _ (record { open_end = more; uncovered = miss })
                (ground arith)
                (add_old-AddedOld fuel sf (k + 1) (add_row rows (head sf k)) v
                  (row_index rows (head sf k) room) (row_room rows (head sf k) l)))
      ]
    ]
  ]

  kept_measure :
      (f c : ℕ) (rows : Rows) (b : Block)
      → ltb rows.index nblocks ≡ true
      → nblocks - rows.index + c < suc f
      → nblocks - (add_row rows b).index + c < f
  unfolding add_row
  kept_measure f c rows b h p = ground arith

  -- The loop over the stack ends by its own tests: for a stack in order, any two amounts of fuel
  -- above the number of free rows and stacked blocks together give the same result.
  pub add_old_stable :
      (f g : ℕ) (sf : SackStack) (k : ℕ) (rows : Rows)
      → IsStack sf
      → nblocks - rows.index + sf.cnt < f
      → nblocks - rows.index + sf.cnt < g
      → add_old f nblocks maxseen recent sf k rows ≡ add_old g nblocks maxseen recent sf k rows
  unfolding add_old
  add_old_stable zero g sf k rows v p q = absurd (omega arith)
  add_old_stable (suc f) zero sf k rows v p q = absurd (omega arith)
  add_old_stable (suc f) (suc g) sf k rows v p q = elim (Bool-cases (ltb rows.index nblocks)) [
    | inr full ↦ rw full
    | inl room ↦ elim (Bool-cases (is_end maxseen (head sf k))) [
      | inl end ↦ rw (room, end)
      | inr more ↦ elim (Bool-cases (covers recent (head sf k))) [
        | inl hit ↦
            rw (room, more, hit)
              (add_old_stable f g (pop sf k) k rows (pop_lem sf k v (open_in_use sf k v more)).0
                (omega (arith, size-pop sf k, open_in_use sf k v more))
                (omega (arith, size-pop sf k, open_in_use sf k v more)))
        | inr miss ↦
            rw (room, more, miss)
              (add_old_stable f g sf (k + 1) (add_row rows (head sf k)) v
                (kept_measure f sf.cnt rows (head sf k) room p)
                (kept_measure g sf.cnt rows (head sf k) room q))
      ]
    ]
  ]
