-- ===== src/Sacker/Invariant.antt =====
-- A configured sacker, and what every call keeps of it.
use saps_extended.Base.{
  ℕ, ◌+◌, ◌≤◌, ◌≡◌, refl, ◌∙◌, sym, ap, ltb, arith, Bool-cases, inl, inr, length,
}
use saps_extended.Base.Int.{pos}
use saps_extended.Acker.Refine.{IsValid, reset-IsValid}
use saps_extended.SackStack.{SackStack}
use saps_extended.SackStack.Laws.{IsStack, new-IsStack, reset_lem, size-new, size-reset}
use saps_extended.Sacker.{Sacker, Rows, nsa, configure, reset}

-- A configured sacker: the stack has as many entries as blocks may be sent, at most NSA.
pub record IsSacker (s : Sacker) : Type 0 where
  pub acker : IsValid s.acker
  pub stack : IsStack s.sf
  pub size : s.base_nblocks ≡ pos s.sf.size
  pub limit : s.sf.size ≤ nsa

-- For a sacker with a valid window, configure and trace give one whose stack is empty, in order
-- and of at most NSA entries, also where more were asked for; the number written back is at most
-- NSA and at most what was asked for, and is what was asked for where that is at most NSA.
pub configure-IsSacker :
    (s : Sacker) (n : ℕ)
    → IsValid s.acker
    → let (s', written) = configure s n in
      IsSacker s' × (written ≤ nsa) × (written ≤ n) × (n ≤ nsa → written ≡ n)
unfolding configure
configure-IsSacker s n v = elim (Bool-cases (ltb nsa n)) [
  | inl more ↦ rw more (
    record {
      acker = v;
      stack = new-IsStack nsa;
      size = ap pos (sym (size-new nsa));
      limit = omega (arith, size-new nsa);
    },
    omega arith,
    ground arith,
    λ h. ground arith,
  )
  | inr few ↦ rw few (
    record {
      acker = v;
      stack = new-IsStack n;
      size = ap pos (sym (size-new n));
      limit = ground (arith, size-new n);
    },
    ground arith,
    omega arith,
    λ h. refl,
  )
]

pub reset-IsSacker : (s : Sacker) → IsSacker s → IsSacker (reset s)
unfolding reset
reset-IsSacker s v = record {
  acker = reset-IsValid v.acker;
  stack = (reset_lem s.sf v.stack).0;
  size = v.size ∙ ap pos (sym (size-reset s.sf));
  limit = omega (arith, size-reset s.sf, v.limit);
}

-- What one call leaves behind: a stack in order and of the same size, and at most as many rows as
-- it has entries.
pub record Fits (s : Sacker) (r : SackStack × Rows) : Type 0 where
  pub stack : IsStack r.0
  pub size : r.0.size ≡ s.sf.size
  pub rows : r.1.index ≤ s.sf.size
  pub room : length r.1.area ≡ nsa + 1
