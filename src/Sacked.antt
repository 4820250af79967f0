-- ===== src/Sacked.antt =====
-- `Sack1TcpAgent::is_sacked` of tcp/tcp-sack1.cc: whether an acknowledgement covers packets of a
-- range. The blocks are the rows of `sack_area_`, of which the first `sa_length` are in use; a
-- block and the range are without their right ends.
use saps_extended.Base.{
  ℕ, zero, suc, ◌<◌, ◌≡◌, ◌↔◌, List, [], ◌∷◌, Bool, true, false, ◌&&◌, ◌||◌, if◌then◌else◌, get_or,
  sym, ◌∙◌, length, ◌≤◌, arith, Bool-cases, inl, inr,
}
use saps_extended.Base.Int.{ℤ, ltb_ℤ, leb_ℤ}
use saps_extended.SackStack.{Block, unused}

-- The condition of the loop.
pub meets : ℤ → ℤ → Block → Bool
meets lo hi b =
    (ltb_ℤ lo b.right && leb_ℤ b.right hi)
    || ((leb_ℤ lo b.left && ltb_ℤ b.left hi) || (ltb_ℤ b.left lo && ltb_ℤ hi b.right))

-- The loop over the first `sa_length` rows.
pub is_sacked : ℕ → List Block → ℤ → ℤ → Bool
is_sacked zero area lo hi = false
is_sacked (suc n) [] lo hi = false
is_sacked (suc n) (b ∷ area) lo hi = if meets lo hi b then true else is_sacked n area lo hi

-- Packet `x` is in the block, and in the range.
abbrev pub in_both : ℤ → ℤ → Block → ℤ → Bool
in_both lo hi b x = (leb_ℤ b.left x && ltb_ℤ x b.right) && (leb_ℤ lo x && ltb_ℤ x hi)

-- The larger of the two left ends.
abbrev later : ℤ → ℤ → ℤ
later a b = if leb_ℤ a b then b else a

meets-both :
    (lo hi : ℤ) (b : Block)
    → ltb_ℤ lo hi ≡ true
    → ltb_ℤ b.left b.right ≡ true
    → meets lo hi b ≡ in_both lo hi b (later lo b.left)
unfolding meets
meets-both lo hi b p q = ground arith

meets-any : (lo hi x : ℤ) (b : Block) → in_both lo hi b x ≡ true → meets lo hi b ≡ true
unfolding meets
meets-any lo hi x b p = ground arith

-- One of the first `n` blocks has a packet in common with the range.
pub record Common (n : ℕ) (area : List Block) (lo hi : ℤ) : Type 0 where
  pub row : ℕ
  pub used : row < n
  pub packet : ℤ
  pub shared : in_both lo hi (get_or area row unused) packet ≡ true

-- Every one of the first `n` blocks has a packet.
abbrev pub Filled : ℕ → List Block → Type 0
Filled n area =
    (i : ℕ) → i < n → ltb_ℤ (get_or area i unused).left (get_or area i unused).right ≡ true

Common-later :
    {n : ℕ} {b : Block} {area : List Block} {lo hi : ℤ}
    → Common n area lo hi
    → Common (suc n) (b ∷ area) lo hi
Common-later c = record {
  row = suc c.row;
  used = omega (arith, c.used);
  packet = c.packet;
  shared = c.shared;
}

found_lem :
    (n : ℕ) (area : List Block) (lo hi : ℤ)
    → ltb_ℤ lo hi ≡ true
    → Filled n area
    → is_sacked n area lo hi ≡ true
    → Common n area lo hi
unfolding is_sacked
found_lem zero area lo hi p f e = absurd (ground arith)
found_lem (suc n) [] lo hi p f e = absurd (ground arith)
found_lem (suc n) (b ∷ area) lo hi p f e = elim (Bool-cases (meets lo hi b)) [
  | inl here ↦ record {
    row = 0;
    used = omega arith;
    packet = later lo b.left;
    shared = sym (meets-both lo hi b p (f 0 (omega arith))) ∙ here;
  }
  | inr past ↦
      Common-later
        (found_lem n area lo hi p (λ i h. f (suc i) (omega arith)) (sym (skipped past) ∙ e))
]
  where
    skipped : meets lo hi b ≡ false → is_sacked (suc n) (b ∷ area) lo hi ≡ is_sacked n area lo hi
    skipped past = rw past

covered_lem :
    (n : ℕ) (area : List Block) (lo hi x : ℤ) (row : ℕ)
    → n ≤ length area
    → row < n
    → in_both lo hi (get_or area row unused) x ≡ true
    → is_sacked n area lo hi ≡ true
unfolding is_sacked
covered_lem zero area lo hi x row l h e = absurd (omega arith)
covered_lem (suc n) [] lo hi x row l h e = absurd (omega arith)
covered_lem (suc n) (b ∷ area) lo hi x zero l h e = rw (meets-any lo hi x b e)
covered_lem (suc n) (b ∷ area) lo hi x (suc row) l h e = elim (Bool-cases (meets lo hi b)) [
  | inl here ↦ rw here
  | inr past ↦ rw past (covered_lem n area lo hi x row (omega arith) (omega arith) e)
]

-- For SACK blocks that are not empty and a range that is not empty: is_sacked says whether one of
-- the first sa_length blocks has a packet in common with the range.
pub is_sacked_lem :
    (n : ℕ) (area : List Block) (lo hi : ℤ)
    → n ≤ length area
    → ltb_ℤ lo hi ≡ true
    → Filled n area
    → (is_sacked n area lo hi ≡ true) ↔ Common n area lo hi
is_sacked_lem n area lo hi l p f =
    (found_lem n area lo hi p f, λ c. covered_lem n area lo hi c.packet c.row l c.used c.shared)
