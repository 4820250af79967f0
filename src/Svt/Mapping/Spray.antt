-- ===== src/Svt/Mapping/Spray.antt =====
-- Spraying within the chosen table: `nextValidLink` ends, at a spine that is not fully failed.
use saps_extended.Base.{
  ℕ, ◌+◌, ◌<◌, ◌≡◌, ◌⊎◌, inl, inr, refl, ap, sym, ◌∙◌, List, [], ◌∷◌, Bool, true, false, not, some,
  arith,
}
use saps_extended.Base.Int.{ℤ}
use saps_extended.Uplinks.{FailedLink, Svts, table_of, next_valid_link}
use saps_extended.Uplinks.Next.{is_valid, next_valid_link_lem}
use saps_extended.Svt.{Tables, no_links, svts_of, sort_links}
use saps_extended.Svt.Standing.{
  Standing, all_healthy, stand, is_failed, is_healthy, is_partial, is_broken, is_da_partial,
  is_da_full,
}
use saps_extended.Svt.Sorted.{mark, Represents, Within, sort_links-Represents}
use saps_extended.Svt.Links.{
  some_link, any_link, direct_full_link, stand-is_healthy, stand-is_broken,
}
use saps_extended.Svt.Mapping.{Flow, Draws, Sent, choose, remap, spray_valid, flowcells}
use saps_extended.Svt.Mapping.Valid.{
  InRange, exists_of_count, choose_cases, choose_da_cases, choose-partial, choose_da-partial,
  choose_da-full,
}

-- The five tables, their numbers and the spines that they hold.
pub data Table : Type 0 where
  good poor da_good da_poor da_broken : Table

abbrev pub number : Table → ℕ
number good = 0
number poor = 1
number da_good = 10
number da_poor = 11
number da_broken = 12

abbrev pub wants : Table → Standing → Bool
wants good s = not (is_failed s)
wants poor s = is_partial s
wants da_good s = is_healthy s
wants da_poor s = is_da_partial s
wants da_broken s = is_da_full s

abbrev column : Svts → Table → ℕ → ℤ
column s good = s.no_failure
column s poor = s.partial_failure
column s da_good = s.da_no_failure
column s da_poor = s.da_partial_failure
column s da_broken = s.da_full_failure

table_of-number : (s : Svts) (k : Table) → table_of s (number k) ≡ some (column s k)
unfolding table_of
table_of-number s good = refl
table_of-number s poor = refl
table_of-number s da_good = refl
table_of-number s da_poor = refl
table_of-number s da_broken = refl

wants-not_broken : (k : Table) (s : Standing) → wants k s ≡ true → is_broken s ≡ false
wants-not_broken k s h = ground arith

healthy-wanted : (s : Standing) → is_healthy s ≡ true → not (is_failed s) ≡ true
healthy-wanted s h = ground arith

column_at :
    {n : ℕ} {t : Tables} {σ : ℕ → Standing} (r : Represents n t σ) (k : Table) (i : ℕ)
    → column (svts_of t) k i ≡ mark (wants k (σ i))
unfolding svts_of
column_at r good i = r.no_failure_at i
column_at r poor i = r.partial_at i
column_at r da_good i = r.da_no_failure_at i
column_at r da_poor i = r.da_partial_at i
column_at r da_broken i = r.da_full_at i

is_valid-mark : (v : ℤ) (b : Bool) → v ≡ mark b → is_valid (λ i. v) 0 ≡ b
is_valid-mark v b h = ground arith

remap_cases : (s : Sent) (m : ℕ) → (remap s m ≡ m) ⊎ (remap s m ≡ 0) ⊎ (remap s m ≡ 10)
unfolding remap
remap_cases s m = ground arith

-- A mapping whose table holds one of the first `n` spines.
abbrev pub Usable : ℕ → (ℕ → Standing) → ℕ → Type 0
Usable n σ m = (k : Table) × (m ≡ number k) × (i : ℕ) × (i < n) × (wants k (σ i) ≡ true)

module _ (last : ℕ) {t : Tables} {σ : ℕ → Standing} (r : Represents (last + 1) t σ) where
  next_valid_link-Usable :
      (m link_id : ℕ)
      → Usable (last + 1) σ m
      → (l : ℕ) × (next_valid_link (svts_of t) m (last + 1) link_id ≡ some l)
        × (l < last + 1)
        × (is_broken (σ l) ≡ false)
  next_valid_link-Usable m link_id (k, e, i, lt, w) =
      let (l, eq, d, f, valid, below) =
        next_valid_link_lem (svts_of t) m last link_id i (column (svts_of t) k)
          (ap (table_of (svts_of t)) e ∙ table_of-number (svts_of t) k) lt
          (is_valid-mark _ _ (column_at r k i) ∙ w) in
      (l, eq, below, wants-not_broken k (σ l) (sym (is_valid-mark _ _ (column_at r k l)) ∙ valid))

  choose-Usable :
      (f : Flow) (draws : Draws) (spare : ℕ)
      → InRange draws
      → spare < last + 1
      → is_healthy (σ spare) ≡ true
      → Usable (last + 1) σ (choose f t draws)
  choose-Usable f draws spare ranged lt h = elim (choose_cases f t draws) [
    | inl e ↦
        let (i, below, w) =
          exists_of_count is_partial (last + 1) σ
            (rw (← r.partial_count) (choose-partial f t draws e)) in
        (poor, e, i, below, w)
    | inr (inl e) ↦ (good, e, spare, lt, healthy-wanted (σ spare) h)
    | inr (inr e) ↦ elim (choose_da_cases f t draws) [
      | inl ten ↦ (da_good, e ∙ ten, spare, lt, h)
      | inr (inl eleven) ↦
          let (i, below, w) =
            exists_of_count is_da_partial (last + 1) σ
              (rw (← r.da_partial_count) (choose_da-partial f t draws eleven)) in
          (da_poor, e ∙ eleven, i, below, w)
      | inr (inr twelve) ↦
          let (i, below, w) =
            exists_of_count is_da_full (last + 1) σ
              (rw (← r.da_full_count) (choose_da-full f t draws ranged twelve)) in
          (da_broken, e ∙ twelve, i, below, w)
    ]
  ]

  remap-Usable :
      (s : Sent) (m spare : ℕ)
      → spare < last + 1
      → is_healthy (σ spare) ≡ true
      → Usable (last + 1) σ m
      → Usable (last + 1) σ (remap s m)
  remap-Usable s m spare lt h (k, e, i, below, w) = elim (remap_cases s m) [
    | inl same ↦ (k, same ∙ e, i, below, w)
    | inr (inl zero) ↦ (good, zero, spare, lt, healthy-wanted (σ spare) h)
    | inr (inr ten) ↦ (da_good, ten, spare, lt, h)
  ]

-- The links of a sequence of flowcells exist, and hold `P`.
abbrev pub All {ℓ} : (ℕ → Type ℓ) → List ℕ → Type ℓ
All P [] = Unit
All P (l ∷ ls) = P l × All P ls

flowcells-Usable :
    (last : ℕ) {t : Tables} {σ : ℕ → Standing} (r : Represents (last + 1) t σ) (sents : List Sent)
    (m link_id spare : ℕ)
    → spare < last + 1
    → is_healthy (σ spare) ≡ true
    → Usable (last + 1) σ m
    → (ls : List ℕ) × (flowcells sents (svts_of t) (last + 1) m link_id ≡ some ls)
      × All (λ l. (l < last + 1) × (is_broken (σ l) ≡ false)) ls
unfolding flowcells spray_valid
flowcells-Usable last r [] m link_id spare lt h u = ([], refl, tt)
flowcells-Usable last r (s ∷ sents) m link_id spare lt h u =
    let mapped = remap-Usable last r s m spare lt h u in
    let (l, eq, below, whole) = next_valid_link-Usable last r (remap s m) link_id mapped in
    let (ls, rest, all) = flowcells-Usable last r sents (remap s m) l spare lt h mapped in
    (l ∷ ls, rw (eq, rest), ((below, whole), all))

All-map {ℓ κ} :
    {P : ℕ → Type ℓ} {Q : ℕ → Type κ} (f : (l : ℕ) → P l → Q l) (ls : List ℕ) → All P ls → All Q ls
All-map f [] h = tt
All-map f (l ∷ ls) (p, h) = (f l p, All-map f ls h)

-- Let each failed link stand at one of the spines, one of which has none. Then for a flow that
-- maps itself by the sorted tables, and may be remapped, each flowcell's search ends, at a spine
-- with no full failure to either leaf.
pub flowcells_lem :
    (src dest last : ℕ) (links : List FailedLink) (f : Flow) (draws : Draws) (sents : List Sent)
    (link_id spare : ℕ)
    → Within (last + 1) links
    → InRange draws
    → spare < last + 1
    → some_link any_link spare links ≡ false
    → let t : Tables = sort_links src dest links no_links in
      (ls : List ℕ) × (flowcells sents (svts_of t) (last + 1) (choose f t draws) link_id ≡ some ls)
      × All (λ l. (l < last + 1) × (some_link (direct_full_link src dest) l links ≡ false)) ls
flowcells_lem src dest last links f draws sents link_id spare w ranged lt free =
    let r = sort_links-Represents src dest (last + 1) links w in
    let healthy : is_healthy (stand src dest links all_healthy spare) ≡ true =
      stand-is_healthy src dest spare links all_healthy ∙ ap not free in
    let (ls, eq, all) =
      flowcells-Usable last r sents _ link_id spare lt healthy
        (choose-Usable last r f draws spare ranged lt healthy) in
    (
      ls,
      eq,
      All-map (λ l p. (p.0, sym (stand-is_broken src dest l links all_healthy) ∙ p.1)) ls all,
    )
