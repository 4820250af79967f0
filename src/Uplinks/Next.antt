-- ===== src/Uplinks/Next.antt =====
-- `nextValidLink` goes round the links as the classifier's probe goes round its slots.
use native.Mathlib.Nat.{mod-lt}
use saps_extended.Base.{
  ℕ, zero, suc, ◌+◌, ◌%◌, ◌<◌, ◌≡◌, refl, ◌∙◌, ap, Bool, true, false, not, some, arith, Bool-cases,
  inl, inr,
}
use saps_extended.Base.Int.{ℤ, negsuc, eqb_ℤ}
use saps_extended.MultiPath.{Config, probe}
use saps_extended.MultiPath.Rotate.{Found, probe_round}
use saps_extended.Uplinks.{Svts, table_of, skip_invalid, skip_in, next_valid_link}

-- The link is in the table.
abbrev pub is_valid : (ℕ → ℤ) → ℕ → Bool
is_valid svt i = not (eqb_ℤ (svt i) (negsuc 0))

-- A classifier whose slots are the links, and set if they are valid; `last` is the last link.
abbrev pub links : (ℕ → ℤ) → ℕ → Config
links svt last = record {
  perflow = 0;
  packet_spraying = false;
  flowcell_spraying = false;
  selective_spraying = false;
  k = 0;
  failure_case = 0;
  maxslot = last;
  slot = is_valid svt;
}

skip_invalid-probe :
    (fuel : ℕ) (svt : ℕ → ℤ) (last i : ℕ)
    → skip_invalid fuel (last + 1) svt i ≡ probe (links svt last) fuel i
unfolding skip_invalid probe
skip_invalid-probe zero svt last i = refl
skip_invalid-probe (suc fuel) svt last i = elim (Bool-cases (eqb_ℤ (svt i) (negsuc 0))) [
  | inl invalid ↦ rw invalid (skip_invalid-probe fuel svt last ((i + 1) % (last + 1)))
  | inr valid ↦ rw valid
]

-- With a valid link in the table that the flow is mapped to, nextValidLink ends within one round
-- over the links, at the first valid link after the current one.
pub next_valid_link_lem :
    (s : Svts) (mapping last link_id j : ℕ) (svt : ℕ → ℤ)
    → table_of s mapping ≡ some svt
    → j < last + 1
    → is_valid svt j ≡ true
    → (l : ℕ) × (next_valid_link s mapping (last + 1) link_id ≡ some l)
      × (d : ℕ) × Found (links svt last) ((link_id + 1) % (last + 1)) d l
      × (is_valid svt l ≡ true)
      × (l < last + 1)
unfolding next_valid_link skip_in
next_valid_link_lem s mapping last link_id j svt mapped h valid =
    let (l, eq, d, f, live, lt) =
      probe_round (links svt last) ((link_id + 1) % (last + 1)) j
        (mod-lt (link_id + 1) {m = last + 1} (omega arith)) h valid in
    (
      l,
      ap (λ t. skip_in t (last + 1) ((link_id + 1) % (last + 1))) mapped
          ∙ (skip_invalid-probe (last + 1) svt last ((link_id + 1) % (last + 1)) ∙ eq),
      d,
      f,
      live,
      lt,
    )
