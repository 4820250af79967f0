-- ===== src/MultiPath/Rotate.antt =====
-- The search loops of the multipath classifier go round the table once, from the start on.
use native.Mathlib.Nat.{mod-add-mod, mod-eq_of_lt, mod-lt, add-mod_right}
use saps_extended.Base.{
  ℕ, zero, suc, ◌+◌, ◌-◌, ◌%◌, ◌≤◌, ◌<◌, ◌≡◌, ◌≢◌, refl, ◌∙◌, sym, ap, true, false, none, some,
  ◌==◌, arith, Bool-cases, inl, inr, ◌⊎◌,
}
use native.Mathlib.Decide.{dec_lt}
use saps_extended.Base.Circular.{mod-inj}
use saps_extended.MultiPath.{Config, slots, spray, probe}

module _ (c : Config) where
  -- the slot `d` places after `i`
  abbrev pub ahead : ℕ → ℕ → ℕ
  ahead i d = (i + d) % slots c

  ahead-next : (i d : ℕ) → ahead ((i + 1) % slots c) d ≡ ahead i (d + 1)
  ahead-next i d = mod-add-mod (i + 1) (slots c) d ∙ ap (λ k. k % slots c) (omega arith)

  ahead-zero : (i : ℕ) → i < slots c → ahead i 0 ≡ i
  ahead-zero i h = ap (λ k. k % slots c) (omega arith) ∙ mod-eq_of_lt h

  next-lt : (i : ℕ) → (i + 1) % slots c < slots c
  next-lt i = mod-lt (i + 1) (omega arith)

  -- A search from `i` has ended `d` places on, having passed unset slots only.
  pub record Found (i d : ℕ) (cl : ℕ) : Type 0 where
    pub place : cl ≡ ahead i d
    pub passed : (e : ℕ) → e < d → c.slot (ahead i e) ≡ false

  Found-here : (i : ℕ) → i < slots c → Found i 0 i
  Found-here i h = record { place = sym (ahead-zero i h); passed = λ e k. absurd (omega arith) }

  Found-next :
      (i d cl : ℕ)
      → i < slots c
      → c.slot i ≡ false
      → Found ((i + 1) % slots c) d cl
      → Found i (suc d) cl
  Found-next i d cl h dead f = record {
    place = f.place ∙ (ahead-next i d ∙ ap (ahead i) (omega arith));
    passed = passed;
  }
    where
      passed : (e : ℕ) → e < suc d → c.slot (ahead i e) ≡ false
      passed zero k = ap c.slot (ahead-zero i h) ∙ dead
      passed (suc e) k =
          ap c.slot (ap (ahead i) (omega arith) ∙ sym (ahead-next i e)) ∙ f.passed e (omega arith)

  ahead-suc : (i fuel : ℕ) → ahead i (suc fuel) ≡ ahead ((i + 1) % slots c) fuel
  ahead-suc i fuel = ap (ahead i) (omega arith) ∙ sym (ahead-next i fuel)

  -- The next slot is the end of the round in the last round only.
  last_round : (i fuel : ℕ) → suc fuel ≤ slots c → (i + 1) % slots c ≡ ahead i (suc fuel) → fuel ≡ 0
  last_round i fuel h e = omega (
    arith,
    mod-inj (slots c) (i + 1) (i + 1) (i + suc fuel) (omega arith) (omega arith) (omega arith)
        (omega arith) e,
  )

  not_last : (i fuel : ℕ) → (i + 1) % slots c ≢ ahead i (suc fuel) → 0 < fuel
  not_last i zero ne = absurd (ne refl)
  not_last i (suc fuel) ne = omega arith

  -- The loop ends at the first set slot, or with the last slot before `fail`.
  spray_lem :
      (fuel i fail : ℕ)
      → i < slots c
      → 0 < fuel
      → fuel ≤ slots c
      → fail ≡ ahead i fuel
      → (d : ℕ) × (d < fuel)
        × Found i d (spray c fuel i fail).0
        × ((spray c fuel i fail).1 ≡ ((spray c fuel i fail).0 + 1) % slots c)
        × ((c.slot (spray c fuel i fail).0 ≡ true) ⊎ (d + 1 ≡ fuel))
  unfolding spray
  spray_lem zero i fail h p b e = absurd (omega arith)
  spray_lem (suc fuel) i fail h p b e = elim (Bool-cases (c.slot i)) [
    | inl set ↦ rw set (0, omega arith, Found-here i h, refl, inl set)
    | inr dead ↦ elim (Bool-cases ((i + 1) % slots c == fail)) [
      | inl last ↦
          rw (dead, last)
            (
              0,
              omega arith,
              Found-here i h,
              refl,
              inr (omega (arith, last_round i fuel b (ground arith))),
            )
      | inr more ↦
          let (d, lt, f, nx, end) =
            spray_lem fuel ((i + 1) % slots c) fail (next-lt i)
              (not_last i fuel (λ q. ground arith)) (omega arith) (e ∙ ahead-suc i fuel) in
          let end' : (c.slot (spray c fuel ((i + 1) % slots c) fail).0 ≡ true)
              ⊎ (suc d + 1 ≡ suc fuel) =
            elim end [ inl set ↦ inl set | inr whole ↦ inr (omega arith) ] in
          rw (dead, more) (suc d, omega arith, Found-next i d _ h dead f, nx, end')
    ]
  ]

  -- Every slot is some places ahead of any other.
  pub places : (i j : ℕ) → i < slots c → j < slots c → (d : ℕ) × (d < slots c) × (ahead i d ≡ j)
  places i j h k = elim (dec_lt j i) [
    | yes below ↦ (
      j + slots c - i,
      omega arith,
      ap (λ t. t % slots c) (omega arith) ∙ (add-mod_right j (slots c) ∙ mod-eq_of_lt k),
    )
    | no above ↦ (j - i, omega arith, ap (λ t. t % slots c) (omega arith) ∙ mod-eq_of_lt k)
  ]

  -- A whole round finds a set slot if there is one.
  Found-whole :
      (i d cl j : ℕ)
      → i < slots c
      → Found i d cl
      → d + 1 ≡ slots c
      → j < slots c
      → c.slot j ≡ true
      → c.slot cl ≡ true
  Found-whole i d cl j h f whole k set =
      let (m, lt, at) = places i j h k in
      elim (dec_lt m d) [
        | yes early ↦ ground (arith, f.passed m early)
        | no late ↦ ap c.slot (f.place ∙ (ap (ahead i) (omega arith) ∙ at)) ∙ set
      ]

  -- If ns_ and a set slot lie in the table, packet spraying takes the first set slot from ns_ on,
  -- round the table, and leaves ns_ at the slot after it.
  pub spray_round :
      (ns j : ℕ)
      → ns < slots c
      → j < slots c
      → c.slot j ≡ true
      → let (cl, ns') = spray c (slots c) ns ns in
        (d : ℕ) × Found ns d cl × (c.slot cl ≡ true) × (cl < slots c) × (ns' ≡ (cl + 1) % slots c)
  spray_round ns j h k set =
      let (d, lt, f, nx, end) =
        spray_lem (slots c) ns ns h (omega arith) (omega arith)
          (sym (add-mod_right ns (slots c) ∙ mod-eq_of_lt h)) in
      let live : c.slot (spray c (slots c) ns ns).0 ≡ true = elim end [
        | inl here ↦ here
        | inr whole ↦ Found-whole ns d _ j h f whole k set
      ] in
      (d, f, live, rw f.place (mod-lt (ns + d) (omega arith)), nx)

  -- With a set slot among the next ones the probe ends at the first.
  pub probe_lem :
      (fuel i m : ℕ)
      → i < slots c
      → m < fuel
      → c.slot (ahead i m) ≡ true
      → (cl : ℕ) × (probe c fuel i ≡ some cl) × (d : ℕ) × Found i d cl × (c.slot cl ≡ true)
  unfolding probe
  probe_lem zero i m h p set = absurd (omega arith)
  probe_lem (suc fuel) i zero h p set =
      let here : c.slot i ≡ true = ap c.slot (sym (ahead-zero i h)) ∙ set in
      (i, rw here, 0, Found-here i h, here)
  probe_lem (suc fuel) i (suc m) h p set = elim (Bool-cases (c.slot i)) [
    | inl here ↦ (i, rw here, 0, Found-here i h, here)
    | inr dead ↦
        let (cl, eq, d, f, live) =
          probe_lem fuel ((i + 1) % slots c) m (next-lt i) (omega arith)
            (ap c.slot (sym (ahead-suc i m)) ∙ set) in
        (cl, rw dead eq, suc d, Found-next i d cl h dead f, live)
  ]

  -- On a table with no set slot the probe does not end, whatever the fuel.
  pub probe_dead : (fuel i : ℕ) → ((j : ℕ) → c.slot j ≡ false) → probe c fuel i ≡ none
  unfolding probe
  probe_dead zero i dead = refl
  probe_dead (suc fuel) i dead = rw (dead i) (probe_dead fuel ((i + 1) % slots c) dead)

  -- If the start and a set slot lie in the table, the probe ends within one round over the table,
  -- at the first set slot from the start on.
  pub probe_round :
      (i j : ℕ)
      → i < slots c
      → j < slots c
      → c.slot j ≡ true
      → (cl : ℕ) × (probe c (slots c) i ≡ some cl)
        × (d : ℕ) × Found i d cl
        × (c.slot cl ≡ true)
        × (cl < slots c)
  probe_round i j h k set =
      let (m, lt, at) = places i j h k in
      let (cl, eq, d, f, live) = probe_lem (slots c) i m h lt (ap c.slot at ∙ set) in
      (cl, eq, d, f, live, rw f.place (mod-lt (i + d) (omega arith)))
