-- ===== src/MultiPath/Failures.antt =====
-- The two searches that stop short: selective spraying never tries the slot before its start, and
-- flowcell spraying for a full failure skips slot 0 when it starts from the last slot.
use native.Mathlib.Nat.{mod-lt, mod-eq_of_lt, add-mod_left}
use saps_extended.Base.{
  ℕ, zero, suc, ◌+◌, ◌-◌, ◌%◌, ◌≤◌, ◌<◌, ◌≡◌, ◌≢◌, ◌∙◌, ap, true, false, not, ◌&&◌, ◌==◌, arith,
  if◌then◌else◌, Bool-cases, inl, inr,
}
use saps_extended.MultiPath.{Config, Header, slots, search_from, selective, flowcell_full}

module _ (c : Config) where
  -- The slot before `i` in the order of the search.
  abbrev pub before : ℕ → ℕ
  before i = if i == 0 then c.maxslot else i - 1

  search_from-lt :
      (fuel cl ns fail : ℕ)
      → cl < slots c
      → ns < slots c
      → (search_from c fuel cl ns fail).0 < slots c
  unfolding search_from
  search_from-lt zero cl ns fail h k = h
  search_from-lt (suc fuel) cl ns fail h k = ground (
    arith,
    search_from-lt fuel ns ((ns + 1) % slots c) fail k,
    mod-lt (ns + 1) {m = slots c} (omega arith),
  )

  -- The slot at which the search is to stop is never tried.
  search_from-ne-fail : (fuel cl ns fail : ℕ) → cl ≢ fail → (search_from c fuel cl ns fail).0 ≢ fail
  unfolding search_from
  search_from-ne-fail zero cl ns fail h = h
  search_from-ne-fail (suc fuel) cl ns fail h =
      elim (Bool-cases (not (c.slot cl) && not (ns == fail))) [
        | inl on ↦ rw on (search_from-ne-fail fuel ns ((ns + 1) % slots c) fail (λ e. ground arith))
        | inr stop ↦ rw stop h
      ]

  -- When only the slot before the packet's link is set, in a table of two slots or more that has
  -- the link, selective spraying answers with a slot of the table that is not set.
  pub selective_misses :
      (h : Header)
      → h.link_id < slots c
      → 2 ≤ slots c
      → ((i : ℕ) → i < slots c → c.slot i ≡ (i == before h.link_id))
      → ((selective c h).0 < slots c) × (c.slot (selective c h).0 ≡ false)
  unfolding selective
  selective_misses h k n only = (lt, only _ lt ∙ ground (arith, missed))
    where
      lt : (search_from c (slots c + 1) h.link_id h.link_id (before h.link_id)).0 < slots c
      lt = search_from-lt (slots c + 1) h.link_id h.link_id (before h.link_id) k k

      missed :
          (search_from c (slots c + 1) h.link_id h.link_id (before h.link_id)).0 ≢ before h.link_id
      missed =
          search_from-ne-fail (slots c + 1) h.link_id h.link_id (before h.link_id) (ground arith)

  inner_next : (ns : ℕ) → ns < c.maxslot → (ns + 1) % slots c ≡ ns + 1
  inner_next ns h = mod-eq_of_lt (omega arith)

  -- From slot 1 on the search ends before it comes round to slot 0.
  search_from-ne-zero :
      (fuel cl ns : ℕ)
      → cl ≢ 0
      → 0 < ns
      → ns ≤ c.maxslot
      → (search_from c fuel cl ns c.maxslot).0 ≢ 0
  unfolding search_from
  search_from-ne-zero zero cl ns h p q = h
  search_from-ne-zero (suc fuel) cl ns h p q =
      elim (Bool-cases (not (c.slot cl) && not (ns == c.maxslot))) [
        | inl on ↦ rw on (
            search_from-ne-zero fuel ns ((ns + 1) % slots c) (omega arith)
              (omega (arith, inner_next ns (ground arith)))
              (omega (arith, inner_next ns (ground arith))))
        | inr stop ↦ rw stop h
      ]

  wrapped_next : 1 ≤ c.maxslot → (c.maxslot + 1 + 1) % slots c ≡ 1
  wrapped_next h = add-mod_left (slots c) 1 ∙ mod-eq_of_lt (omega arith)

  -- The first two rounds: the last slot, then the entry past the table, then slot 1.
  past_the_end :
      (fuel : ℕ)
      → 1 ≤ c.maxslot
      → c.slot c.maxslot ≡ false
      → (search_from c (suc fuel) c.maxslot (c.maxslot + 1) c.maxslot).0 ≢ 0
  unfolding search_from
  past_the_end fuel n dead =
      let on : (not (c.slot c.maxslot) && not (c.maxslot + 1 == c.maxslot)) ≡ true = ground arith in
      rw (on, wrapped_next n)
        (search_from-ne-zero fuel (c.maxslot + 1) 1 (omega arith) (omega arith) n)

  -- When only slot 0 is set and the packet's link is the last slot, in a table of two slots or
  -- more, flowcell spraying for a full failure answers with a slot that is not set.
  pub flowcell_full_misses :
      (h : Header)
      → h.link_id ≡ c.maxslot
      → 1 ≤ c.maxslot
      → ((i : ℕ) → c.slot i ≡ (i == 0))
      → c.slot (flowcell_full c h).0 ≡ false
  unfolding flowcell_full
  flowcell_full_misses h e n only = only _ ∙ ground (arith, missed)
    where
      whole :
          search_from c (slots c + 1) h.link_id (h.link_id + 1) h.link_id
          ≡ search_from c (suc (slots c)) c.maxslot (c.maxslot + 1) c.maxslot
      whole =
          ap (λ l. search_from c (slots c + 1) l (l + 1) l) e
          ∙ ap (λ f. search_from c f c.maxslot (c.maxslot + 1) c.maxslot) (omega arith)

      missed : (search_from c (slots c + 1) h.link_id (h.link_id + 1) h.link_id).0 ≢ 0
      missed = rw whole (past_the_end (slots c) n (only c.maxslot ∙ ground arith))
