-- ===== src/Simulator/Hier/Reads.antt =====
-- The pointers that `populate_hier_classifiers` and `node_id_by_addr` read through.
use saps_extended.Base.{
  ℕ, zero, suc, ◌+◌, ◌-◌, ◌<◌, ◌≤◌, ◌≡◌, refl, sym, ◌∙◌, ap, List, [], ◌∷◌, ◌++◌, Bool, true, false,
  Option, none, some, ltb, ◌==◌, arith, Bool-cases, inl, inr, ◌≢◌,
}
use saps_extended.Base.Int.{ℤ, pos, negsuc, eqb_ℤ}
use native.Mathlib.Decide.{dec_lt}
use saps_extended.Simulator.Nodes.{IsNodeList, held, check-Roomy}
use saps_extended.Simulator.{NodeList, node_at, check}
use saps_extended.Simulator.Hier.{
  HierSetup, hier_route, World, both, id_at, id_from, prefix_of, link_to, element, elements,
  levels_from, node_round, hier_loop, populate_hier,
}

is_some : {A : Type 0} → Option A → Bool
is_some none = false
is_some (some a) = true

some_ne_none : {A : Type 0} (a : A) → some a ≢ none
unfolding is_some
some_ne_none a e = absurd (let t : true ≡ false = ap is_some e in ground arith)

-- There is a result.
abbrev pub Ends : {E : Type 0} → Option E → Type 0
Ends {E} o = (out : E) × (o ≡ some out)

both-Ends : {E : Type 0} (xs ys : Option (List E)) → Ends xs → Ends ys → Ends (both xs ys)
unfolding both
both-Ends none ys (out, e) f = absurd (some_ne_none out (sym e))
both-Ends (some xs) none e (out, f) = absurd (some_ne_none out (sym f))
both-Ends (some xs) (some ys) e f = (xs ++ ys, refl)

module _ {A : Type 0} (w : World A) where
  -- node_id_by_addr reads through a NULL pointer if a number without a node comes before every
  -- node with the address.
  pub id_hole :
      (s : NodeList A) (k i h : ℕ) (address : ℤ)
      → i ≤ h
      → h < i + k
      → node_at s h ≡ none
      → ((j : ℕ) (node : A)
          → i ≤ j
          → j < h
          → node_at s j ≡ some node
          → eqb_ℤ (w.address node) address ≡ false)
      → id_from w s k i address ≡ none
  unfolding id_from id_at
  id_hole s zero i h address p q hole other = absurd (omega arith)
  id_hole s (suc k) i h address p q hole other = go (node_at s i) refl (λ before.
      id_hole s k (i + 1) h address before (omega arith) hole (λ j n a. other j n (omega arith)))
    where
      go :
          (o : Option A)
          → node_at s i ≡ o
          → (i + 1 ≤ h → id_from w s k (i + 1) address ≡ none)
          → id_at w o address (id_from w s k (i + 1) address) ≡ none
      go none e later = refl
      go (some node) e later = elim (dec_lt i h) [
        | yes before ↦ rw (other i node (omega arith) before e) (later (omega arith))
        | no at ↦ absurd (
            some_ne_none node
              (sym e ∙ (ap (node_at s) (let ih : i ≡ h = omega arith in ih) ∙ hole)))
      ]

  module _ (s : NodeList A) (nn : ℕ)
      (full : (j : ℕ) → j < nn → (node : A) × (node_at s j ≡ some node)) where
    id_from-Ends : (k i : ℕ) (address : ℤ) → i + k ≤ nn → Ends (id_from w s k i address)
    unfolding id_from id_at
    id_from-Ends zero i address h = (negsuc 0, refl)
    id_from-Ends (suc k) i address h =
        let (node, e) = full i (omega arith) in
        let (z, rest) = id_from-Ends k (i + 1) address (omega arith) in
        elim (Bool-cases (eqb_ℤ (w.address node) address)) [
          | inl found ↦ (pos (w.nodeid node), rw (e, found))
          | inr other ↦ (z, rw (e, other) rest)
        ]

    link_to-Ends : (i : ℕ) (dest : List ℕ) (id : Option ℤ) → Ends id → Ends (link_to w i dest id)
    unfolding link_to
    link_to-Ends i dest none (z, e) = absurd (some_ne_none z (sym e))
    link_to-Ends i dest (some (pos id)) e = (hier_route i dest id ∷ [], refl)
    link_to-Ends i dest (some (negsuc k)) e = ([], refl)

    element-Ends : (i : ℕ) (a : ℤ) (k m : ℕ) → Ends (element w s nn i a k m)
    unfolding element
    element-Ends i a k m = elim (Bool-cases (m == w.hier_addr a k)) [
      | inl own ↦ ([], rw own)
      | inr foreign ↦
          elim (Bool-cases
            (eqb_ℤ (w.lookup_hier a (prefix_of w a (k - 1) 1 ++ (m ∷ []))) (negsuc 0))) [
              | inl unknown ↦ ([], rw (foreign, unknown))
              | inr known ↦
                  let (out, e) = link_to-Ends i (prefix_of w a (k - 1) 1 ++ (m ∷ [])) _ (
                    id_from-Ends nn 0 (w.lookup_hier a (prefix_of w a (k - 1) 1 ++ (m ∷ [])))
                      (omega arith)) in
                  (out, rw (foreign, known) e)
            ]
    ]

    elements-Ends : (i : ℕ) (a : ℤ) (k n m : ℕ) → Ends (elements w s nn i a k n m)
    unfolding elements
    elements-Ends i a k zero m = ([], refl)
    elements-Ends i a k (suc n) m =
        both-Ends _ _ (element-Ends i a k m) (elements-Ends i a k n (m + 1))

    levels_from-Ends : (i : ℕ) (a : ℤ) (n k : ℕ) → Ends (levels_from w s nn i a n k)
    unfolding levels_from
    levels_from-Ends i a zero k = ([], refl)
    levels_from-Ends i a (suc n) k =
        both-Ends _ _ (_, refl)
          (both-Ends _ _ (elements-Ends i a k (w.elements_in_level a k) 0)
            (levels_from-Ends i a n (k + 1)))

    hier_loop-Ends : (fuel i : ℕ) → Ends (hier_loop w fuel s nn i)
    unfolding hier_loop node_round
    hier_loop-Ends zero i = ([], refl)
    hier_loop-Ends (suc fuel) i = elim (Bool-cases (ltb i nn)) [
      | inr out ↦ ([], rw out)
      | inl inside ↦
          let (node, e) = full i (ground arith) in
          let (out, f) =
            round i node (hier_loop w fuel s nn (i + 1 + 1)) (hier_loop w fuel s nn (i + 1))
              (hier_loop-Ends fuel (i + 1)) in
          (out, rw (inside, e) f)
    ]
      where
        round :
            (i : ℕ) (node : A) (skipped next : Option (List HierSetup))
            → Ends next
            → Ends (node_round w s nn i (some node) skipped next)
        round i node skipped next e =
            both-Ends _ _ (levels_from-Ends i (w.address node) w.levels 1) e

  -- Where SMALL_LEN is not 0, the array has at least the entries that size_ counts, and there is
  -- a node at every number below nn_, populate_hier_classifiers reads through no NULL pointer.
  pub populate_hier_full :
      (small_len nn : ℕ) (s : NodeList A)
      → 0 < small_len
      → IsNodeList s
      → ((j : ℕ) → j < nn → (node : A) × (held s j ≡ some node))
      → Ends (populate_hier w small_len nn s)
  unfolding populate_hier
  populate_hier_full small_len nn s p v full =
      let r = check-Roomy small_len nn s p v in
      hier_loop-Ends (check small_len nn s) nn
        (λ j h. let (node, at) = full j h in (node, ground (arith, at, r.same j, r.fits))) nn 0
