-- ===== src/Simulator/Hier.antt =====
-- `populate_hier_classifiers` and `node_id_by_addr` of common/simulator.cc. An address that is
-- printed level by level, up to a level and with a last number, is the list of these numbers.
pub mod Reads
use saps_extended.Base.{
  ℕ, zero, suc, ◌+◌, ◌-◌, ◌<◌, ◌≤◌, ◌≡◌, refl, sym, ◌∙◌, ap, List, [], ◌∷◌, ◌++◌, Bool, true, false,
  Option, none, some, ltb, ◌==◌, if◌then◌else◌, arith, Bool-cases, inl, inr, ◌≢◌,
}
use saps_extended.Base.Int.{ℤ, pos, negsuc, eqb_ℤ}
use native.Mathlib.Decide.{dec_lt}
use saps_extended.Simulator.Nodes.{IsNodeList, held, check-Roomy}
use saps_extended.Simulator.{NodeList, node_at, check}

-- What is done to the node `src`: the size of its table at a level, and a route to an address.
pub data HierSetup : Type 0 where
  level_size : (src level size : ℕ) → HierSetup
  hier_route : (src : ℕ) (dest : List ℕ) (next_hop : ℕ) → HierSetup

-- The nodes, the address scheme and the route logic.
pub record World (A : Type 0) : Type 0 where
  pub address : A → ℤ
  pub nodeid : A → ℕ
  pub levels : ℕ
  pub hier_addr : ℤ → ℕ → ℕ
  pub elements_in_level : ℤ → ℕ → ℕ
  pub lookup_hier : ℤ → List ℕ → ℤ

-- The results of two steps, if neither of them reads through a NULL pointer.
pub both : {E : Type 0} → Option (List E) → Option (List E) → Option (List E)
both none ys = none
both (some xs) none = none
both (some xs) (some ys) = some (xs ++ ys)

module _ {A : Type 0} (w : World A) where
  -- One round of the loop of `node_id_by_addr`, with what the later rounds give: `none` at a NULL
  -- pointer.
  pub id_at : Option A → ℤ → Option ℤ → Option ℤ
  id_at none address rest = none
  id_at (some node) address rest =
      if eqb_ℤ (w.address node) address then some (pos (w.nodeid node)) else rest

  -- `for (i = i; i < nn_; i++)` with `k` rounds left; -1 if no node has the address
  pub id_from : NodeList A → ℕ → ℕ → ℤ → Option ℤ
  id_from s zero i address = some (negsuc 0)
  id_from s (suc k) i address = id_at (node_at s i) address (id_from s k (i + 1) address)

  -- `append_addr`: the numbers of the address from level `l` on, for `n` levels.
  pub prefix_of : ℤ → ℕ → ℕ → List ℕ
  prefix_of a zero l = []
  prefix_of a (suc n) l = w.hier_addr a l ∷ prefix_of a n (l + 1)

  -- `if (n_id >= 0) …`
  pub link_to : ℕ → List ℕ → Option ℤ → Option (List HierSetup)
  link_to i dest none = none
  link_to i dest (some (pos id)) = some (hier_route i dest id ∷ [])
  link_to i dest (some (negsuc k)) = some []

  -- One round of the loop over the elements of level `k`, for node `i` with address `a`.
  pub element : NodeList A → ℕ → ℕ → ℤ → ℕ → ℕ → Option (List HierSetup)
  element s nn i a k m =
      let dest = prefix_of a (k - 1) 1 ++ (m ∷ []) in
      let nh = w.lookup_hier a dest in
      if m == w.hier_addr a k
      then some []
      else if eqb_ℤ nh (negsuc 0)
      then some []
      else link_to i dest (id_from s nn 0 nh)

  -- `for (m = m; m < csize; m++)` with `n` rounds left
  pub elements : NodeList A → ℕ → ℕ → ℤ → ℕ → ℕ → ℕ → Option (List HierSetup)
  elements s nn i a k zero m = some []
  elements s nn i a k (suc n) m = both (element s nn i a k m) (elements s nn i a k n (m + 1))

  -- `for (k = k; k <= levels; k++)` with `n` rounds left
  pub levels_from : NodeList A → ℕ → ℕ → ℤ → ℕ → ℕ → Option (List HierSetup)
  levels_from s nn i a zero k = some []
  levels_from s nn i a (suc n) k =
      let csize = w.elements_in_level a k in
      both (some (level_size i k csize ∷ []))
        (both (elements s nn i a k csize 0) (levels_from s nn i a n (k + 1)))

  -- One round of the loop over the nodes, with what the later rounds give in the two cases.
  pub node_round :
      NodeList A
      → ℕ
      → ℕ
      → Option A
      → Option (List HierSetup)
      → Option (List HierSetup)
      → Option (List HierSetup)
  node_round s nn i none skipped next = skipped
  node_round s nn i (some node) skipped next =
      both (levels_from s nn i (w.address node) w.levels 1) next

  -- `for (i = i; i < nn_; i++)` on fuel; `i++; continue;` goes on two entries further
  pub hier_loop : ℕ → NodeList A → ℕ → ℕ → Option (List HierSetup)
  hier_loop zero s nn i = some []
  hier_loop (suc fuel) s nn i =
      let skipped = hier_loop fuel s nn (i + 1 + 1) in
      let next = hier_loop fuel s nn (i + 1) in
      if ltb i nn then node_round s nn i (node_at s i) skipped next else some []

  -- `populate_hier_classifiers`: what is done to the nodes, in order; `none` if it reads through a
  -- NULL pointer
  pub populate_hier : ℕ → ℕ → NodeList A → Option (List HierSetup)
  populate_hier small_len nn s = hier_loop nn (check small_len nn s) nn 0
