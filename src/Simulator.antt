-- ===== src/Simulator.antt =====
-- `class Simulator` of common/simulator.cc: the table of nodes, the routes put into the nodes'
-- classifiers, and the traffic counts of the leaf switches.
-- A node is any object, `A`. Node and leaf numbers are not negative. `SMALL_LEN`, the route logic
-- and the links are not part of the repository: arguments.
pub mod Nodes
pub mod Tables
pub mod Routes
pub mod Leaves
pub mod Hier
mod Tests
use saps_extended.Base.{
  ℕ, zero, suc, ◌+◌, ◌*◌, ◌%◌, ◌^◌, List, [], ◌∷◌, ◌++◌, Bool, true, false, not, ◌&&◌, ◌||◌, Option,
  none, some, ltb, leb, ◌==◌, if◌then◌else◌, get_or, set, replicate,
}
use saps_extended.Base.Int.{ℤ, pos, negsuc}

-- `nodelist_` and `size_`. The array is `none` as long as the pointer is NULL.
pub record NodeList (A : Type 0) : Type 0 where
  pub nodelist : Option (List (Option A))
  pub size : ℕ

-- `while (m <= n) m <<= 1;` on fuel
pub double_past : ℕ → ℕ → ℕ → ℕ
double_past zero m n = m
double_past (suc fuel) m n = let rest = double_past fuel (m * 2) n in if leb m n then rest else m

-- What is done to the node `src`: `set_table_size`, and `add_route`, which gives it the link to
-- `next_hop` for the destination `dest`.
pub data Setup : Type 0 where
  table_size : (src size : ℕ) → Setup
  add_route : (src dest next_hop : ℕ) → Setup

-- `if (nh >= 0) …`
pub hop : ℤ → ℕ → ℕ → List Setup
hop (pos nh) i j = add_route i j nh ∷ []
hop (negsuc k) i j = []

-- The route from `i` to `j`, if the route logic knows one.
pub route_to : (ℕ → ℕ → ℤ) → ℕ → ℕ → List Setup
route_to lookup_flat i j = if i == j then [] else hop (lookup_flat i j) i j

-- `for (j = j; j < nn_; j++)` with `k` rounds left
pub routes_from : (ℕ → ℕ → ℤ) → ℕ → ℕ → ℕ → List Setup
routes_from lookup_flat i zero j = []
routes_from lookup_flat i (suc k) j =
    route_to lookup_flat i j ++ routes_from lookup_flat i k (j + 1)

module _ {A : Type 0} where
  -- The array behind the pointer.
  abbrev pub entries : Option (List (Option A)) → List (Option A)
  entries none = []
  entries (some xs) = xs

  -- nodelist_[i]
  abbrev pub node_at : NodeList A → ℕ → Option A
  node_at s i = get_or (entries s.nodelist) i none

  pub alloc : ℕ → NodeList A
  alloc n = record { nodelist = some (replicate n none); size = n }

  -- `for (i = i; …; i++) nodelist_[i] = old[i];` with `k` rounds left
  pub copy_nodes : ℕ → ℕ → List (Option A) → List (Option A) → List (Option A)
  copy_nodes zero i old new = new
  copy_nodes (suc k) i old new = copy_nodes k (i + 1) old (set new i (get_or old i none))

  -- `check`, which makes room for entry `n`.
  pub check : ℕ → ℕ → NodeList A → NodeList A
  check small_len n s =
      let m = double_past (n + 1) (if s.size == 0 then small_len else s.size) n in
      let fresh : NodeList A = alloc m in
      if ltb n s.size then s else record fresh {
        nodelist = some (copy_nodes s.size 0 (entries s.nodelist) (entries fresh.nodelist));
      }

  -- A first array has `SMALL_LEN` entries with whatever the memory held, `junk`.
  pub array_or : List (Option A) → Option (List (Option A)) → List (Option A)
  array_or junk none = junk
  array_or junk (some xs) = xs

  -- `add_node`
  pub add_node : List (Option A) → ℕ → A → ℕ → NodeList A → NodeList A
  add_node junk small_len node id s =
      let roomy = check small_len id (record s { nodelist = some (array_or junk s.nodelist) }) in
      record roomy { nodelist = some (set (entries roomy.nodelist) id (some node)) }

  -- `if (nodelist_[i] == NULL) { …; continue; }`, with what follows in the two cases
  pub unless_null : Option A → List Setup → List Setup → List Setup
  unless_null none skipped visited = skipped
  unless_null (some node) skipped visited = visited

  -- `for (i = i; i < nn_; i++)` of `populate_flat_classifiers`, on fuel: `i++; continue;` at an
  -- entry without a node goes on two entries further.
  pub populate : ℕ → (ℕ → ℕ → ℤ) → NodeList A → ℕ → ℕ → List Setup
  populate zero lookup_flat s nn i = []
  populate (suc fuel) lookup_flat s nn i =
      let skipped = populate fuel lookup_flat s nn (i + 1 + 1) in
      let next = populate fuel lookup_flat s nn (i + 1) in
      if ltb i nn
      then unless_null (node_at s i) skipped
          ((table_size i nn ∷ routes_from lookup_flat i nn 0) ++ next)
      else []

  -- `populate_flat_classifiers`: what is done to the nodes, in order.
  pub populate_flat : (ℕ → ℕ → ℤ) → ℕ → ℕ → NodeList A → List Setup
  populate_flat lookup_flat small_len nn s = elim s.nodelist [
    | none ↦ []
    | some xs ↦ populate nn lookup_flat (check small_len nn s) nn 0
  ]

-- `incomingTrafficPerLeaf` and `numLeafs_`. A count is an `int` of 32 bits in two's complement.
pub record Traffic : Type 0 where
  pub num_leafs : ℕ
  pub counts : ℕ → ℕ → ℕ

-- `initializeIncomingTrafficPerLeaf`
pub initialize : ℕ → Traffic
initialize n = record { num_leafs = n; counts = λ i j. 0 }

-- `updateIncomingTrafficMatrix`
pub update : Traffic → ℕ → ℕ → ℕ → Traffic
update t src dest change =
    if ltb src t.num_leafs && ltb dest t.num_leafs
    then record t {
      counts = λ i j.
          if i == src && j == dest then (t.counts src dest + change) % 2 ^ 32 else t.counts i j;
    }
    else t

-- `for (i = i; i < numLeafs_; i++)` with `k` rounds left
pub sum_others : Traffic → ℕ → ℕ → ℕ → ℕ → ℕ → ℕ
sum_others t src dest zero i count = count
sum_others t src dest (suc k) i count =
    sum_others t src dest k (i + 1)
      (if not (i == src) && not (i == dest) then (count + t.counts i dest) % 2 ^ 32 else count)

-- `getIncomingTrafficToLeaf`
pub incoming : Traffic → ℕ → ℕ → ℕ
incoming t src dest =
    if ltb src t.num_leafs && ltb dest t.num_leafs then sum_others t src dest t.num_leafs 0 0 else 0
