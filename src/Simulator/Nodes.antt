-- ===== src/Simulator/Nodes.antt =====
-- The table of nodes grows as nodes are added and forgets none.
use saps_extended.Base.{
  ℕ, zero, suc, ◌+◌, ◌*◌, ◌≤◌, ◌<◌, ◌≡◌, refl, ◌∙◌, ap, List, ◌&&◌, Option, none, some, ltb, leb,
  ◌==◌, if◌then◌else◌, length, get_or, set, replicate, arith, Bool-cases, inl, inr, length-set,
  length-replicate, get_or-replicate, get_or-set_self, get_or-set_ne,
}
use saps_extended.Simulator.{
  NodeList, entries, node_at, alloc, double_past, copy_nodes, check, array_or, add_node,
}

double_past_lem :
    (fuel m n : ℕ) → 0 < m → n < m + fuel → (n < double_past fuel m n) × (m ≤ double_past fuel m n)
unfolding double_past
double_past_lem zero m n p h = (omega arith, omega arith)
double_past_lem (suc fuel) m n p h =
    ground (arith, double_past_lem fuel (m * 2) n (omega arith) (omega arith))

module _ {A : Type 0} where
  -- The array has at least the entries that `size_` counts.
  pub record IsNodeList (s : NodeList A) : Type 0 where
    pub room : s.size ≤ length (entries s.nodelist)

  -- The node with number `i`; past `size_` there is none, whatever the memory holds.
  abbrev pub held : NodeList A → ℕ → Option A
  held s i = if ltb i s.size then node_at s i else none

  length-copy_nodes :
      (k i : ℕ) (old new : List (Option A)) → length (copy_nodes k i old new) ≡ length new
  unfolding copy_nodes
  length-copy_nodes zero i old new = refl
  length-copy_nodes (suc k) i old new = length-copy_nodes k (i + 1) old _ ∙ length-set new i _

  get_or-copy_nodes :
      (k i j : ℕ) (old new : List (Option A))
      → i + k ≤ length new
      → get_or (copy_nodes k i old new) j none
        ≡ (if leb i j && ltb j (i + k) then get_or old j none else get_or new j none)
  unfolding copy_nodes
  get_or-copy_nodes zero i j old new h = ground arith
  get_or-copy_nodes (suc k) i j old new h = ground (
    arith,
    get_or-copy_nodes k (i + 1) j old (set new i (get_or old i none))
        (omega (arith, length-set new i (get_or old i none))),
    get_or-set_self new i (get_or old i none) none,
    get_or-set_ne new i j (get_or old i none) none,
  )

  -- There is room for entry `n`, and what was counted is still there.
  pub record Roomy (n : ℕ) (s r : NodeList A) : Type 0 where
    pub room : IsNodeList r
    pub fits : n < r.size
    pub same : (i : ℕ) → held r i ≡ held s i

  grown-Roomy :
      (n m : ℕ) (s : NodeList A)
      → n < m
      → s.size ≤ m
      → Roomy n s (record {
        nodelist = some (copy_nodes s.size 0 (entries s.nodelist) (replicate m none));
        size = m;
      })
  grown-Roomy n m s h k = record {
    room = record {
      room = omega (
        arith,
        length-copy_nodes s.size 0 (entries s.nodelist) (replicate m none),
        length-replicate {A = Option A} m none,
      );
    };
    fits = h;
    same = λ i. ground (
      arith,
      get_or-copy_nodes s.size 0 i (entries s.nodelist) (replicate m none)
          (omega (arith, length-replicate {A = Option A} m none)),
      get_or-replicate {A = Option A} m i none,
    );
  }

  pub check-Roomy :
      (small_len n : ℕ) (s : NodeList A)
      → 0 < small_len
      → IsNodeList s
      → Roomy n s (check small_len n s)
  unfolding check alloc
  check-Roomy small_len n s p v = elim (Bool-cases (ltb n s.size)) [
    | inl enough ↦ rw enough record { room = v; fits = ground arith; same = λ i. refl }
    | inr small ↦
        let d =
          double_past_lem (n + 1) (if s.size == 0 then small_len else s.size) n (ground arith)
            (ground arith) in
        rw small (grown-Roomy n _ s d.0 (ground (arith, d.1)))
  ]

  array_or_lem :
      (junk : List (Option A)) (o : Option (List (Option A))) (n : ℕ)
      → n ≤ length (entries o)
      → (n ≤ length (array_or junk o))
        × ((i : ℕ)
            → (if ltb i n then get_or (array_or junk o) i none else none)
              ≡ (if ltb i n then get_or (entries o) i none else none))
  unfolding array_or
  array_or_lem junk none n h = (omega arith, λ i. ground arith)
  array_or_lem junk (some xs) n h = (h, λ i. refl)

  set-Roomy :
      (node : A) (id : ℕ) (s r : NodeList A)
      → Roomy id s r
      → let t : NodeList A = record r {
        nodelist = some (set (entries r.nodelist) id (some node));
      } in
        IsNodeList t
        × (id < t.size)
        × ((i : ℕ) → held t i ≡ (if i == id then some node else held s i))
  set-Roomy node id s r v = (
    record { room = omega (arith, length-set (entries r.nodelist) id (some node), v.room.room) },
    v.fits,
    λ i. ground (
      arith,
      v.same i,
      v.fits,
      v.room.room,
      get_or-set_self (entries r.nodelist) id (some node) none,
      get_or-set_ne (entries r.nodelist) id i (some node) none,
    ),
  )

  -- Where SMALL_LEN is not 0 and the array has at least the entries that size_ counts, adding a
  -- node puts it at its number, whatever memory a first array holds, and keeps all other nodes;
  -- the array then has that number and still at least the entries that size_ counts.
  pub add_node_lem :
      (junk : List (Option A)) (small_len : ℕ) (node : A) (id : ℕ) (s : NodeList A)
      → 0 < small_len
      → IsNodeList s
      → let r = add_node junk small_len node id s in
        IsNodeList r
        × (id < r.size)
        × ((i : ℕ) → held r i ≡ (if i == id then some node else held s i))
  unfolding add_node
  add_node_lem junk small_len node id s p v =
      let (room, same) = array_or_lem junk s.nodelist s.size v.room in
      let made : NodeList A = record s { nodelist = some (array_or junk s.nodelist) } in
      let (room', fits, at) =
        set-Roomy node id made (check small_len id made)
          (check-Roomy small_len id made p (record { room = room })) in
      (room', fits, λ i. at i ∙ ap (λ o. if i == id then some node else o) (same i))
