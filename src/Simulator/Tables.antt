-- ===== src/Simulator/Tables.antt =====
-- What a sequence of set-ups leaves in the classifiers of `class Simulator` (common/simulator.cc):
-- the routes from each node to each other one, and the sizes of the nodes' tables.
use mathlib.Core.List.{append-nil, append_assoc}
use saps_extended.Base.{
  ℕ, zero, suc, ◌+◌, ◌≡◌, ◌≢◌, refl, ap, ◌∙◌, List, [], ◌∷◌, ◌++◌, Bool, true, false, not, ◌&&◌,
  ◌||◌, ltb, leb, ◌==◌, if◌then◌else◌, arith, Bool-cases, inl, inr,
}
use saps_extended.Base.Int.{ℤ, pos, negsuc}
use saps_extended.Simulator.{Setup, table_size, add_route, hop, route_to, routes_from}

-- The next hops of the routes from node `t` to `d`, in order.
pub added : ℕ → ℕ → List Setup → List ℕ
added t d [] = []
added t d (table_size s n ∷ r) = added t d r
added t d (add_route s e nh ∷ r) =
    let rest = added t d r in if s == t && e == d then nh ∷ rest else rest

-- The sizes that the table of node `t` is given, in order.
pub sizes : ℕ → List Setup → List ℕ
sizes t [] = []
sizes t (table_size s n ∷ r) = let rest = sizes t r in if s == t then n ∷ rest else rest
sizes t (add_route s e nh ∷ r) = sizes t r

-- A route from node `t` is added before its table has a size.
pub early : ℕ → List Setup → Bool
early t [] = false
early t (table_size s n ∷ r) = not (s == t) && early t r
early t (add_route s e nh ∷ r) = s == t || early t r

-- The next hop that the route logic gives, if there is one.
abbrev pub known : ℤ → List ℕ
known (pos nh) = nh ∷ []
known (negsuc k) = []

abbrev pub when : Bool → List ℕ → List ℕ
when b xs = if b then xs else []

-- The routes from `k` nodes, from node `i` on, each to all of the `nn` nodes.
abbrev pub all_routes : (ℕ → ℕ → ℤ) → ℕ → ℕ → ℕ → List Setup
all_routes lookup_flat nn zero i = []
all_routes lookup_flat nn (suc k) i =
    (table_size i nn ∷ routes_from lookup_flat i nn 0) ++ all_routes lookup_flat nn k (i + 1)

when-or : (a b : Bool) (xs : List ℕ) → (a && b) ≡ false → when a xs ++ when b xs ≡ when (a || b) xs
when-or true true xs h = absurd (ground arith)
when-or true false xs h = append-nil xs
when-or false b xs h = refl

added-append : (t d : ℕ) (xs ys : List Setup) → added t d (xs ++ ys) ≡ added t d xs ++ added t d ys
unfolding added
added-append t d [] ys = refl
added-append t d (table_size s n ∷ xs) ys = added-append t d xs ys
added-append t d (add_route s e nh ∷ xs) ys = elim (Bool-cases (s == t && e == d)) [
  | inl hit ↦ simp (hit) (ap (λ r. nh ∷ r) (added-append t d xs ys))
  | inr miss ↦ simp (miss) (added-append t d xs ys)
]

sizes-append : (t : ℕ) (xs ys : List Setup) → sizes t (xs ++ ys) ≡ sizes t xs ++ sizes t ys
unfolding sizes
sizes-append t [] ys = refl
sizes-append t (add_route s e nh ∷ xs) ys = sizes-append t xs ys
sizes-append t (table_size s n ∷ xs) ys = elim (Bool-cases (s == t)) [
  | inl hit ↦ simp (hit) (ap (λ r. n ∷ r) (sizes-append t xs ys))
  | inr miss ↦ simp (miss) (sizes-append t xs ys)
]

module _ (lookup_flat : ℕ → ℕ → ℤ) where
  -- A single hop.
  added-hop : (t d i j : ℕ) (z : ℤ) → added t d (hop z i j) ≡ when (i == t && j == d) (known z)
  unfolding added hop
  added-hop t d i j (pos nh) = ground arith
  added-hop t d i j (negsuc k) = ground arith

  added-route_to :
      (t d i j : ℕ)
      → added t d (route_to lookup_flat i j)
        ≡ when (i == t && (j == d && not (t == d))) (known (lookup_flat t d))
  unfolding route_to added
  added-route_to t d i j = elim (Bool-cases (i == j)) [
    | inl same ↦
        let no : (i == t && (j == d && not (t == d))) ≡ false = ground (arith, same) in
        simp (same, no)
    | inr other ↦ elim (Bool-cases (i == t && j == d)) [
      | inl hit ↦
          let yes_hit : (i == t && (j == d && not (t == d))) ≡ true = ground (arith, other, hit) in
          let i_is : i ≡ t = ground (arith, hit) in
          let j_is : j ≡ d = ground (arith, hit) in
          simp (other, yes_hit)
            (added-hop t d i j (lookup_flat i j)
              ∙ simp (hit)
                  (ap (λ z. known z) (ap (λ m. lookup_flat m j) i_is ∙ ap (lookup_flat t) j_is)))
      | inr miss ↦
          let no : (i == t && (j == d && not (t == d))) ≡ false = ground (arith, miss) in
          simp (other, no) (added-hop t d i j (lookup_flat i j) ∙ simp (miss))
    ]
  ]

  added-routes_from :
      (t d i k j : ℕ)
      → added t d (routes_from lookup_flat i k j)
        ≡ when (i == t && (leb j d && ltb d (j + k) && not (t == d))) (known (lookup_flat t d))
  unfolding routes_from added
  added-routes_from t d i zero j =
      let no : (i == t && (leb j d && ltb d (j + 0) && not (t == d))) ≡ false = ground arith in
      simp (no)
  added-routes_from t d i (suc k) j =
      let here = i == t && (j == d && not (t == d)) in
      let later = i == t && (leb (j + 1) d && ltb d (j + 1 + k) && not (t == d)) in
      let apart : (here && later) ≡ false = ground arith in
      let whole : (here || later) ≡ (i == t && (leb j d && ltb d (j + suc k) && not (t == d))) =
        ground arith in
      added-append t d (route_to lookup_flat i j) (routes_from lookup_flat i k (j + 1))
      ∙ (ap (λ r. r ++ added t d (routes_from lookup_flat i k (j + 1))) (added-route_to t d i j)
          ∙ (ap (λ r. when here (known (lookup_flat t d)) ++ r) (added-routes_from t d i k (j + 1))
              ∙ (when-or here later (known (lookup_flat t d)) apart
                  ∙ ap (λ b. when b (known (lookup_flat t d))) whole)))

  -- Routes are no sizes.
  sizes-hop : (t i j : ℕ) (z : ℤ) → sizes t (hop z i j) ≡ []
  unfolding hop sizes
  sizes-hop t i j (pos nh) = refl
  sizes-hop t i j (negsuc m) = refl

  sizes-route_to : (t i j : ℕ) → sizes t (route_to lookup_flat i j) ≡ []
  unfolding route_to sizes
  sizes-route_to t i j = elim (Bool-cases (i == j)) [
    | inl same ↦ simp (same)
    | inr other ↦ simp (other) (sizes-hop t i j (lookup_flat i j))
  ]

  sizes-routes_from : (t i k j : ℕ) → sizes t (routes_from lookup_flat i k j) ≡ []
  unfolding routes_from sizes
  sizes-routes_from t i zero j = refl
  sizes-routes_from t i (suc k) j =
      sizes-append t (route_to lookup_flat i j) (routes_from lookup_flat i k (j + 1))
      ∙ (ap (λ r. r ++ sizes t (routes_from lookup_flat i k (j + 1))) (sizes-route_to t i j)
          ∙ sizes-routes_from t i k (j + 1))

  -- The routes of another node come neither before nor after the size of this one's table.
  early-hop : (t i j : ℕ) (z : ℤ) (r : List Setup) → t ≢ i → early t (hop z i j ++ r) ≡ early t r
  unfolding hop early
  early-hop t i j (pos nh) r h = ground (arith, h)
  early-hop t i j (negsuc m) r h = refl

  early-route_to :
      (t i j : ℕ) (r : List Setup) → t ≢ i → early t (route_to lookup_flat i j ++ r) ≡ early t r
  unfolding route_to
  early-route_to t i j r h = elim (Bool-cases (i == j)) [
    | inl same ↦ simp (same)
    | inr other ↦ simp (other) (early-hop t i j (lookup_flat i j) r h)
  ]

  early-routes_from :
      (t i k j : ℕ) (r : List Setup)
      → t ≢ i
      → early t (routes_from lookup_flat i k j ++ r) ≡ early t r
  unfolding routes_from
  early-routes_from t i zero j r h = refl
  early-routes_from t i (suc k) j r h =
      ap (early t) (append_assoc (route_to lookup_flat i j) (routes_from lookup_flat i k (j + 1)) r)
      ∙ (early-route_to t i j (routes_from lookup_flat i k (j + 1) ++ r) h
          ∙ early-routes_from t i k (j + 1) r h)

  -- All the routes, and all the sizes.
  pub added-all_routes :
      (t d nn k i : ℕ)
      → added t d (all_routes lookup_flat nn k i)
        ≡ when (leb i t && ltb t (i + k) && (ltb d nn && not (t == d))) (known (lookup_flat t d))
  unfolding added
  added-all_routes t d nn zero i =
      let no : (leb i t && ltb t (i + 0) && (ltb d nn && not (t == d))) ≡ false = ground arith in
      simp (no)
  added-all_routes t d nn (suc k) i =
      let here = i == t && (leb 0 d && ltb d (0 + nn) && not (t == d)) in
      let later = leb (i + 1) t && ltb t (i + 1 + k) && (ltb d nn && not (t == d)) in
      let apart : (here && later) ≡ false = ground arith in
      let whole : (here || later) ≡ (leb i t && ltb t (i + suc k) && (ltb d nn && not (t == d))) =
        ground arith in
      let rest = all_routes lookup_flat nn k (i + 1) in
      added-append t d (routes_from lookup_flat i nn 0) rest
      ∙ (ap (λ r. r ++ added t d rest) (added-routes_from t d i nn 0)
          ∙ (ap (λ r. when here (known (lookup_flat t d)) ++ r) (added-all_routes t d nn k (i + 1))
              ∙ (when-or here later (known (lookup_flat t d)) apart
                  ∙ ap (λ b. when b (known (lookup_flat t d))) whole)))

  sizes-after :
      (t i nn : ℕ) (r : List Setup) → sizes t (routes_from lookup_flat i nn 0 ++ r) ≡ sizes t r
  sizes-after t i nn r =
      sizes-append t (routes_from lookup_flat i nn 0) r
      ∙ ap (λ x. x ++ sizes t r) (sizes-routes_from t i nn 0)

  pub sizes-all_routes :
      (t nn k i : ℕ)
      → sizes t (all_routes lookup_flat nn k i) ≡ when (leb i t && ltb t (i + k)) (nn ∷ [])
  unfolding sizes
  sizes-all_routes t nn zero i =
      let no : (leb i t && ltb t (i + 0)) ≡ false = ground arith in simp (no)
  sizes-all_routes t nn (suc k) i =
      let rest = all_routes lookup_flat nn k (i + 1) in
      let after = sizes-after t i nn rest ∙ sizes-all_routes t nn k (i + 1) in
      elim (Bool-cases (i == t)) [
        | inl hit ↦
            let in_it : (leb i t && ltb t (i + suc k)) ≡ true = ground (arith, hit) in
            let past : (leb (i + 1) t && ltb t (i + 1 + k)) ≡ false = ground (arith, hit) in
            simp (hit, in_it) (ap (λ r. nn ∷ r) (after ∙ simp (past)))
        | inr miss ↦
            let same : (leb (i + 1) t && ltb t (i + 1 + k)) ≡ (leb i t && ltb t (i + suc k)) =
              ground (arith, miss) in
            simp (miss) (after ∙ ap (λ b. when b (nn ∷ [])) same)
      ]

  pub early-all_routes : (t nn k i : ℕ) → early t (all_routes lookup_flat nn k i) ≡ false
  unfolding early
  early-all_routes t nn zero i = refl
  early-all_routes t nn (suc k) i =
      let rest = all_routes lookup_flat nn k (i + 1) in
      elim (Bool-cases (i == t)) [
        | inl hit ↦ simp (hit)
        | inr miss ↦ simp (miss) (
            early-routes_from t i nn 0 rest (λ e. absurd (ground (arith, miss, e)))
            ∙ early-all_routes t nn k (i + 1))
      ]
