-- ===== src/MultiPath/Ecmp.antt =====
-- ECMP: the two-level choice on a fat tree, and the hash that it rests on.
use native.Mathlib.Nat.{div-add-mod, mod-lt}
use saps_extended.Base.{
  ℕ, ◌+◌, ◌*◌, ◌/◌, ◌%◌, ◌^◌, ◌<◌, ◌≡◌, ◌≢◌, refl, ◌∙◌, sym, ap, false, ◌&&◌, lt→ltb, List, [], ◌∷◌,
  ◌++◌, ◌==◌, arith, some, true, not, ◌≤◌,
}
use saps_extended.MultiPath.{
  Config, Header, slots, hash_from, hash_string, char_value, key_bytes, word_bytes, ecmp_hash,
  ecmp_slot, Choice, classify,
}
use saps_extended.MultiPath.Rotate.{Found, probe_round}

-- The polynomial that `HashString` evaluates at 9, without the wrap-around.
abbrev pub weighted : ℕ → List ℕ → ℕ
weighted acc [] = acc
weighted acc (b ∷ bytes) = weighted (acc * 9 + char_value b) bytes

-- HashString, begun with a value that is reduced modulo 2^32, gives the polynomial in 9 with the
-- bytes as signed characters for its coefficients, modulo 2^32.
pub hash_from-weighted :
    (bytes : List ℕ) (result acc : ℕ)
    → result ≡ acc % 2 ^ 32
    → hash_from result bytes ≡ weighted acc bytes % 2 ^ 32
unfolding hash_from
hash_from-weighted [] result acc e = e
hash_from-weighted (b ∷ bytes) result acc e =
    hash_from-weighted bytes _ (acc * 9 + char_value b) (omega arith)

-- The switch balances small flows by the two levels of ECMP.
pub record IsSizeAware (c : Config) : Type 0 where
  pub no_perflow : c.perflow ≡ 0
  pub some_k : c.k ≢ 0
  pub no_spraying : c.packet_spraying ≡ false
  pub no_flowcells : c.flowcell_spraying ≡ false

-- `cl` is the first set slot of the table, from `i` on.
pub record FirstSet (c : Config) (i cl : ℕ) : Type 0 where
  pub away : ℕ
  pub found_there : Found c i away cl
  pub set : c.slot cl ≡ true
  pub inside : cl < slots c

classify_small :
    (c : Config) (ns : ℕ) (h h' : Header) (stale unset i j : ℕ)
    → IsSizeAware c
    → h.is_elephant ≡ false
    → ecmp_slot c h (ecmp_hash c h stale) ≡ (i, h')
    → i < slots c
    → j < slots c
    → c.slot j ≡ true
    → (x : Choice) × (classify c ns h stale unset ≡ some x) × FirstSet c i x.cl × (x.header ≡ h')
unfolding classify
classify_small c ns h h' stale unset i j aware small at inside live set =
    let (cl, eq, d, f, up, lt) = probe_round c i j inside live set in
    (
      record { cl = cl; ns = ns; header = h' },
      simp (aware.no_perflow, aware.no_spraying, aware.no_flowcells, small, at, eq),
      record { away = d; found_there = f; set = up; inside = lt },
      refl,
    )

-- At the ToR switch, and then at the aggregation switch.
ecmp_slot-down :
    (c : Config) (h : Header) (ms : ℕ)
    → IsSizeAware c
    → h.visited_tor ≢ 1
    → ecmp_slot c h ms
      ≡ (ms % c.k % slots c, record h { visited_tor = 1; agg_decision = ms % c.k / slots c })
unfolding ecmp_slot
ecmp_slot-down c h ms aware v =
    let two : (c.perflow == 0 && not (c.k == 0)) ≡ true =
      ground (arith, aware.no_perflow, aware.some_k) in
    let fresh : (h.visited_tor == 1) ≡ false = ground (arith, v) in simp (two, fresh)

ecmp_slot-up :
    (c : Config) (h : Header) (ms : ℕ)
    → IsSizeAware c
    → h.visited_tor ≡ 1
    → ecmp_slot c h ms ≡ (h.agg_decision, record h { visited_tor = 0 })
unfolding ecmp_slot
ecmp_slot-up c h ms aware v =
    let two : (c.perflow == 0 && not (c.k == 0)) ≡ true =
      ground (arith, aware.no_perflow, aware.some_k) in
    let marked : (h.visited_tor == 1) ≡ true = ground (arith, v) in simp (two, marked)

quotient-lt : (m n k a : ℕ) → m < k → k ≤ n * a → m / n < a
quotient-lt m n k a low fits = grind (arith, div-add-mod m n)

-- Let a ToR and an aggregation switch have perflow_ 0, K not 0 and no spraying, each a set slot
-- in its table, and the ToR's K be at most the product of the two numbers of slots. For a packet
-- that is no elephant and not marked by a ToR switch, let down and up be the two digits of the
-- ToR's hash modulo K, to the base of the ToR's number of slots. Then classify at the ToR takes
-- the first set slot from down on, round the table; classify at the aggregation switch, for the
-- header that the ToR leaves, the first set slot from up on; and the mark is cleared.
pub two_levels :
    (tor agg : Config) (h : Header) (ns ns' stale stale' unset unset' j j' : ℕ)
    → IsSizeAware tor
    → IsSizeAware agg
    → h.is_elephant ≡ false
    → h.visited_tor ≢ 1
    → tor.k ≤ slots tor * slots agg
    → j < slots tor
    → tor.slot j ≡ true
    → j' < slots agg
    → agg.slot j' ≡ true
    → (x : Choice) × (y : Choice) × (down : ℕ) × (up : ℕ) × (classify tor ns h stale unset ≡ some x)
      × (classify agg ns' x.header stale' unset' ≡ some y)
      × (slots tor * up + down ≡ ecmp_hash tor h stale % tor.k)
      × (down < slots tor)
      × (up < slots agg)
      × FirstSet tor down x.cl
      × FirstSet agg up y.cl
      × (y.header.visited_tor ≡ 0)
two_levels tor agg h ns ns' stale stale' unset unset' j j' tor_aware agg_aware small v fits live set
      live' set' =
    let m = ecmp_hash tor h stale % tor.k in
    let n = slots tor in
    let low : m < tor.k = mod-lt (ecmp_hash tor h stale) (omega (arith, tor_aware.some_k)) in
    let digits : n * (m / n) + m % n ≡ m = div-add-mod m n in
    let down_lt : m % n < n = mod-lt m {m = n} (omega arith) in
    let up_lt : m / n < slots agg = quotient-lt m n tor.k (slots agg) low fits in
    let marked : Header = record h { visited_tor = 1; agg_decision = m / n } in
    let (x, eq, first, left) =
      classify_small tor ns h marked stale unset (m % n) j tor_aware small
        (ecmp_slot-down tor h (ecmp_hash tor h stale) tor_aware v) down_lt live set in
    let at_agg : ecmp_slot agg x.header (ecmp_hash agg x.header stale')
        ≡ (m / n, record marked { visited_tor = 0 }) =
      ecmp_slot-up agg x.header (ecmp_hash agg x.header stale') agg_aware
        (ap (λ g. g.visited_tor) left)
      ∙ ap (λ (g : Header). (g.agg_decision, record g { visited_tor = 0 })) left in
    let (y, eq', first', left') =
      classify_small agg ns' x.header (record marked { visited_tor = 0 }) stale' unset' (m / n) j'
        agg_aware (ap (λ g. g.is_elephant) left ∙ small) at_agg up_lt live' set' in
    (
      x,
      y,
      m % n,
      m / n,
      eq,
      eq',
      digits,
      down_lt,
      up_lt,
      first,
      first',
      ap (λ g. g.visited_tor) left',
    )

hash_from-append : (r : ℕ) (xs ys : List ℕ) → hash_from r (xs ++ ys) ≡ hash_from (hash_from r xs) ys
unfolding hash_from
hash_from-append r [] ys = refl
hash_from-append r (x ∷ xs) ys = hash_from-append ((r + (r * 8 + char_value x)) % 2 ^ 32) xs ys

ascii : (b : ℕ) → b < 128 → char_value b ≡ b
ascii b h = rw (lt→ltb b 128 h)

-- Bytes that differ by one at the front of four give different hashes.
four_bytes :
    (r b b1 b2 b3 : ℕ)
    → b < 127
    → hash_from r (b ∷ b1 ∷ b2 ∷ b3 ∷ []) ≢ hash_from r ((b + 1) ∷ b1 ∷ b2 ∷ b3 ∷ [])
unfolding hash_from
four_bytes r b b1 b2 b3 h e = omega (
  arith,
  e,
  hash_from-weighted (b1 ∷ b2 ∷ b3 ∷ []) ((r + (r * 8 + char_value b)) % 2 ^ 32)
      (r * 9 + char_value b) (omega arith),
  hash_from-weighted (b1 ∷ b2 ∷ b3 ∷ []) ((r + (r * 8 + char_value (b + 1))) % 2 ^ 32)
      (r * 9 + char_value (b + 1)) (omega arith),
  ascii b (omega arith),
  ascii (b + 1) (omega arith),
)

-- The bytes of the key up to `ttl`.
key_front : Header → List ℕ
key_front h =
    word_bytes h.sport
    ++ (word_bytes h.dport ++ (word_bytes h.src ++ (word_bytes h.dst ++ word_bytes h.flowid)))

hash-key_bytes :
    (h : Header) (t : ℕ)
    → hash_from 0 (key_bytes h t) ≡ hash_from (hash_from 0 (key_front h)) (word_bytes t)
unfolding key_bytes key_front
hash-key_bytes h t = hash_from-append 0 (key_front h) (word_bytes t)

word_bytes-next :
    (t : ℕ)
    → t % 256 < 127
    → word_bytes (t + 1)
      ≡ (t % 256 + 1) ∷ (t / 2 ^ 8 % 256) ∷ (t / 2 ^ 16 % 256) ∷ (t / 2 ^ 24 % 256) ∷ []
word_bytes-next t h =
    let e0 : (t + 1) % 256 ≡ t % 256 + 1 = omega arith in
    let e1 : (t + 1) / 2 ^ 8 % 256 ≡ t / 2 ^ 8 % 256 = omega arith in
    let e2 : (t + 1) / 2 ^ 16 % 256 ≡ t / 2 ^ 16 % 256 = omega arith in
    let e3 : (t + 1) / 2 ^ 24 % 256 ≡ t / 2 ^ 24 % 256 = omega arith in cc

ecmp_hash-stale :
    (c : Config) (h : Header) (t : ℕ)
    → c.perflow ≢ 2
    → ecmp_hash c h t ≡ hash_from (hash_from 0 (key_front h)) (word_bytes t)
unfolding ecmp_hash hash_string
ecmp_hash-stale c h t p =
    let no_bender : (c.perflow == 2 && h.is_tcp) ≡ false = ground arith in
    rw no_bender (hash-key_bytes h t)

-- Without FlowBender the hash depends on the ttl that classify does not set: for two contents of
-- the stack that differ by one, with the low byte of the first under 127, the same packet hashes
-- differently.
pub ecmp_hash_stale :
    (c : Config) (h : Header) (stale : ℕ)
    → c.perflow ≢ 2
    → stale % 256 < 127
    → ecmp_hash c h stale ≢ ecmp_hash c h (stale + 1)
ecmp_hash_stale c h stale p k e =
    four_bytes (hash_from 0 (key_front h)) (stale % 256) (stale / 2 ^ 8 % 256)
      (stale / 2 ^ 16 % 256) (stale / 2 ^ 24 % 256) k
      (sym (ecmp_hash-stale c h stale p)
        ∙ (e
            ∙ (ecmp_hash-stale c h (stale + 1) p
                ∙ ap (hash_from (hash_from 0 (key_front h))) (word_bytes-next stale k))))
