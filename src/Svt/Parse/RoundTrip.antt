-- ===== src/Svt/Parse/RoundTrip.antt =====
-- Failed links that are printed are read back.
use mathlib.Core.List.{append-nil, append_assoc}
use saps_extended.Base.{
  ℕ, zero, suc, ◌+◌, ◌*◌, ◌-◌, ◌<◌, ◌≡◌, refl, ap, sym, List, [], ◌∷◌, ◌++◌, map, true, some, arith,
  lt→not-leb, le→not-ltb, ◌^◌, ltb, length, get_or,
}
use saps_extended.Base.Int.{ℤ, pos}
use saps_extended.Uplinks.{FailedLink}
use saps_extended.Svt.Parse.{
  is_delim, tokens, digits, whole, atoi, read_fields, link_at, links_from, read_links,
}

-- A numeral: a first digit and the others, each below 10.
pub record Numeral : Type 0 where
  pub first : ℕ
  pub others : List ℕ

abbrev pub Digits : List ℕ → Type 0
Digits [] = Unit
Digits (d ∷ ds) = (d < 10) × Digits ds

-- The number that digits make, after those that make `n`.
unfoldable pub number : ℕ → List ℕ → ℕ
number n [] = n
number n (d ∷ ds) = number (10 * n + d) ds

unfoldable pub value : Numeral → ℕ
unfolding number
value n = number n.first n.others

-- Decimal digits whose number an `int` of 32 bits holds.
abbrev pub IsNumeral : Numeral → Type 0
IsNumeral n = (n.first < 10) × Digits n.others × (value n < 2 ^ 31)

abbrev pub chars : List ℕ → List ℕ
chars ds = map (λ d. b'0' + d) ds

unfoldable pub print : Numeral → List ℕ
print n = (b'0' + n.first) ∷ chars n.others

-- A failed link, as its three numerals.
pub record Row : Type 0 where
  pub leaf : Numeral
  pub spine : Numeral
  pub ratio : Numeral

abbrev pub IsRow : Row → Type 0
IsRow r = IsNumeral r.leaf × IsNumeral r.spine × IsNumeral r.ratio

abbrev pub IsRows : List Row → Type 0
IsRows [] = Unit
IsRows (r ∷ rows) = IsRow r × IsRows rows

pub link_of : Row → FailedLink
link_of r = record { leaf = value r.leaf; spine = value r.spine; failure_ratio = value r.ratio }

-- "leaf,spine,ratio;" for each failed link
unfoldable pub print_rows : List Row → List ℕ
print_rows [] = []
print_rows (r ∷ rows) =
    print r.leaf ++ (b',' ∷ (print r.spine ++ (b',' ∷ (print r.ratio ++ (b';' ∷ print_rows rows)))))

fields_of : List Row → List ℤ
fields_of [] = []
fields_of (r ∷ rows) =
    pos (value r.leaf) ∷ pos (value r.spine) ∷ pos (value r.ratio) ∷ fields_of rows

cancel : (n d : ℕ) → 10 * n + (b'0' + d - b'0') ≡ 10 * n + d
cancel n d = omega arith

zero_cancel : (d : ℕ) → 0 + (b'0' + d - b'0') ≡ d
zero_cancel d = omega arith

digits-chars : (n : ℕ) (ds : List ℕ) → Digits ds → digits n (chars ds) ≡ number n ds
unfolding digits number
digits-chars n [] h = refl
digits-chars n (d ∷ ds) h =
    ground (arith, digits-chars (10 * n + d) ds h.1, ap (λ k. digits k (chars ds)) (cancel n d))

whole-print : (n : Numeral) → IsNumeral n → whole (print n) ≡ pos (value n)
unfolding whole digits print value
whole-print n h = ground (
  arith,
  digits-chars n.first n.others h.1,
  ap (λ k. digits k (chars n.others)) (zero_cancel n.first),
)

atoi-print : (n : Numeral) → IsNumeral n → atoi (print n) ≡ some (pos (value n))
unfolding atoi
atoi-print n h =
    let e = whole-print n h in
    let small : ltb (value n) (2 ^ 31) ≡ true = ground (arith, h.2) in simp (e, small)

-- A run of digits is gathered into the current token.
tokens-chars :
    (token ds rest : List ℕ)
    → Digits ds
    → tokens token (chars ds ++ rest) ≡ tokens (token ++ chars ds) rest
unfolding tokens
tokens-chars token [] rest h = ap (λ k. tokens k rest) (sym (append-nil token))
tokens-chars token (d ∷ ds) rest h = ground (
  arith,
  tokens-chars (token ++ (b'0' + d) ∷ []) ds rest h.1,
  ap (λ k. tokens k rest) (append_assoc token ((b'0' + d) ∷ []) (chars ds)),
)

-- A numeral before a delimiter is a token.
tokens-print :
    (n : Numeral) (c : ℕ) (rest : List ℕ)
    → IsNumeral n
    → is_delim c ≡ true
    → tokens [] (print n ++ (c ∷ rest)) ≡ print n ∷ tokens [] rest
unfolding tokens print
tokens-print n c rest h delim =
    ground (arith, tokens-chars ((b'0' + n.first) ∷ []) n.others (c ∷ rest) h.1)

fields-print :
    (rows : List Row)
    → IsRows rows
    → (read_fields (tokens [] (print_rows rows)) ≡ some (fields_of rows))
      × (length (tokens [] (print_rows rows)) ≡ length (fields_of rows))
unfolding tokens print_rows fields_of read_fields
fields-print [] h = (refl, refl)
fields-print (r ∷ rows) (((a, b, c), h)) =
    let rest = print_rows rows in
    let third = print r.ratio ++ (b';' ∷ rest) in
    let second = print r.spine ++ (b',' ∷ third) in
    simp
      (
        tokens-print r.leaf b',' second a refl,
        tokens-print r.spine b',' third b refl,
        tokens-print r.ratio b';' rest c refl,
        atoi-print r.leaf a,
        atoi-print r.spine b,
        atoi-print r.ratio c,
        (fields-print rows h).0,
        (fields-print rows h).1,
      )
      (refl, refl)

module _ (a b c : ℤ) (fields : List ℤ) (stale : ℤ) where
  get_or-skip :
      (m k : ℕ)
      → k ≡ suc (suc (suc m))
      → get_or (a ∷ b ∷ c ∷ fields) k stale ≡ get_or fields m stale
  get_or-skip m k e = ap (λ j. get_or (a ∷ b ∷ c ∷ fields) j stale) e

  link_at-skip : (i : ℕ) → link_at (a ∷ b ∷ c ∷ fields) stale (i + 1) ≡ link_at fields stale i
  unfolding link_at
  link_at-skip i = ground (
    arith,
    get_or-skip (i * 3) ((i + 1) * 3) (omega arith),
    get_or-skip (i * 3 + 1) ((i + 1) * 3 + 1) (omega arith),
    get_or-skip (i * 3 + 2) ((i + 1) * 3 + 2) (omega arith),
  )

  links_from-skip :
      (n i : ℕ) → links_from (a ∷ b ∷ c ∷ fields) stale (i + 1) n ≡ links_from fields stale i n
  unfolding links_from
  links_from-skip zero i = refl
  links_from-skip (suc n) i = simp (link_at-skip i, links_from-skip n (i + 1))

links_from-rows :
    (rows : List Row) (stale : ℤ)
    → links_from (fields_of rows) stale 0 (length rows) ≡ map link_of rows
unfolding links_from link_at fields_of link_of
links_from-rows [] stale = refl
links_from-rows (r ∷ rows) stale = ground (
  arith,
  links_from-skip (pos (value r.leaf)) (pos (value r.spine)) (pos (value r.ratio)) (fields_of rows)
      stale (length rows) 0,
  links_from-rows rows stale,
)

length-fields_of : (rows : List Row) → length (fields_of rows) ≡ length rows * 3
unfolding fields_of
length-fields_of [] = omega arith
length-fields_of (r ∷ rows) = omega (arith, length-fields_of rows)

-- Failed links that are printed as "leaf,spine,ratio;", in decimal numerals of numbers below
-- 2^31, also with leading zeros, are read back, if the text has less than 100 characters.
pub read_links-print :
    (rows : List Row) (stale : ℤ)
    → IsRows rows
    → length (print_rows rows) < 100
    → read_links (length rows) stale (print_rows rows) ≡ some (map link_of rows)
unfolding read_links
read_links-print rows stale h short =
    let n : length (fields_of rows) ≡ length rows * 3 = length-fields_of rows in
    let (fields, same) = fields-print rows h in
    simp (
      fields,
      same,
      lt→not-leb 100 (length (print_rows rows)) short,
      n,
      le→not-ltb (length rows * 3) (length rows * 3) (omega arith),
      links_from-rows rows stale,
    )
