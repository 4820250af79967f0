-- ===== src/Svt/Parse.antt =====
-- The reading of the failed links from their text, at the first packet of a flow in
-- `TcpAgent::output` of tcp/tcp.cc. A text is the list of its characters' codes.
pub mod RoundTrip
use saps_extended.Base.{
  ℕ, zero, suc, ◌+◌, ◌*◌, ◌-◌, List, [], ◌∷◌, ◌++◌, map, Bool, true, false, ◌&&◌, ◌||◌, Option,
  none, some, ltb, leb, ◌==◌, if◌then◌else◌, length, get_or, ◌^◌,
}
use saps_extended.Base.Int.{ℤ, pos, negsuc, pos_part, neg_part}
use saps_extended.Uplinks.{FailedLink}

-- The delimiters ",;" of `strtok`.
abbrev pub is_delim : ℕ → Bool
is_delim c = c == b',' || c == b';'

abbrev pub is_digit : ℕ → Bool
is_digit c = leb b'0' c && leb c b'9'

-- `isspace` in the C locale
abbrev pub is_space : ℕ → Bool
is_space c = c == 32 || (leb 9 c && leb c 13)

-- A token that is not empty is kept.
abbrev pub keep : List ℕ → List (List ℕ) → List (List ℕ)
keep [] tokens = tokens
keep (c ∷ token) tokens = (c ∷ token) ∷ tokens

-- The tokens that repeated calls of `strtok` return, after the characters `token` of the current one.
unfoldable pub tokens : List ℕ → List ℕ → List (List ℕ)
tokens token [] = keep token []
tokens token (c ∷ text) =
    let next = tokens [] text in
    let more = tokens (token ++ c ∷ []) text in if is_delim c then keep token next else more

-- The digits at the head of a text, after those that make `n`.
unfoldable pub digits : ℕ → List ℕ → ℕ
digits n [] = n
digits n (c ∷ text) = let more = digits (10 * n + (c - b'0')) text in if is_digit c then more else n

abbrev pub negate : ℕ → ℤ
negate zero = pos 0
negate (suc n) = negsuc n

-- The number at the head of a text.
unfoldable pub whole : List ℕ → ℤ
unfolding digits
whole [] = pos 0
whole (c ∷ text) =
    let rest = whole text in
    if is_space c
    then rest
    else if c == b'-'
    then negate (digits 0 text)
    else if c == b'+'
    then pos (digits 0 text)
    else pos (digits 0 (c ∷ text))

-- `atoi`: `none` is a number that no `int` of 32 bits holds, for which the library's function is
-- undefined.
unfoldable pub atoi : List ℕ → Option ℤ
unfolding whole
atoi text =
    let n = whole text in
    if ltb (pos_part n) (2 ^ 31) && leb (neg_part n) (2 ^ 31) then some n else none

abbrev pub add_field : Option ℤ → Option (List ℤ) → Option (List ℤ)
add_field none fields = none
add_field (some n) none = none
add_field (some n) (some fields) = some (n ∷ fields)

-- `failed_link_fields`, from the tokens.
unfoldable pub read_fields : List (List ℕ) → Option (List ℤ)
unfolding atoi
read_fields [] = some []
read_fields (token ∷ tokens) = add_field (atoi token) (read_fields tokens)

-- The failed link at the fields `3 * i` and on; `stale` is what a field holds that was not written.
unfoldable pub link_at : List ℤ → ℤ → ℕ → FailedLink
link_at fields stale i = record {
  leaf = pos_part (get_or fields (i * 3) stale);
  spine = pos_part (get_or fields (i * 3 + 1) stale);
  failure_ratio = pos_part (get_or fields (i * 3 + 2) stale);
}

-- The failed links from the `i`-th on, with the links left.
unfoldable pub links_from : List ℤ → ℤ → ℕ → ℕ → List FailedLink
unfolding link_at
links_from fields stale i zero = []
links_from fields stale i (suc n) = link_at fields stale i ∷ links_from fields stale (i + 1) n

abbrev pub links_of : ℕ → ℤ → Option (List ℤ) → Option (List FailedLink)
links_of num_failures stale none = none
links_of num_failures stale (some fields) = some (links_from fields stale 0 num_failures)

-- `numFailures_` failed links; `none` if the text does not fit into the 100 characters of
-- `all_f_links`, or its tokens into `failed_link_fields`, or a number into an `int`.
unfoldable pub read_links : ℕ → ℤ → List ℕ → Option (List FailedLink)
unfolding tokens read_fields links_from
read_links num_failures stale text =
    if leb 100 (length text) || ltb (num_failures * 3) (length (tokens [] text))
    then none
    else links_of num_failures stale (read_fields (tokens [] text))
