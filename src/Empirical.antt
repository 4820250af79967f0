-- ===== src/Empirical.antt =====
-- `class EmpiricalRandomVariable` of tools/ranvar.cc: the table of a distribution and the search
-- in it. A probability is a natural number of steps: the search only compares. The arithmetic of
-- `double` that `interpolate` uses is an argument, `Real`, and so are the lines of the file.
pub mod Search
pub mod Load
mod Tests
use saps_extended.Base.{
  ℕ, zero, suc, ◌+◌, ◌*◌, ◌-◌, ◌/◌, List, [], ◌∷◌, Bool, true, false, not, ◌&&◌, ltb, leb, ◌==◌,
  if◌then◌else◌, get_or, set, replicate,
}

-- `for (lo = lo, hi = hi; lo < hi; ) …` of `lookup`, on fuel, in a table whose probabilities are
-- `cdf`
pub search_table : ℕ → (ℕ → ℕ) → ℕ → ℕ → ℕ → ℕ
search_table zero cdf u lo hi = lo
search_table (suc fuel) cdf u lo hi =
    let mid = (lo + hi) / 2 in
    let right = search_table fuel cdf u (mid + 1) hi in
    let left = search_table fuel cdf u lo mid in
    if ltb lo hi then if ltb (cdf mid) u then right else left else lo

-- `lookup` in a table of `num_entry` entries
pub lookup : ℕ → (ℕ → ℕ) → ℕ → ℕ
lookup num_entry cdf u = if leb u (cdf 0) then 0 else search_table num_entry cdf u 1 (num_entry - 1)

-- What `interpolate` uses of `double`.
pub record Real (R : Type 0) : Type 0 where
  pub add : R → R → R
  pub minus : R → R → R
  pub times : R → R → R
  pub over : R → R → R
  pub ceil : R → R
  pub prob : ℕ → R
  pub nought : R

module _ {R : Type 0} (r : Real R) where
  -- `interpolate`. `integral` is `interpolation_ == INTER_INTEGRAL`.
  pub interpolate : Bool → R → R → R → R → R → R
  interpolate integral x x1 y1 x2 y2 =
      let value = r.add y1 (r.over (r.times (r.minus x x1) (r.minus y2 y1)) (r.minus x2 x1)) in
      if integral then r.ceil value else value

  -- `value`, for the number `u` that `uniform` gives
  pub value : Bool → Bool → ℕ → (ℕ → ℕ) → (ℕ → R) → ℕ → R
  value interpolation integral num_entry cdf val u =
      let mid = lookup num_entry cdf u in
      if num_entry == 0
      then r.nought
      else if not (mid == 0) && (interpolation && ltb u (cdf mid))
      then interpolate integral (r.prob u) (r.prob (cdf (mid - 1))) (val (mid - 1))
          (r.prob (cdf mid)) (val mid)
      else val mid

-- `table_`, `maxEntry_` and `numEntry_` while `loadCDF` reads, for entries of any kind. An entry
-- that has not been written holds `blank`.
pub record Table (E : Type 0) : Type 0 where
  pub table : List E
  pub max_entry : ℕ
  pub num_entry : ℕ

module _ {E : Type 0} (blank : E) where
  -- `for (int i=numEntry_-1; i >= 0; i--) e[i] = table_[i];` for the `k` entries from 0 on
  pub copy_entries : ℕ → List E → List E → List E
  copy_entries zero old new = new
  copy_entries (suc k) old new = copy_entries k old (set new k (get_or old k blank))

  -- `if (numEntry_ >= maxEntry_)`
  pub grow_table : Table E → Table E
  grow_table t =
      if leb t.max_entry t.num_entry
      then record t {
        table = copy_entries t.num_entry t.table (replicate (t.max_entry * 2) blank);
        max_entry = t.max_entry * 2;
      }
      else t

  -- One round of the loop, for the line with entry `e`.
  pub add_entry : Table E → E → Table E
  add_entry t e =
      let roomy = grow_table t in
      record roomy { table = set roomy.table roomy.num_entry e; num_entry = roomy.num_entry + 1 }

  pub add_entries : Table E → List E → Table E
  add_entries t [] = t
  add_entries t (e ∷ es) = add_entries (add_entry t e) es

  -- `loadCDF`, when the file can be opened and the table has been allocated; `numEntry_` starts
  -- from 0.
  pub load_cdf : Table E → List E → Table E
  load_cdf t lines = add_entries (record t { num_entry = 0 }) lines
