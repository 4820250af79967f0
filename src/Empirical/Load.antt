-- ===== src/Empirical/Load.antt =====
-- `loadCDF` keeps every line it reads, however often the table grows.
use saps_extended.Base.{
  ℕ, zero, suc, ◌+◌, ◌*◌, ◌≤◌, ◌<◌, ◌≡◌, refl, ◌∙◌, ap, List, [], ◌∷◌, ltb, leb, if◌then◌else◌,
  length, get_or, set, replicate, arith, Bool-cases, inl, inr, length-set, length-replicate,
  get_or-set_self, get_or-set_ne,
}
use saps_extended.Empirical.{Table, copy_entries, grow_table, add_entry, add_entries, load_cdf}

module _ {E : Type 0} (blank : E) where
  -- The array has `maxEntry_` entries, which are not fewer than those in use.
  pub record IsTable (t : Table E) : Type 0 where
    pub sized : length t.table ≡ t.max_entry
    pub some_room : 0 < t.max_entry
    pub used : t.num_entry ≤ t.max_entry

  length-copy_entries :
      (k : ℕ) (old new : List E) → length (copy_entries blank k old new) ≡ length new
  unfolding copy_entries
  length-copy_entries zero old new = refl
  length-copy_entries (suc k) old new = length-copy_entries k old _ ∙ length-set new k _

  get_or-copy_entries :
      (k j : ℕ) (old new : List E)
      → k ≤ length new
      → get_or (copy_entries blank k old new) j blank
        ≡ (if ltb j k then get_or old j blank else get_or new j blank)
  unfolding copy_entries
  get_or-copy_entries zero j old new h = ground arith
  get_or-copy_entries (suc k) j old new h = ground (
    arith,
    get_or-copy_entries k j old (set new k (get_or old k blank))
        (omega (arith, length-set new k (get_or old k blank))),
    get_or-set_self new k (get_or old k blank) blank,
    get_or-set_ne new k j (get_or old k blank) blank,
  )

  -- `b` has the entries of `a`, and room for one more.
  record Grown (a b : Table E) : Type 0 where
    table : IsTable b
    room : b.num_entry < b.max_entry
    count : b.num_entry ≡ a.num_entry
    same : (i : ℕ) → i < a.num_entry → get_or b.table i blank ≡ get_or a.table i blank

  grow_table-Grown : (t : Table E) → IsTable t → Grown t (grow_table blank t)
  unfolding grow_table
  grow_table-Grown t v = elim (Bool-cases (leb t.max_entry t.num_entry)) [
    | inr room ↦ rw room record { table = v; room = ground arith; count = refl; same = λ i h. refl }
    | inl full ↦
        let wide : t.num_entry ≤ length (replicate (t.max_entry * 2) blank) =
          omega (arith, v.used, length-replicate (t.max_entry * 2) blank) in
        rw full record {
          table = record {
            sized =
                length-copy_entries t.num_entry t.table (replicate (t.max_entry * 2) blank)
                ∙ length-replicate (t.max_entry * 2) blank;
            some_room = omega (arith, v.some_room);
            used = omega (arith, v.used);
          };
          room = omega (arith, v.used, v.some_room);
          count = refl;
          same = λ i h. ground (
            arith,
            get_or-copy_entries t.num_entry i t.table (replicate (t.max_entry * 2) blank) wide,
          );
        }
  ]

  -- `b` has the entries of `a` and then `es`.
  record Added (es : List E) (a b : Table E) : Type 0 where
    table : IsTable b
    count : b.num_entry ≡ a.num_entry + length es
    same : (i : ℕ) → i < a.num_entry → get_or b.table i blank ≡ get_or a.table i blank
    new : (i : ℕ) → i < length es → get_or b.table (a.num_entry + i) blank ≡ get_or es i blank

  set-Added :
      (e : E) (a b : Table E)
      → Grown a b
      → Added
          (e ∷ [])
          a
          (record b { table = set b.table b.num_entry e; num_entry = b.num_entry + 1 })
  set-Added e a b g = record {
    table = record {
      sized = length-set b.table b.num_entry e ∙ g.table.sized;
      some_room = g.table.some_room;
      used = omega (arith, g.room);
    };
    count = omega (arith, g.count);
    same = λ i h. ground (arith, g.count, g.same i, get_or-set_ne b.table b.num_entry i e blank);
    new = new;
  }
    where
      new :
          (i : ℕ)
          → i < 1
          → get_or (set b.table b.num_entry e) (a.num_entry + i) blank ≡ get_or (e ∷ []) i blank
      new zero h =
          ap (λ j. get_or (set b.table b.num_entry e) j blank) (omega (arith, g.count))
          ∙ get_or-set_self b.table b.num_entry e blank (omega (arith, g.room, g.table.sized))
      new (suc i) h = absurd (omega arith)

  Added-more :
      (e : E) (es : List E) (a b c : Table E)
      → Added (e ∷ []) a b
      → Added es b c
      → Added (e ∷ es) a c
  Added-more e es a b c one rest = record {
    table = rest.table;
    count = omega (arith, rest.count, one.count);
    same = λ i h. rest.same i (omega (arith, one.count)) ∙ one.same i h;
    new = new;
  }
    where
      new :
          (i : ℕ)
          → i < suc (length es)
          → get_or c.table (a.num_entry + i) blank ≡ get_or (e ∷ es) i blank
      new zero h = rest.same (a.num_entry + 0) (omega (arith, one.count)) ∙ one.new 0 (omega arith)
      new (suc i) h =
          ap (λ j. get_or c.table j blank) (omega (arith, one.count)) ∙ rest.new i (omega arith)

  add_entries-Added : (es : List E) (t : Table E) → IsTable t → Added es t (add_entries blank t es)
  unfolding add_entries add_entry
  add_entries-Added [] t v = record {
    table = v;
    count = omega arith;
    same = λ i h. refl;
    new = λ i h. absurd (omega arith);
  }
  add_entries-Added (e ∷ es) t v =
      let one = set-Added e t (grow_table blank t) (grow_table-Grown t v) in
      Added-more e es t _ _ one (add_entries-Added es _ one.table)

  -- Into an array of maxEntry_ entries, at least one, loadCDF reads every line, in order, however
  -- often it doubles the array: it counts the lines, and entry i is line i.
  pub load_cdf_lem :
      (t : Table E) (lines : List E)
      → length t.table ≡ t.max_entry
      → 0 < t.max_entry
      → let r = load_cdf blank t lines in
        IsTable r
        × (r.num_entry ≡ length lines)
        × ((i : ℕ) → i < length lines → get_or r.table i blank ≡ get_or lines i blank)
  unfolding load_cdf
  load_cdf_lem t lines h k =
      let a =
        add_entries-Added lines (record t { num_entry = 0 })
          (record { sized = h; some_room = k; used = omega arith }) in
      (
        a.table,
        omega (arith, a.count),
        λ i p.
            ap (λ j. get_or (add_entries blank (record t { num_entry = 0 }) lines).table j blank)
              (omega arith)
            ∙ a.new i p,
      )
