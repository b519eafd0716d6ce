-- ===== src/Storage/Keyset/Meaning.antt =====
-- What the keyset filter selects, under SQL's reading of its text.
use termin_server.Base.{
  Bool, true, false, List, [], ◌∷◌, ◌++◌, ◌&&◌, ◌||◌, Text, codes, join, map, map-append, Value,
  All, is_none, length, flat_map, All-concat, ==_iff, if◌then◌else◌, ◌≡◌, refl, ap, arith,
}
use termin_server.Storage.Identifiers.{ok, q}
use termin_server.Storage.Predicates.{Fragment}
use termin_server.Storage.Keyset.{
  asc, desc, SortKey, Bound, zip, equal_part, strict_part, clauses, build_keyset_filter,
}

-- Conditions in SQL: disjunctions of conjunctions of comparisons of a column with a bound value.
pub data Op : Type 0 where
  equal above below : Op

pub record Comparison : Type 0 where
  pub column : Text
  pub op : Op
  pub value : Value

abbrev pub Condition : Type 0
Condition = List (List Comparison)

abbrev op_text : Op → Text
op_text equal = codes " = ?"
op_text above = codes " > ?"
op_text below = codes " < ?"

abbrev comparison_text : Comparison → Text
comparison_text c = q c.column ++ op_text c.op

abbrev conjunction_text : List Comparison → Text
conjunction_text cs = codes "(" ++ (join (codes " AND ") (map comparison_text cs) ++ codes ")")

-- The text of a condition, and the values that it binds, from left to right.
abbrev pub condition_text : Condition → Text
condition_text ds = codes "(" ++ (join (codes " OR ") (map conjunction_text ds) ++ codes ")")

abbrev pub condition_values : Condition → List Value
condition_values ds = flat_map (map (λ (c : Comparison). c.value)) ds

-- The truth values of SQL.
pub data Truth : Type 0 where
  holds fails unknown : Truth

abbrev pub and3 : Truth → Truth → Truth
and3 fails t = fails
and3 holds t = t
and3 unknown fails = fails
and3 unknown t = unknown

abbrev pub or3 : Truth → Truth → Truth
or3 holds t = holds
or3 fails t = t
or3 unknown holds = holds
or3 unknown t = unknown

-- A row, as the value of each of its columns, and the order of values that are not NULL.
module _ (less : Value → Value → Bool) (same : Value → Value → Bool) (row : Text → Value) where
  abbrev pub test : Op → Value → Value → Bool
  test equal x v = same x v
  test above x v = less v x
  test below x v = less x v

  -- A comparison with NULL is unknown.
  abbrev pub compare_truth : Comparison → Truth
  compare_truth c =
      if is_none (row c.column)
      then unknown
      else if is_none c.value
      then unknown
      else if test c.op (row c.column) c.value
      then holds
      else fails

  abbrev pub conjunction_truth : List Comparison → Truth
  conjunction_truth [] = holds
  conjunction_truth (c ∷ cs) = and3 (compare_truth c) (conjunction_truth cs)

  abbrev pub condition_truth : Condition → Truth
  condition_truth [] = fails
  condition_truth (d ∷ ds) = or3 (conjunction_truth d) (condition_truth ds)

  -- The row differs from the cursor in the direction of the key.
  abbrev pub is_strictly : Bound → Bool
  is_strictly (k, v) = test (elim k.direction [ asc ↦ above | desc ↦ below ]) (row k.field) v

  -- Behind the cursor in the order of the keys: the first key decides, unless it is equal.
  abbrev pub is_after : List Bound → Bool
  is_after [] = false
  is_after ((k, v) ∷ bounds) = is_strictly (k, v) || (same (row k.field) v && is_after bounds)

  -- Neither the row nor the cursor has a NULL among the keys.
  abbrev pub HasNoNull : List Bound → Type 0
  HasNoNull = All (λ (b : Bound). (is_none (row b.0.field) ≡ false) × (is_none b.1 ≡ false))

abbrev pub as_truth : Bool → Truth
as_truth true = holds
as_truth false = fails

-- The condition that the filter writes, one conjunction for each key.
unfoldable pub equal_comparison : Bound → Comparison
equal_comparison (k, v) = record { column = k.field; op = equal; value = v }

unfoldable pub strict_comparison : Bound → Comparison
strict_comparison (k, v) = record {
  column = k.field;
  op = elim k.direction [ asc ↦ above | desc ↦ below ];
  value = v;
}

unfoldable pub keyset_condition : List Bound → List Bound → Condition
keyset_condition earlier [] = []
keyset_condition earlier (b ∷ bounds) =
    (map equal_comparison earlier ++ strict_comparison b ∷ [])
    ∷ keyset_condition (earlier ++ b ∷ []) bounds

map-equal_part :
    (earlier : List Bound)
    → map comparison_text (map equal_comparison earlier) ≡ map equal_part earlier
unfolding equal_comparison equal_part
map-equal_part [] = refl
map-equal_part (b ∷ earlier) = ap (λ (t : List Text). equal_part b ∷ t) (map-equal_part earlier)

strict_text : (b : Bound) → comparison_text (strict_comparison b) ≡ strict_part b
unfolding strict_comparison strict_part
strict_text (k, v) = ground arith

map-equal_value :
    (earlier : List Bound)
    → map (λ (c : Comparison). c.value) (map equal_comparison earlier)
      ≡ map (λ (c : Bound). c.1) earlier
unfolding equal_comparison
map-equal_value [] = refl
map-equal_value (b ∷ earlier) = ap (λ (t : List Value). b.1 ∷ t) (map-equal_value earlier)

clauses_text :
    (earlier bounds : List Bound)
    → map (λ (f : Fragment). f.0) (clauses earlier bounds)
      ≡ map conjunction_text (keyset_condition earlier bounds)
unfolding clauses keyset_condition
clauses_text earlier [] = refl
clauses_text earlier (b ∷ bounds) =
    simp (map-append, map-equal_part, strict_text, clauses_text (earlier ++ b ∷ []) bounds)

clauses_values :
    (earlier bounds : List Bound)
    → flat_map (λ (f : Fragment). f.1) (clauses earlier bounds)
      ≡ condition_values (keyset_condition earlier bounds)
unfolding clauses keyset_condition strict_comparison
clauses_values earlier [] = refl
clauses_values earlier (b ∷ bounds) =
    simp (map-append, map-equal_value, clauses_values (earlier ++ b ∷ []) bounds)

module _ (less : Value → Value → Bool) (same : Value → Value → Bool) (row : Text → Value) where
  all_same : List Bound → Bool
  all_same [] = true
  all_same ((k, v) ∷ earlier) = same (row k.field) v && all_same earlier

  all_same-concat :
      (earlier : List Bound) (b : Bound)
      → all_same (earlier ++ b ∷ []) ≡ (all_same earlier && same (row b.0.field) b.1)
  unfolding all_same
  all_same-concat [] b = ground arith
  all_same-concat (e ∷ earlier) b = ground (arith, all_same-concat earlier b)

  conjunction_lem :
      (earlier : List Bound) (b : Bound)
      → HasNoNull less same row earlier
      → HasNoNull less same row (b ∷ [])
      → conjunction_truth less same row (map equal_comparison earlier ++ strict_comparison b ∷ [])
        ≡ as_truth (all_same earlier && is_strictly less same row b)
  unfolding all_same equal_comparison strict_comparison
  conjunction_lem [] (k, v) h g = ground arith
  conjunction_lem (e ∷ earlier) b h g = ground (arith, conjunction_lem earlier b)

  condition_lem :
      (earlier bounds : List Bound)
      → HasNoNull less same row earlier
      → HasNoNull less same row bounds
      → condition_truth less same row (keyset_condition earlier bounds)
        ≡ as_truth (all_same earlier && is_after less same row bounds)
  unfolding keyset_condition
  condition_lem earlier [] h g = ground arith
  condition_lem earlier (b ∷ bounds) h g =
      rw
        (
          conjunction_lem earlier b h (g.0, tt),
          condition_lem (earlier ++ b ∷ []) bounds (All-concat _ earlier h g.0) g.1,
          all_same-concat earlier b,
        )
        (ground arith)

pub build_keyset_filter_lem :
    (keys : List SortKey) (cursor : List Value)
    → length cursor ≡ length keys
    → build_keyset_filter keys cursor
      ≡ ok (
        condition_text (keyset_condition [] (zip keys cursor)),
        condition_values (keyset_condition [] (zip keys cursor)),
      )
unfolding build_keyset_filter
build_keyset_filter_lem keys cursor h =
    rw ((==_iff (length cursor) (length keys)).1 h, clauses_text, clauses_values) refl

pub condition_truth-after :
    (less same : Value → Value → Bool) (row : Text → Value) (bounds : List Bound)
    → HasNoNull less same row bounds
    → condition_truth less same row (keyset_condition [] bounds)
      ≡ as_truth (is_after less same row bounds)
unfolding all_same
condition_truth-after less same row bounds n = condition_lem less same row [] bounds tt n

-- With one cursor value for each sort key, the filter is the text of a condition and of the values
-- that it binds, and that condition is true of a row that has no NULL among the keys, against a
-- cursor without NULL, exactly if the row stands behind the cursor in the order of the keys; it is
-- never unknown of such a row.
pub build_keyset_filter-after :
    (keys : List SortKey) (cursor : List Value)
    → length cursor ≡ length keys
    → (c : Condition) × (build_keyset_filter keys cursor
        ≡ ok (condition_text c, condition_values c))
      × ((less same : Value → Value → Bool) (row : Text → Value)
          → HasNoNull less same row (zip keys cursor)
          → condition_truth less same row c ≡ as_truth (is_after less same row (zip keys cursor)))
build_keyset_filter-after keys cursor h = (
  keyset_condition [] (zip keys cursor),
  build_keyset_filter_lem keys cursor h,
  λ less same row n. condition_truth-after less same row (zip keys cursor) n,
)
