-- ===== src/Storage/Keyset.antt =====
-- `_build_keyset_filter` of termin_server/providers/builtins/storage_sqlite.py: the WHERE fragment
-- that selects the rows behind a cursor.
pub mod Meaning
pub mod Nulls
mod Tests
use termin_server.Base.{
  ℕ, List, [], ◌∷◌, ◌++◌, Text, codes, join, map, Value, length, flat_map, ◌==◌, if◌then◌else◌,
}
use termin_server.Storage.Identifiers.{Checked, ok, raise, bad_cursor, q}
use termin_server.Storage.Predicates.{Fragment}

-- The directions that an `OrderBy` of the storage contract has.
pub data Direction : Type 0 where
  asc desc : Direction

pub record SortKey : Type 0 where
  pub field : Text
  pub direction : Direction

abbrev pub operator : Direction → Text
operator asc = codes " > ?"
operator desc = codes " < ?"

-- A sort key with the cursor's value for it.
abbrev pub Bound : Type 0
Bound = SortKey × Value

equal_part : Bound → Text
equal_part (k, v) = q k.field ++ codes " = ?"

strict_part : Bound → Text
strict_part (k, v) = q k.field ++ operator k.direction

-- One round of the outer loop: the earlier fields are equal, this one differs.
clause : List Bound → Bound → Fragment
unfolding equal_part strict_part
clause earlier b = (
  codes "(" ++ (join (codes " AND ") (map equal_part earlier ++ (strict_part b ∷ [])) ++ codes ")"),
  map (λ (c : Bound). c.1) earlier ++ (b.1 ∷ []),
)

-- The outer loop, `earlier` being the bounds that the inner loop walks again in each round.
clauses : List Bound → List Bound → List Fragment
unfolding clause
clauses earlier [] = []
clauses earlier (b ∷ bounds) = clause earlier b ∷ clauses (earlier ++ b ∷ []) bounds

abbrev pub zip : List SortKey → List Value → List Bound
zip [] vs = []
zip (k ∷ ks) [] = []
zip (k ∷ ks) (v ∷ vs) = (k, v) ∷ zip ks vs

unfoldable pub build_keyset_filter : List SortKey → List Value → Checked Fragment
unfolding clauses
build_keyset_filter keys cursor =
    let parts = clauses [] (zip keys cursor) in
    if length cursor == length keys
    then ok (
      codes "(" ++ (join (codes " OR ") (map (λ (f : Fragment). f.0) parts) ++ codes ")"),
      flat_map (λ (f : Fragment). f.1) parts,
    )
    else raise bad_cursor
