-- ===== src/Storage/Listing.antt =====
-- `list_records` of termin_server/storage.py: a SELECT with filters, an order and a page. A limit or an
-- offset is an integer.
pub mod Bound
mod Tests
use termin_server.Base.{
  ℕ, ℤ, pos, negsuc, Bool, true, false, List, [], ◌∷◌, ◌++◌, Option, none, some, Text, codes,
  one_of, text_eq, is_empty, join, map, flat_map, if◌then◌else◌, Value, int, Dict,
}
use termin_server.Storage.Identifiers.{
  StorageError, missing_schema, unknown_field, bad_direction, bad_limit, bad_offset, Checked, ok,
  raise, ◌>>=◌, ◌>>◌, assert_safe, q,
}
use termin_server.Storage.Predicates.{Fragment}
use termin_server.Storage.Engine.{Row}

pub record Listing : Type 0 where
  pub limit : Option ℤ
  pub offset : Option ℤ
  pub filters : Dict Value
  pub sort_by : Text
  pub sort_dir : Text
  -- The names of the fields of the schema
  pub schema : Option (List Text)

-- The fields of a schema, with the columns that every table has
abbrev pub columns_of : Option (List Text) → List Text
columns_of none = []
columns_of (some fields) = codes "id" ∷ codes "status" ∷ fields

-- A field that the schema has
pub check_field : Option (List Text) → Text → Checked Text
check_field none field = raise missing_schema
check_field (some fields) field =
    if one_of field (columns_of (some fields)) then assert_safe field else raise unknown_field

pub where_clauses : Option (List Text) → Dict Value → Checked (List Fragment)
unfolding check_field
where_clauses schema [] = ok []
where_clauses schema ((field, v) ∷ filters) =
    check_field schema field
    >> (where_clauses schema filters >>= λ rest. ok ((q field ++ codes " = ?", v ∷ []) ∷ rest))

pub where_part : Option (List Text) → Dict Value → Checked Fragment
unfolding where_clauses
where_part schema [] = ok ([], [])
where_part schema (f ∷ filters) = where_clauses schema (f ∷ filters) >>= λ clauses. ok (
  codes " WHERE " ++ join (codes " AND ") (map (λ (c : Fragment). c.0) clauses),
  flat_map (λ (c : Fragment). c.1) clauses,
)

-- `sort_dir or "asc"`, in capitals
pub direction_of : (Text → Text) → Text → Checked Text
direction_of lower dir =
    let d = lower (if is_empty dir then codes "asc" else dir) in
    if text_eq d (codes "asc")
    then ok (codes "ASC")
    else if text_eq d (codes "desc")
    then ok (codes "DESC")
    else raise bad_direction

pub order_part : (Text → Text) → Option (List Text) → Text → Text → Checked Text
unfolding check_field direction_of
order_part lower schema field dir =
    if is_empty field
    then ok []
    else check_field schema field
      >> (direction_of lower dir >>= λ d. ok (codes " ORDER BY " ++ (q field ++ b' ' ∷ d)))

pub offset_part : Text → Option ℤ → Checked Fragment
offset_part before none = ok ([], [])
offset_part before (some (negsuc n)) = raise bad_offset
offset_part before (some (pos n)) = ok (before ++ codes " OFFSET ?", int (pos n) ∷ [])

pub page_part : Option ℤ → Option ℤ → Checked Fragment
unfolding offset_part
page_part none offset = offset_part (codes " LIMIT -1") offset
page_part (some (negsuc n)) offset = raise bad_limit
page_part (some (pos n)) offset =
    offset_part [] offset >>= λ o. ok (codes " LIMIT ?" ++ o.0, int (pos n) ∷ o.1)

-- The statement, and what is bound in it
pub list_statement : (Text → Text) → Text → Listing → Checked Fragment
unfolding where_part order_part page_part
list_statement lower content_name l = where_part l.schema l.filters >>= λ filter.
    order_part lower l.schema l.sort_by l.sort_dir >>= λ order.
    page_part l.limit l.offset >>= λ page. ok (
      codes "SELECT * FROM " ++ (q content_name ++ (filter.0 ++ (order ++ page.0))),
      filter.1 ++ page.1,
    )

-- `list_records`, where `fetch` executes a statement
pub list_records :
    (Text → Text) → (Text → List Value → Checked (List Row)) → Text → Listing → Checked (List Row)
unfolding list_statement
list_records lower fetch content_name l = list_statement lower content_name l >>= λ s. fetch s.0 s.1
