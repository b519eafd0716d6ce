-- ===== src/Storage/Listing/Tests.antt =====
-- A listing of tasks, and the theorem on listings.
use termin_server.Base.{
  pos, [], ◌∷◌, some, Text, codes, length, Value, int, All, count, ◌≡◌, ◌⊎◌, refl,
}
use termin_server.Storage.Identifiers.{ok, q, replace, assert_safe, validate_identifier}
use termin_server.Storage.Predicates.{Fragment}
use termin_server.Storage.Predicates.Placeholders.{mark}
use termin_server.Storage.Listing.{
  Listing, check_field, where_clauses, where_part, direction_of, order_part, offset_part, page_part,
  list_statement,
}
use termin_server.Storage.Listing.Bound.{Known, list_statement-Bound}

abbrev open_tasks : Listing
open_tasks = record {
  limit = some (pos 20);
  offset = some (pos 40);
  filters = (codes "done", int (pos 0)) ∷ [];
  sort_by = codes "due";
  sort_dir = [];
  schema = some (codes "done" ∷ codes "due" ∷ []);
}

abbrev statement : Fragment
statement = (
  codes "SELECT * FROM \"tasks\" WHERE \"done\" = ? ORDER BY \"due\" ASC LIMIT ? OFFSET ?",
  int (pos 0) ∷ int (pos 20) ∷ int (pos 40) ∷ [],
)

list_statement_test : list_statement (λ t. t) (codes "tasks") open_tasks ≡ ok statement
unfolding list_statement where_part where_clauses check_field order_part direction_of page_part
    offset_part q replace assert_safe validate_identifier
list_statement_test = refl

list_statement-Bound_example :
    (count mark statement.0 ≡ length statement.1)
    × All (λ (f : Text × Value). Known open_tasks.schema f.0) open_tasks.filters
    × ((open_tasks.sort_by ≡ []) ⊎ Known open_tasks.schema open_tasks.sort_by)
unfolding validate_identifier
list_statement-Bound_example =
    list_statement-Bound (λ t. t) (codes "tasks") open_tasks statement refl list_statement_test
