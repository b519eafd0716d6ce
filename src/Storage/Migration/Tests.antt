-- ===== src/Storage/Migration/Tests.antt =====
-- A migration of orders and customers, and the theorems on migrations.
use termin_server.Base.{
  Bool, true, false, List, [], ◌∷◌, none, some, Text, codes, lookup, ◌≡◌, refl,
}
use termin_server.Storage.Schema.{
  SchemaField, Schema, committed, closed, pre_commit, Session, Driver,
}
use termin_server.Storage.Migration.{
  FieldChange, field_added, field_renamed, field_changed, content_renamed, modified, MigrationDiff,
  column_sources,
}
use termin_server.Storage.Migration.Columns.{source_of, lookup-column_sources}
use termin_server.Storage.Migration.Migrate.{migrate, all_added, is_added}
use termin_server.Storage.Migration.Migrate.Commits.{Ended, migrate-Ended}

abbrev field : Text → Text → SchemaField
field name business_type = record {
  name = name;
  business_type = business_type;
  is_auto = false;
  enum_values = [];
  required = false;
  unique = false;
  minimum = none;
  maximum = none;
  foreign_key = [];
  cascade_mode = [];
}

-- The orders, whose number was once a code, and which have a note now
abbrev orders : Schema
orders = record {
  name = codes "orders";
  fields =
      field (codes "number") (codes "text")
      ∷ field (codes "note") (codes "text")
      ∷ field (codes "status") (codes "state")
      ∷ [];
  state_machines = (codes "status", codes "open") ∷ [];
}

abbrev order_changes : List FieldChange
order_changes =
    field_renamed (codes "number") (codes "code") (codes "number")
    ∷ field_added (codes "note") (field (codes "note") (codes "text"))
    ∷ field_changed (codes "status")
    ∷ []

abbrev diff : MigrationDiff
diff = record {
  is_blocked = false;
  changes =
      content_renamed (codes "customers") (codes "clients")
      ∷ modified (codes "orders") order_changes (some orders)
      ∷ [];
}

-- A database that takes every statement, and has no rows
abbrev empty_database : Driver Bool
empty_database = λ op db. (some [], db)

abbrev session : Session Bool
session = record { db = true; log = []; fault = some pre_commit }

migrate-Ended_example :
    Ended empty_database diff.changes 0
      (committed ∷ closed ∷ [])
      (migrate empty_database diff session)
unfolding all_added is_added
migrate-Ended_example = migrate-Ended empty_database diff session refl

lookup-column_sources_example :
    lookup (codes "number") (column_sources order_changes orders)
    ≡ source_of order_changes orders (codes "number")
lookup-column_sources_example = lookup-column_sources order_changes orders (codes "number")
