-- ===== src/Storage/Migration.antt =====
-- The migration of the SQLite storage provider: `migrate` of
-- termin_server/providers/builtins/storage_sqlite.py, with the changes that it applies and its checks.
-- A text that a change does not have is "".
pub mod Migrate
pub mod Columns
mod Tests
use termin_server.Base.{
  ℕ, Bool, true, false, not, List, [], ◌∷◌, ◌++◌, ◌&&◌, ◌||◌, ◌==◌, Option, none, some, Text, codes,
  text_eq, one_of, is_empty, join, if◌then◌else◌, map, Dict, lookup, insert,
}
use termin_server.Storage.Identifiers.{Checked, ok, raise, ◌>>=◌, ◌>>◌, assert_safe, q}
use termin_server.Storage.Schema.{
  SchemaField, Schema, Op, opened, committed, rolled_back, closed, statement, Stage, pre_apply,
  mid_apply, pre_commit, Broken, foreign_keys, row_count, smoke_read, Failure, blocked,
  unknown_kind, no_schema, in_place_foreign_key, injected, invalid, Result, returned, failed,
  Session, Driver, Action, after, then_do, give, fail, checked, field_to_sql,
}
use termin_server.Storage.Tables.{perform, finally_do, init_db}

pub data FieldChange : Type 0 where
  field_added : (name : Text) → (spec : SchemaField) → FieldChange
  field_renamed : (name : Text) → (from to : Text) → FieldChange
  -- Any other change of a field
  field_changed : (name : Text) → FieldChange

pub data ContentChange : Type 0 where
  content_added : (name : Text) → Option Schema → ContentChange
  content_removed : (name : Text) → ContentChange
  content_renamed : (name from : Text) → ContentChange
  modified : (name : Text) → List FieldChange → Option Schema → ContentChange
  other_change : (name : Text) → ContentChange

pub record MigrationDiff : Type 0 where
  pub is_blocked : Bool
  pub changes : List ContentChange

pub is_in_place : List FieldChange → Bool
is_in_place [] = true
is_in_place (field_added name spec ∷ fcs) = is_in_place fcs
is_in_place (field_renamed name from to ∷ fcs) = is_in_place fcs
is_in_place (field_changed name ∷ fcs) = false

-- The name after a renaming
pub new_name : Text → Text → Text
new_name name to = if is_empty to then name else to

-- The old names of the renamed fields, by the new
pub renames_by_new : List FieldChange → Dict Text → Dict Text
unfolding new_name
renames_by_new [] d = d
renames_by_new (field_renamed name from to ∷ fcs) d =
    renames_by_new fcs (insert (new_name name to) from d)
renames_by_new (field_added name spec ∷ fcs) d = renames_by_new fcs d
renames_by_new (field_changed name ∷ fcs) d = renames_by_new fcs d

pub added_names : List FieldChange → List Text
added_names [] = []
added_names (field_added name spec ∷ fcs) = name ∷ added_names fcs
added_names (field_renamed name from to ∷ fcs) = added_names fcs
added_names (field_changed name ∷ fcs) = added_names fcs

pub map_machines : List (Text × Text) → Dict Text → Dict Text
map_machines [] d = d
map_machines ((column, initial) ∷ machines) d = map_machines machines (insert column column d)

pub or_same : Option Text → Text → Text
or_same none name = name
or_same (some source) name = source

pub map_fields : Dict Text → List Text → List SchemaField → Dict Text → Dict Text
unfolding or_same
map_fields renames added [] d = d
map_fields renames added (f ∷ fs) d = map_fields renames added fs (
    if text_eq f.business_type (codes "state") || one_of f.name added
    then d
    else insert f.name (or_same (lookup f.name renames) f.name) d)

-- `target_col_to_source`: the column of the old table for each column of the new
pub column_sources : List FieldChange → Schema → Dict Text
unfolding map_fields map_machines renames_by_new added_names
column_sources fcs schema =
    map_fields (renames_by_new fcs []) (added_names fcs) schema.fields
      (map_machines schema.state_machines ((codes "id", codes "id") ∷ []))

pub assert_all : List Text → Checked Bool
assert_all [] = ok true
assert_all (name ∷ names) = assert_safe name >> assert_all names

pub copy_statement : Text → Text → Dict Text → Text
copy_statement new old sources =
    codes "INSERT INTO "
    ++ q new
    ++ codes " ("
    ++ join (codes ", ") (map (λ c. q c.0) sources)
    ++ codes ") SELECT "
    ++ join (codes ", ") (map (λ c. q c.1) sources)
    ++ codes " FROM "
    ++ q old

module _ {C : Type 0} (driver : Driver C) where
  -- A statement whose rows are not read
  pub execute : Text → Action C Bool
  execute sql = then_do (perform driver (statement sql)) (λ rows. give true)

  -- `_rebuild_table`
  pub rebuild_table : Text → List FieldChange → Option Schema → Action C Bool
  unfolding execute column_sources assert_all copy_statement
  rebuild_table old fcs none = fail no_schema
  rebuild_table old fcs (some schema) =
      let new = codes "trebuild_" ++ old in
      let sources = column_sources fcs schema in
      then_do (checked (assert_safe old >> assert_safe new)) (λ n.
        then_do (init_db driver (record schema { name = new } ∷ [])) (λ b.
          then_do
            (checked (assert_all (map (λ c. c.0) sources) >> assert_all (map (λ c. c.1) sources)))
            (λ names. then_do (execute (copy_statement new old sources)) (λ copied.
              then_do (execute (codes "DROP TABLE " ++ q old)) (λ dropped.
                execute (codes "ALTER TABLE " ++ q new ++ codes " RENAME TO " ++ q old))))))

  pub alter_field : Text → FieldChange → Action C Bool
  unfolding execute new_name
  alter_field table (field_added name spec) =
      if is_empty spec.foreign_key
      then execute (codes "ALTER TABLE " ++ q table ++ codes " ADD COLUMN " ++ field_to_sql spec)
      else fail in_place_foreign_key
  alter_field table (field_renamed name from to) =
      then_do (checked (assert_safe from >> assert_safe (new_name name to))) (λ n. execute (
        codes "ALTER TABLE "
        ++ q table
        ++ codes " RENAME COLUMN "
        ++ q from
        ++ codes " TO "
        ++ q (new_name name to)))
  alter_field table (field_changed name) = give true

  pub alter_fields : Text → List FieldChange → Action C Bool
  unfolding alter_field
  alter_fields table [] = give true
  alter_fields table (fc ∷ fcs) = then_do (alter_field table fc) (λ b. alter_fields table fcs)

  -- `_apply_modified_in_place`
  pub apply_modified_in_place : Text → List FieldChange → Action C Bool
  unfolding alter_fields
  apply_modified_in_place table fcs =
      then_do (checked (assert_safe table)) (λ name. alter_fields table fcs)

  -- `_apply_one_change`, and `_apply_modified`
  pub apply_one_change : ContentChange → Action C Bool
  unfolding execute rebuild_table apply_modified_in_place is_in_place
  apply_one_change (content_added name none) = fail no_schema
  apply_one_change (content_added name (some schema)) = init_db driver (schema ∷ [])
  apply_one_change (content_removed name) =
      then_do (checked (assert_safe name)) (λ n. execute (codes "DROP TABLE IF EXISTS " ++ q name))
  apply_one_change (content_renamed name from) =
      then_do (checked (assert_safe from >> assert_safe name))
        (λ n. execute (codes "ALTER TABLE " ++ q from ++ codes " RENAME TO " ++ q name))
  apply_one_change (modified name fcs schema) =
      if is_in_place fcs then apply_modified_in_place name fcs else rebuild_table name fcs schema
  apply_one_change (other_change name) = fail unknown_kind
