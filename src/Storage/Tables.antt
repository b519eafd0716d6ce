-- ===== src/Storage/Tables.antt =====
-- `init_db` of termin_server/storage.py, which creates the tables of some schemas.
use termin_server.Base.{
  ℕ, Bool, true, List, [], ◌∷◌, ◌++◌, ◌||◌, Option, none, some, Text, codes, text_eq, one_of,
  is_empty, join, if◌then◌else◌, map,
}
use termin_server.Storage.Identifiers.{
  bad_cascade, Checked, ok, raise, ◌>>=◌, ◌>>◌, assert_safe, q, newline,
}
use termin_server.Storage.Schema.{
  SchemaField, Schema, Op, own_opened, own_committed, own_closed, own_statement, Result, returned,
  failed, Session, Driver, Action, then_do, give, checked, answer, field_to_sql, quoted_value,
}

-- A foreign key, if there is one
pub check_foreign_key : Text → Checked Text
check_foreign_key target = if is_empty target then ok [] else assert_safe target

pub check_fields : List SchemaField → Checked Bool
unfolding check_foreign_key
check_fields [] = ok true
check_fields (f ∷ fs) = assert_safe f.name >> (check_foreign_key f.foreign_key >> check_fields fs)

-- The names that init_db checks before it opens the database
pub check_schemas : List Schema → Checked Bool
unfolding check_fields
check_schemas [] = ok true
check_schemas (cs ∷ more) = assert_safe cs.name >> (check_fields cs.fields >> check_schemas more)

-- The columns of the state machines
pub machine_columns : List (Text × Text) → Checked (List Text)
machine_columns [] = ok []
machine_columns ((column, initial) ∷ machines) =
    assert_safe column
    >> (machine_columns machines >>= λ rest.
        ok ((b'"' ∷ (column ++ codes "\" TEXT NOT NULL DEFAULT " ++ quoted_value initial)) ∷ rest))

pub upper_cascade : Text → Option Text
upper_cascade mode =
    if text_eq mode (codes "cascade")
    then some (codes "CASCADE")
    else if text_eq mode (codes "restrict")
    then some (codes "RESTRICT")
    else none

-- The constraint of a foreign key
pub foreign_key_of : SchemaField → Checked (List Text)
unfolding upper_cascade
foreign_key_of f =
    if is_empty f.foreign_key
    then ok []
    else assert_safe f.foreign_key >> elim (upper_cascade f.cascade_mode) [
      | none ↦ raise bad_cascade
      | some mode ↦ ok (
          (codes "FOREIGN KEY ("
            ++ q f.name
            ++ codes ") REFERENCES "
            ++ q f.foreign_key
            ++ codes "(id) ON DELETE "
            ++ mode)
          ∷ [])
    ]

-- A field that a state machine has its column for
pub is_state_field : List (Text × Text) → SchemaField → Bool
is_state_field machines f =
    text_eq f.business_type (codes "state") || one_of f.name (map (λ m. m.0) machines)

-- The columns and the constraints of the other fields
pub field_columns : List (Text × Text) → List SchemaField → Checked (List Text × List Text)
unfolding is_state_field foreign_key_of
field_columns machines [] = ok ([], [])
field_columns machines (f ∷ fs) =
    let rest = field_columns machines fs in
    assert_safe f.name
    >> (if is_state_field machines f
        then rest
        else foreign_key_of f >>= λ keys.
            rest >>= λ more. ok (field_to_sql f ∷ more.0, keys ++ more.1))

-- A line of a statement, with its indentation
pub line : Text → Text → Text
line indent s = newline ∷ (indent ++ s)

pub create_statement : Schema → Checked Text
unfolding machine_columns field_columns line
create_statement cs =
    let indent = codes "                " in
    assert_safe cs.name
    >> (machine_columns cs.state_machines >>= λ machines.
        field_columns cs.state_machines cs.fields >>= λ rest. ok (
          line indent (codes "CREATE TABLE IF NOT EXISTS " ++ q cs.name ++ codes " (")
          ++ line (codes "                    ") (
              join (b',' ∷ line indent [])
                (codes "id INTEGER PRIMARY KEY AUTOINCREMENT" ∷ (machines ++ rest.0 ++ rest.1)))
          ++ line indent (codes ")")
          ++ line (codes "            ") []))

-- A result, unless the last step raises
unfoldable pub finish :
    {C A : Type 0} → Result A → Result (List ℕ) × Session C → Result A × Session C
finish r (returned rows, s) = (r, s)
finish r (failed e, s) = (failed e, s)

module _ {C : Type 0} (driver : Driver C) where
  -- A request to the database
  unfoldable pub perform : Op → Action C (List ℕ)
  perform op s =
      let done = driver op s.db in
      answer done.0 (record { db = done.1; log = s.log ++ op ∷ []; fault = s.fault })

  -- What is done at the end, also after an exception
  unfoldable pub finally_do : {A : Type 0} → Action C A → Op → Action C A
  unfolding perform
  finally_do m op s = let ran = m s in finish ran.0 (perform op ran.1)

  unfoldable pub create_tables : List Schema → Action C Bool
  unfolding perform
  create_tables [] = give true
  create_tables (cs ∷ more) =
      then_do (checked (create_statement cs))
        (λ sql. then_do (perform (own_statement sql)) (λ rows. create_tables more))

  -- `init_db`
  unfoldable pub init_db : List Schema → Action C Bool
  unfolding create_tables finally_do
  init_db schemas = then_do (checked (check_schemas schemas)) (λ b.
      then_do (perform own_opened) (λ rows.
        finally_do
          (then_do (create_tables schemas)
            (λ c. then_do (perform own_committed) (λ rows'. give true)))
          own_closed))
