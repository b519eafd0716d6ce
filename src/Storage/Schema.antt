-- ===== src/Storage/Schema.antt =====
-- The tables of termin_server/storage.py: `_SQL_TYPES`, `_field_to_sql` and `init_db`, which opens a
-- connection of its own. What is asked of the database is logged; a row is read only for the number in
-- its first column.
use termin_server.Base.{
  ℕ, Bool, List, [], ◌∷◌, ◌++◌, Option, none, some, Text, codes, join, if◌then◌else◌, map, Dict,
  lookup,
}
use termin_server.Storage.Identifiers.{StorageError, Checked, ok, raise, q}

pub record SchemaField : Type 0 where
  pub name : Text
  pub business_type : Text
  pub is_auto : Bool
  pub enum_values : List Text
  pub required : Bool
  pub unique : Bool
  pub minimum : Option Text
  pub maximum : Option Text
  -- "" where there is none
  pub foreign_key : Text
  pub cascade_mode : Text

pub record Schema : Type 0 where
  pub name : Text
  pub fields : List SchemaField
  -- Each with its column and its initial state
  pub state_machines : List (Text × Text)

-- What the database is asked, on the connection of a migration or on one of init_db's own.
pub data Op : Type 0 where
  opened committed rolled_back closed : Op
  statement : Text → Op
  own_opened own_committed own_closed : Op
  own_statement : Text → Op

pub data Stage : Type 0 where
  pre_apply mid_apply pre_commit : Stage

-- A failed check of a migration
pub data Broken : Type 0 where
  foreign_keys : (violations : ℕ) → Broken
  row_count : (table : Text) → (pre post : ℕ) → Broken
  smoke_read : (table : Text) → Broken

pub data Failure : Type 0 where
  blocked unknown_kind no_schema in_place_foreign_key : Failure
  storage : StorageError → Failure
  injected : Stage → Failure
  invalid : List Broken → Failure
  -- An exception of the driver
  database : Failure

pub data Result (A : Type 0) : Type 0 where
  returned : A → Result A
  failed : Failure → Result A

pub record Session (C : Type 0) : Type 0 where
  pub db : C
  pub log : List Op
  -- The fault that is armed
  pub fault : Option Stage

-- What the database does on a request: the numbers in its rows, or none if it raises
abbrev pub Driver : Type 0 → Type 0
Driver C = Op → C → Option (List ℕ) × C

abbrev pub Action : Type 0 → Type 0 → Type 0
Action C A = Session C → Result A × Session C

unfoldable pub after :
    {C A B : Type 0} → Result A × Session C → (A → Action C B) → Result B × Session C
after (returned a, s) f = f a s
after (failed e, s) f = (failed e, s)

unfoldable pub then_do : {C A B : Type 0} → Action C A → (A → Action C B) → Action C B
unfolding after
then_do m f s = after (m s) f

unfoldable pub give : {C A : Type 0} → A → Action C A
give a s = (returned a, s)

unfoldable pub fail : {C A : Type 0} → Failure → Action C A
fail e s = (failed e, s)

unfoldable pub checked : {C A : Type 0} → Checked A → Action C A
checked (ok a) s = (returned a, s)
checked (raise e) s = (failed (storage e), s)

unfoldable pub answer : {C : Type 0} → Option (List ℕ) → Session C → Result (List ℕ) × Session C
answer none s = (failed database, s)
answer (some rows) s = (returned rows, s)

-- `_SQL_TYPES`
pub sql_types : Dict Text
sql_types =
    (codes "text", codes "TEXT")
    ∷ (codes "currency", codes "REAL")
    ∷ (codes "number", codes "REAL")
    ∷ (codes "percentage", codes "REAL")
    ∷ (codes "whole_number", codes "INTEGER")
    ∷ (codes "boolean", codes "INTEGER")
    ∷ (codes "date", codes "TEXT")
    ∷ (codes "datetime", codes "TIMESTAMP DEFAULT CURRENT_TIMESTAMP")
    ∷ (codes "automatic", codes "TIMESTAMP DEFAULT CURRENT_TIMESTAMP")
    ∷ (codes "reference", codes "INTEGER")
    ∷ (codes "enum", codes "TEXT")
    ∷ (codes "list", codes "TEXT")
    ∷ (codes "structured", codes "TEXT")
    ∷ (codes "conversation", codes "TEXT")
    ∷ []

pub quoted_value : Text → Text
quoted_value v = b'\'' ∷ (v ++ b'\'' ∷ [])

-- The check of the range of a number
pub range_check : Text → Option Text → Option Text → List Text
range_check name (some low) (some high) =
    (codes "CHECK("
      ++ name
      ++ codes " >= "
      ++ low
      ++ codes " AND "
      ++ name
      ++ codes " <= "
      ++ high
      ++ codes ")")
    ∷ []
range_check name (some low) none = (codes "CHECK(" ++ name ++ codes " >= " ++ low ++ codes ")") ∷ []
range_check name none (some high) =
    (codes "CHECK(" ++ name ++ codes " <= " ++ high ++ codes ")") ∷ []
range_check name none none = []

pub column_type : SchemaField → Text
unfolding quoted_value sql_types
column_type f = elim f.enum_values [
  | [] ↦
      q f.name
      ++ b' ' ∷ elim (lookup f.business_type sql_types) [ none ↦ codes "TEXT" | some t ↦ t ]
  | v ∷ (vs → more) ↦
      q f.name
      ++ codes " TEXT CHECK("
      ++ q f.name
      ++ codes " IN ("
      ++ join (codes ", ") (map quoted_value (v ∷ vs))
      ++ codes "))"
]

-- `_field_to_sql`
pub field_to_sql : SchemaField → Text
unfolding column_type range_check
field_to_sql f =
    if f.is_auto
    then q f.name ++ codes " TIMESTAMP DEFAULT CURRENT_TIMESTAMP"
    else join (codes " ") (
        column_type f
        ∷ ((if f.required then codes "NOT NULL" ∷ [] else [])
            ++ ((if f.unique then codes "UNIQUE" ∷ [] else [])
                ++ range_check (q f.name) f.minimum f.maximum)))
