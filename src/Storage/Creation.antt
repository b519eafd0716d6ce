-- ===== src/Storage/Creation.antt =====
-- `create_record` of termin_server/storage.py: what it inserts, and what it gives back. The legacy shape
-- of `sm_info`, a single dict, is left out.
pub mod States
pub mod Columns
mod Tests
use termin_server.Base.{
  ℕ, pos, negsuc, Bool, true, false, not, List, [], ◌∷◌, ◌++◌, ◌&&◌, ◌||◌, ◌==◌, Option, none, some,
  Text, codes, one_of, text_eq, is_empty, if◌then◌else◌, Value, null, bool, int, float, str, json,
  is_blank, Dict, lookup, insert,
}
use termin_server.Storage.Identifiers.{StorageError, Checked, ok, raise}
use termin_server.Storage.Engine.{Row, Engine}
use termin_server.Storage.Records.{serialize_all}

-- `not v`; the pattern of the float -0.0 is the second.
pub is_falsy : Value → Bool
is_falsy null = true
is_falsy (bool b) = not b
is_falsy (int (pos n)) = n == 0
is_falsy (int (negsuc n)) = false
is_falsy (float f) = f == 0 || f == 0x8000000000000000
is_falsy (str s) = is_empty s
is_falsy (json t) = one_of t (codes "[]" ∷ codes "{}" ∷ [])

pub is_missing : Option Value → Bool
unfolding is_falsy
is_missing none = true
is_missing (some v) = is_falsy v

-- The columns of the state machines
pub state_columns : List (Text × Text) → List Text
state_columns [] = []
state_columns ((column, initial) ∷ machines) =
    let rest = state_columns machines in if is_empty column then rest else column ∷ rest

-- A column without a state gets the initial state of its machine.
pub seed : List (Text × Text) → Dict Value → Dict Value
unfolding is_missing
seed [] d = d
seed ((column, initial) ∷ machines) d = seed machines (
    if not (is_empty column) && is_missing (lookup column d)
    then insert column (str initial) d
    else d)

-- The values that are not blank, and those of state columns
pub keep_values : List Text → Dict Value → Dict Value
keep_values columns [] = []
keep_values columns ((k, v) ∷ d) =
    let rest = keep_values columns d in
    if not (is_blank v) || one_of k columns then (k, v) ∷ rest else rest

-- What is inserted
pub create_values : List (Text × Text) → Dict Value → Dict Value
unfolding seed keep_values state_columns
create_values machines data_ = keep_values (state_columns machines) (seed machines data_)

-- What a creation tells: its event, or its error
pub data Told : Type 0 where
  published : (type_ : Text) → (channel_id : Text) → Row → Told
  routed : StorageError → Told

module _ {Db : Type 0} (e : Engine Db) where
  -- The record of a row that is inserted
  pub insert_values : Text → Dict Value → Db → Checked (Row × Db)
  insert_values content_name d db = elim (e.insert_row content_name (serialize_all d) db) [
    | raise x ↦ raise x
    | ok r ↦ ok (insert (codes "id") (int (pos r.0)) d, r.1)
  ]

  pub conclude : Text → Bool → Bool → Checked (Row × Db) → Checked (Row × Db) × List Told
  conclude content_name has_bus has_terminator (ok r) = (
    ok r,
    if has_bus
        then published (content_name ++ codes "_created")
            (codes "content." ++ content_name ++ codes ".created") r.0
          ∷ []
        else [],
  )
  conclude content_name has_bus has_terminator (raise x) =
      (raise x, if has_terminator then routed x ∷ [] else [])

  pub insert_created : Text → Bool → Bool → Dict Value → Db → Checked (Row × Db) × List Told
  unfolding conclude insert_values
  insert_created content_name has_bus has_terminator [] db = (ok ((codes "id", null) ∷ [], db), [])
  insert_created content_name has_bus has_terminator (x ∷ d) db =
      conclude content_name has_bus has_terminator (insert_values content_name (x ∷ d) db)

  -- `create_record`
  pub create_record :
      Text → Dict Value → List (Text × Text) → Bool → Bool → Db → Checked (Row × Db) × List Told
  unfolding create_values insert_created
  create_record content_name data_ machines has_bus has_terminator db =
      insert_created content_name has_bus has_terminator (create_values machines data_) db
