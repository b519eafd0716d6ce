-- ===== src/Append.antt =====
-- Appending to a conversation field: `_do_append` of termin_server/routes.py, with `get_record` and
-- `update_record` of termin_server/storage.py. The database, the `json` module, the entry's id and the
-- clock are parameters. What event handlers do in turn is not described: their dispatch is logged.
pub mod Frames
pub mod Stored
pub mod Races
mod Encoding
mod Tests
use termin_server.Base.{
  ℕ, Bool, true, false, not, ◌||◌, List, [], ◌∷◌, ◌++◌, Option, none, some, Text, codes, text_eq,
  one_of, Dict, lookup, is_empty, Value, null, bool, int, pos, negsuc, float, str, json, Json,
  j_null, j_bool, j_num, j_str, j_arr, j_obj, Jsons, nil, cons, Members, empty, member, add_last,
  get, ◌==◌, if◌then◌else◌,
}
use termin_server.Identity.Users.{User}
use termin_server.Storage.Identifiers.{Checked, ok, raise}
use termin_server.Storage.Records.{clean_patch, serialize_all}

abbrev pub Row : Type 0
Row = Dict Value

-- The two statements that an append executes, and the module `json`; `none` is no row, or a text
-- that is no JSON.
pub record Backend (Db : Type 0) : Type 0 where
  pub select : Text → Value → Db → Option Row
  pub set : Text → Value → Dict Value → Db → Checked Db
  pub loads : Text → Option Json
  pub dumps : Jsons → Text

pub data AppendError : Type 0 where
  missing_id body_not_object invalid_kind body_required not_found vanished internal : AppendError

pub data Result (A : Type 0) : Type 0 where
  done : A → Result A
  fail : AppendError → Result A

infixl 5 ◌>>=◌
abbrev pub ◌>>=◌ : {A B : Type 0} → Result A → (A → Result B) → Result B
done a >>= f = f a
fail e >>= f = fail e

abbrev pub canonical_kinds : List Text
canonical_kinds =
    codes "user"
    ∷ codes "agent"
    ∷ codes "assistant"
    ∷ codes "tool_call"
    ∷ codes "tool_result"
    ∷ codes "system_event"
    ∷ []

-- Python's truth of a key
abbrev pub is_true : Value → Bool
is_true null = false
is_true (bool b) = b
is_true (int (pos n)) = not (n == 0)
is_true (int (negsuc n)) = true
is_true (float f) = not (f == 0 || f == 0x8000000000000000)
is_true (str s) = not (is_empty s)
is_true (json t) = not (text_eq t (codes "[]") || text_eq t (codes "{}"))

-- The kind of a payload; one that is a list or a dict has no hash, which raises.
pub check_kind : Option Json → Result Text
check_kind (some (j_str s)) = if one_of s canonical_kinds then done s else fail invalid_kind
check_kind (some (j_arr xs)) = fail internal
check_kind (some (j_obj d)) = fail internal
check_kind kind = fail invalid_kind

pub check_body : Option Json → Result Json
check_body none = fail body_required
check_body (some j_null) = fail body_required
check_body (some (j_str [])) = fail body_required
check_body (some body) = done body

-- Kind, body and members of a payload.
abbrev pub Checks : Type 0
Checks = Text × Json × Members

pub check_members : Members → Result Checks
unfolding check_kind check_body
check_members d = do
  kind ← check_kind (get (codes "kind") d)
  body ← check_body (get (codes "body") d)
  done (kind, body, d)

pub check_payload : Value → Json → Result Checks
unfolding check_members
check_payload key (j_obj d) = if is_true key then check_members d else fail missing_id
check_payload key payload = if is_true key then fail body_not_object else fail missing_id

-- The row filter of a route: whether its kind is `ownership`, and its field.
pub record RowFilter : Type 0 where
  pub is_ownership : Bool
  pub field : Option Text

-- `record.get(owner_field) == user_id`
pub is_owner : Option User → Option Value → Bool
is_owner none none = true
is_owner none (some null) = true
is_owner (some user) (some (str s)) = text_eq s user.the_user.id
is_owner user owner = false

pub passes : Option User → Option RowFilter → Row → Bool
unfolding is_owner
passes user none row = true
passes user (some f) row = elim f.field [
  | none ↦ true
  | some owner_field ↦
      if is_empty owner_field
      then true
      else if f.is_ownership
      then is_owner user (lookup owner_field row)
      else true
]

abbrev pub appender_id : Option User → Text
appender_id none = []
appender_id (some user) = user.the_user.id

-- The keys that pass from a payload to its entry as they are.
abbrev pub passed_keys : List Text
passed_keys =
    codes "type"
    ∷ codes "source"
    ∷ codes "tool_call_id"
    ∷ codes "parent_id"
    ∷ codes "tool_name"
    ∷ codes "tool_args"
    ∷ codes "attachments"
    ∷ codes "purpose"
    ∷ []

pub pass_on : List Text → Members → Members
pass_on [] d = empty
pass_on (k ∷ ks) d =
    let rest = pass_on ks d in elim (get k d) [ none ↦ rest | some v ↦ member k v rest ]

-- The entry of checked members; the first arguments are its id and the time.
pub new_entry : Text → Text → Option User → Checks → Json
unfolding pass_on
new_entry id now user (kind, body, d) = j_obj (
    member (codes "id") (j_str id) (
      member (codes "kind") (j_str kind) (
        member (codes "body") body (
          member (codes "created_at") (j_str now) (
            member (codes "appended_by_principal_id") (j_str (appender_id user))
              (pass_on passed_keys d))))))

pub as_list : Option Json → Jsons
as_list (some (j_arr xs)) = xs
as_list decoded = nil

-- An event of the bus, and a call of the event handlers.
pub data Effect : Type 0 where
  published dispatched : (content field : Text) → Value → Row → Json → Effect

pub record Server (Db : Type 0) : Type 0 where
  pub db : Db
  pub has_bus : Bool
  pub has_handlers : Bool
  pub effects : List Effect

-- What an append is asked for, besides the payload.
pub record Request : Type 0 where
  pub content : Text
  pub key : Value
  pub field : Text
  pub user : Option User
  pub row_filter : Option RowFilter
  -- The fresh id, and the time.
  pub entry_id : Text
  pub now : Text

module _ {Db : Type 0} (b : Backend Db) where
  open b use {select, set, loads, dumps}

  -- `get_record`, whose 404 is `not_found`.
  pub get_record : Text → Value → Db → Result Row
  get_record content key db = elim (select content key db) [
    | none ↦ fail not_found
    | some r ↦ done r
  ]

  -- The entries of a column: its text, decoded, if that is a list.
  pub entries_of : Option Value → Jsons
  unfolding as_list
  entries_of (some (str [])) = nil
  entries_of (some (str s)) = as_list (loads s)
  entries_of (some (json t)) = as_list (loads t)
  entries_of raw = nil

  -- `get_record` behind the update, where its 404 is passed on as it is.
  pub read_back : Text → Value → Db → Result Row
  read_back content key db = elim (select content key db) [ none ↦ fail vanished | some r ↦ done r ]

  -- `update_record` without an event bus, on a patch that is not empty
  pub update_record : Text → Value → Dict Value → Db → Result Row × Db
  unfolding read_back
  update_record content key patch db =
      elim (set content key (serialize_all (clean_patch patch)) db) [
        | raise e ↦ (fail internal, db)
        | ok db' ↦ (read_back content key db', db')
      ]

  -- The first half of an append: the checks, the record, the entry and the entries to store.
  pub prepare : Request → Json → Db → Result (Json × Jsons)
  unfolding check_payload get_record passes entries_of new_entry
  prepare q payload db = do
    checks ← check_payload q.key payload
    row ← get_record q.content q.key db
    let entry = new_entry q.entry_id q.now q.user checks in
        if passes q.user q.row_filter row
        then done (entry, add_last (entries_of (lookup q.field row)) entry)
        else fail not_found

  -- The events of an append, for the record that was written.
  pub announce : Request → Json → Row → Server Db → Server Db
  announce q entry row s =
      let event = if s.has_bus then published q.content q.field q.key row entry ∷ [] else [] in
      let call = if s.has_handlers then dispatched q.content q.field q.key row entry ∷ [] else [] in
      record s { effects = s.effects ++ (event ++ call) }

  -- What follows the update: the events, for the record as it is read back.
  pub conclude : Request → Json → Result Row × Db → Server Db → Result Json × Server Db
  unfolding announce
  conclude q entry (fail e, db') s = (fail e, record s { db = db' })
  conclude q entry (done row, db') s = (done entry, announce q entry row (record s { db = db' }))

  -- The second half: the column is written, and the events follow.
  pub commit : Request → Json × Jsons → Server Db → Result Json × Server Db
  unfolding update_record conclude
  commit q (entry, entries) s =
      conclude q entry (update_record q.content q.key ((q.field, json (dumps entries)) ∷ []) s.db) s

  -- `_do_append`
  pub do_append : Request → Json → Server Db → Result Json × Server Db
  unfolding prepare commit
  do_append q payload s = elim (prepare q payload s.db) [
    | fail e ↦ (fail e, s)
    | done prepared ↦ commit q prepared s
  ]
