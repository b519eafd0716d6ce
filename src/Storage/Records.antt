-- ===== src/Storage/Records.antt =====
-- The records of `SqliteStorageProvider`: create, read, update, update_if, delete, over the statements
-- of Engine. A record's id is a number. A mapping is a `Dict`.
pub mod Claims
pub mod Replays
mod Tests
use termin_server.Base.{
  ℕ, zero, suc, Bool, true, false, List, [], ◌∷◌, Option, none, some, Text, codes, Value, null, int,
  pos, str, json, bool, float, is_none, is_blank, ◌||◌, Dict, insert, ltb, if◌then◌else◌,
}
use termin_server.Storage.Identifiers.{Checked, ok, raise, ◌>>=◌, ◌>>◌, assert_safe}
use termin_server.Storage.Predicates.{Predicate, compile_predicate}
use termin_server.Storage.Engine.{Engine, Row}

-- `_serialize_for_sqlite`: a list or a dict becomes a text.
pub serialize : Value → Value
serialize null = null
serialize (bool b) = bool b
serialize (int n) = int n
serialize (float f) = float f
serialize (str s) = str s
serialize (json t) = str t

unfoldable pub serialize_all : Dict Value → Dict Value
unfolding serialize
serialize_all [] = []
serialize_all ((k, v) ∷ d) = (k, serialize v) ∷ serialize_all d

-- {k: v for k, v in record.items() if v != ""}
pub clean_record : Dict Value → Dict Value
clean_record [] = []
clean_record ((k, v) ∷ d) = let rest = clean_record d in if is_blank v then rest else (k, v) ∷ rest

-- {k: v for k, v in patch.items() if v is not None and v != ""}
unfoldable pub clean_patch : Dict Value → Dict Value
clean_patch [] = []
clean_patch ((k, v) ∷ d) =
    let rest = clean_patch d in if is_none v || is_blank v then rest else (k, v) ∷ rest

pub check_columns : Dict Value → Checked (Unit {0})
check_columns [] = ok tt
check_columns ((k, v) ∷ d) = do assert_safe k; check_columns d

pub data Reason : Type 0 where
  applied not_found condition_failed : Reason

-- `UpdateResult`, whose flag `applied` is that the reason is `applied`.
abbrev pub UpdateResult : Type 0
UpdateResult = Reason × Option Row

module _ {Db : Type 0} (e : Engine Db) where
  open e use {
    select, select_where, insert_row, set, set_where, remove, ensure_keys, key_id, add_key,
    drop_key,
  }

  pub read : Text → ℕ → Db → Option Row
  read content_type id db = select content_type id db

  -- What is said when no row was changed.
  pub disambiguate : Text → ℕ → Db → UpdateResult
  disambiguate content_type id db = elim (select content_type id db) [
    | none ↦ (not_found, none)
    | some r ↦ (condition_failed, some r)
  ]

  -- The branch of an empty patch.
  pub probe : Text → ℕ → Text × List Value → Db → UpdateResult
  unfolding disambiguate
  probe content_type id cond db = elim (select_where content_type id cond db) [
    | none ↦ disambiguate content_type id db
    | some r ↦ (applied, some r)
  ]

  -- What is said after the UPDATE, by its rowcount.
  pub report : Text → ℕ → ℕ → Db → UpdateResult
  unfolding disambiguate
  report content_type id zero db = disambiguate content_type id db
  report content_type id (suc n) db = (applied, select content_type id db)

  -- `update_if` behind the compilation of its condition
  pub update_matching : Text → ℕ → Text × List Value → Dict Value → Db → Checked (UpdateResult × Db)
  unfolding probe report
  update_matching content_type id cond [] db = do
    assert_safe content_type
    ok (probe content_type id cond db, db)
  update_matching content_type id cond (x ∷ xs) db = do
    check_columns (x ∷ xs)
    assert_safe content_type
    r ← set_where content_type id cond (x ∷ xs) db
    ok (report content_type id r.0 r.1, r.1)

  pub update_if : Text → ℕ → Predicate → Dict Value → Db → Checked (UpdateResult × Db)
  unfolding update_matching
  update_if content_type id condition patch db = do
    cond ← compile_predicate condition
    update_matching content_type id cond (clean_patch patch) db

  -- `update_fields`
  update_fields : Text → ℕ → Dict Value → Db → Checked Db
  update_fields content_type id [] db = ok db
  update_fields content_type id (x ∷ xs) db = set content_type id (serialize_all (x ∷ xs)) db

  pub update_record : Text → ℕ → Dict Value → Db → Checked (Option Row × Db)
  unfolding update_fields
  update_record content_type id patch db = elim (select content_type id db) [
    | none ↦ ok (none, db)
    | some existing ↦ do
      db' ← update_fields content_type id (clean_patch patch) db
      ok (select content_type id db', db')
  ]

  -- `delete`, whose cascade mode is not looked at
  pub delete_record : Text → ℕ → Db → Checked (Bool × Db)
  delete_record content_type id db = do r ← remove content_type id db; ok (ltb 0 r.0, r.1)

  -- `insert_raw`
  pub insert_raw : Text → Dict Value → Db → Checked (Option ℕ × Db)
  insert_raw content_type [] db = ok (none, db)
  insert_raw content_type (x ∷ xs) db = do
    r ← insert_row content_type (serialize_all (x ∷ xs)) db
    ok (some r.0, r.1)

  -- `_lookup_idempotency_record`, with the removal of a stale entry
  pub lookup_idempotency_record : Text → Text → Db → Option Row × Db
  lookup_idempotency_record content_type key db = elim (key_id content_type key db) [
    | none ↦ (none, db)
    | some id ↦ elim (select content_type id db) [
      | some r ↦ (some r, db)
      | none ↦ (none, drop_key content_type key db)
    ]
  ]

  id_value : Option ℕ → Value
  id_value none = null
  id_value (some i) = int (pos i)

  -- `create` behind the check of the key
  pub insert_fresh : Text → Dict Value → Text → Db → Checked (Row × Db)
  unfolding insert_raw id_value
  insert_fresh content_type cleaned key db = do
    r ← insert_raw content_type cleaned db
    db' ← add_key content_type key r.0 r.1
    ok (insert (codes "id") (id_value r.0) cleaned, db')

  -- The record that the key leads to, or a fresh one.
  pub resume : Text → Dict Value → Text → Option Row → Db → Checked (Row × Db)
  unfolding insert_fresh
  resume content_type cleaned key (some existing) db = ok (existing, db)
  resume content_type cleaned key none db = insert_fresh content_type cleaned key db

  pub create : Text → Dict Value → Option Text → Db → Checked (Row × Db)
  unfolding insert_raw id_value resume lookup_idempotency_record
  create content_type record_ none db = elim (clean_record record_) [
    | [] ↦ ok ((codes "id", null) ∷ [], db)
    | x ∷ xs ↦ do
      r ← insert_raw content_type (x ∷ xs) db
      ok (insert (codes "id") (id_value r.0) (x ∷ xs), r.1)
  ]
  create content_type record_ (some key) db =
      let found = lookup_idempotency_record content_type key (ensure_keys db) in
      resume content_type (clean_record record_) key found.0 found.1
