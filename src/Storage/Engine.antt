-- ===== src/Storage/Engine.antt =====
-- What the storage provider asks of the database (aiosqlite over SQLite), and what it relies on. A
-- statement that raises is `raise`; the state after it is the one before.
use termin_server.Base.{
  ℕ, Bool, true, false, [], ◌∷◌, Option, none, some, Text, Value, json, Dict, codes, lookup, update,
  ◌≡◌, ◌≢◌, if◌then◌else◌,
}
use termin_server.Storage.Identifiers.{Checked, ok}
use termin_server.Storage.Predicates.{Fragment}

abbrev pub Row : Type 0
Row = Dict Value

-- The statements of the provider, named for their shape. The first arguments are the table and the
-- id; a fragment is what stands behind AND.
pub record Engine (Db : Type 0) : Type 0 where
  -- SELECT * FROM t WHERE id = ?
  pub select : Text → ℕ → Db → Option Row
  -- SELECT * FROM t WHERE id = ? AND (…)
  pub select_where : Text → ℕ → Fragment → Db → Option Row
  -- INSERT INTO t (…) VALUES (…), with its lastrowid
  pub insert_row : Text → Dict Value → Db → Checked (ℕ × Db)
  -- UPDATE t SET … WHERE id = ?
  pub set : Text → ℕ → Dict Value → Db → Checked Db
  -- UPDATE t SET … WHERE id = ? AND (…), with its rowcount
  pub set_where : Text → ℕ → Fragment → Dict Value → Db → Checked (ℕ × Db)
  -- DELETE FROM t WHERE id = ?, with its rowcount
  pub remove : Text → ℕ → Db → Checked (ℕ × Db)
  -- The table of idempotency keys: CREATE IF NOT EXISTS, SELECT, INSERT, DELETE
  pub ensure_keys : Db → Db
  pub key_id : Text → Text → Db → Option ℕ
  pub add_key : Text → Text → Option ℕ → Db → Checked Db
  pub drop_key : Text → Text → Db → Db

-- The row, if the condition holds of it.
abbrev pub matching : (Row → Bool) → Option Row → Option Row
matching holds none = none
matching holds (some r) = if holds r then some r else none

abbrev pub has_json : Dict Value → Bool
has_json [] = false
has_json ((k, json t) ∷ d) = true
has_json ((k, v) ∷ d) = has_json d

-- How the statements act on one row; `holds` is what a fragment says of a row,
-- and `fits` that a table has the columns of some values, which store the values as they are.
pub record Laws {Db : Type 0} (e : Engine Db) (holds : Fragment → Row → Bool)
    (fits : Text → Dict Value → Type 0) : Type 0 where
  pub selects :
      (t : Text) (i : ℕ) (c : Fragment) (db : Db)
      → e.select_where t i c db ≡ matching (holds c) (e.select t i db)
  pub sets :
      {t : Text} {i n : ℕ} {c : Fragment} {p : Dict Value} {db db' : Db} {r : Row}
      → fits t p
      → lookup (codes "id") p ≡ none
      → e.set_where t i c p db ≡ ok (n, db')
      → matching (holds c) (e.select t i db) ≡ some r
      → (n ≡ 1) × (e.select t i db' ≡ some (update r p))
  pub misses :
      {t : Text} {i n : ℕ} {c : Fragment} {p : Dict Value} {db db' : Db}
      → e.set_where t i c p db ≡ ok (n, db')
      → matching (holds c) (e.select t i db) ≡ none
      → (n ≡ 0) × (db' ≡ db)
  -- Parameter binding takes no list and no dict.
  pub unbindable :
      (t : Text) (i : ℕ) (c : Fragment) (p : Dict Value) (db : Db)
      → has_json p ≡ true
      → (x : Checked (ℕ × Db)) × (e.set_where t i c p db ≡ x) × ((r : ℕ × Db) → x ≢ ok r)
  -- The table of keys does not touch the others, and a key is found once it is added.
  pub ensures : (t : Text) (i : ℕ) (db : Db) → e.select t i (e.ensure_keys db) ≡ e.select t i db
  pub ensures_keys : (c k : Text) (db : Db) → e.key_id c k (e.ensure_keys db) ≡ e.key_id c k db
  pub inserts :
      {t : Text} {d : Dict Value} {i : ℕ} {db db' : Db}
      → e.insert_row t d db ≡ ok (i, db')
      → (r : Row) × (e.select t i db' ≡ some r)
  pub adds :
      {c k : Text} {i : ℕ} {db db' : Db}
      → e.add_key c k (some i) db ≡ ok db'
      → (e.key_id c k db' ≡ some i) × ((t : Text) (j : ℕ) → e.select t j db' ≡ e.select t j db)
  -- record_id is NOT NULL
  pub refuses :
      (c k : Text) (db : Db)
      → (x : Checked Db) × (e.add_key c k none db ≡ x) × ((r : Db) → x ≢ ok r)
