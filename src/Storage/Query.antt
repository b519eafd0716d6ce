-- ===== src/Storage/Query.antt =====
-- `SqliteStorageProvider.query` of termin_server/providers/builtins/storage_sqlite.py. The database
-- driver and the cursor's encoding (JSON in base64) are parameters.
pub mod Pages
pub mod Order
pub mod Paging
mod Tests
use termin_server.Base.{
  ℕ, suc, List, [], ◌∷◌, ◌++◌, Option, none, some, Text, codes, join, map, take, text_eq, any,
  Value, null, int, pos, Dict, lookup, length, ltb, is_empty, flat_map, if◌then◌else◌,
}
use termin_server.Storage.Identifiers.{Checked, ok, raise, ◌>>=◌, ◌>>◌, assert_safe, q}
use termin_server.Storage.Predicates.{Predicate, Fragment, compile_predicate}
use termin_server.Storage.Keyset.{Direction, asc, desc, SortKey, build_keyset_filter}

abbrev pub Row : Type 0
Row = Dict Value

-- row.get(f)
abbrev pub column : Row → Text → Value
column r f = elim (lookup f r) [ none ↦ null | some v ↦ v ]

pub record QueryOptions : Type 0 where
  pub cursor : Option Text
  pub limit : ℕ
  pub order_by : List SortKey

pub record Page : Type 0 where
  pub records : List Row
  pub next_cursor : Option Text

pub check_order : List SortKey → Checked (Unit {0})
check_order [] = ok tt
check_order (k ∷ ks) = do assert_safe k.field; check_order ks

-- The sort keys, with `id` behind them if it is not among them.
pub sort_keys : List SortKey → List SortKey
sort_keys keys =
    if any (λ (k : SortKey). text_eq k.field (codes "id")) keys
    then keys
    else keys ++ record { field = codes "id"; direction = asc } ∷ []

order_clause : SortKey → Text
order_clause k =
    q k.field ++ (codes " " ++ elim k.direction [ asc ↦ codes "ASC" | desc ↦ codes "DESC" ])

where_sql : List Text → Text
where_sql [] = []
where_sql parts = codes " WHERE " ++ join (codes " AND ") parts

abbrev fragments : Option Fragment → List Fragment
fragments none = []
fragments (some f) = f ∷ []

-- The statement and what it binds: the rows of the predicate and of the keyset filter, in order, one
-- more than the limit.
pub select_statement :
    Text → Option Fragment → Option Fragment → List SortKey → ℕ → Text × List Value
unfolding order_clause where_sql
select_statement content_type predicate keyset keys limit =
    let parts = fragments predicate ++ fragments keyset in
    (
      codes "SELECT * FROM "
          ++ (q content_type
              ++ (where_sql (map (λ (f : Fragment). f.0) parts)
                  ++ (codes " ORDER BY "
                      ++ (join (codes ", ") (map order_clause keys) ++ codes " LIMIT ?")))),
      flat_map (λ (f : Fragment). f.1) parts ++ int (pos (suc limit)) ∷ [],
    )

pub optional {ℓ κ} : {A : Type ℓ} {B : Type κ} → (A → Checked B) → Option A → Checked (Option B)
optional f none = ok none
optional f (some a) = do b ← f a; ok (some b)

last : Row → List Row → Row
last r [] = r
last r (s ∷ rows) = last s rows

-- A cursor of the options, where an empty text is none.
given : Option Text → Option Text
given none = none
given (some c) = if is_empty c then none else some c

pub record Driver : Type 0 where
  -- `db.execute(sql, params)` and `fetchall`
  pub execute : Text → List Value → List Row
  -- `_encode_cursor` and `_decode_cursor`
  pub encode_cursor : List Value → Text
  pub decode_cursor : Text → Checked (List Value)

module _ (d : Driver) where
  open d use {execute, encode_cursor, decode_cursor}

  pub next_cursor : ℕ → List SortKey → List Row → Option Text
  unfolding last
  next_cursor limit keys rows = elim (take limit rows) [
    | [] ↦ none
    | r ∷ rest ↦
        if ltb limit (length rows)
        then some (encode_cursor (map (λ (k : SortKey). column (last r rest) k.field) keys))
        else none
  ]

  unfoldable pub query : Text → Option Predicate → QueryOptions → Checked Page
  unfolding next_cursor check_order given
  query content_type predicate opts = do
    pred ← optional compile_predicate predicate
    check_order opts.order_by
    let keys = sort_keys opts.order_by
    cursor ← optional decode_cursor (given opts.cursor)
    keyset ← optional (build_keyset_filter keys) cursor
    let (sql, params) = select_statement content_type pred keyset keys opts.limit
    let rows = execute sql params
    ok (record { records = take opts.limit rows; next_cursor = next_cursor opts.limit keys rows })
