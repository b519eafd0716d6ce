-- ===== src/Storage/Query/Paging.antt =====
-- Following the cursors of `query` collects the rows of a table.
use termin_server.Base.{
  ℕ, zero, suc, ◌≤◌, ◌<◌, Bool, false, List, [], ◌∷◌, ◌++◌, Option, some, none, take, All, length,
  Text, Value, is_empty, ◌≡◌, inl, inr, refl, ap, sym, subst, ◌∙◌, arith, append_assoc, append-nil,
  length-map, int, pos, codes, join, map, flat_map,
}
use termin_server.Storage.Identifiers.{q, Checked, ok, ◌>>=◌}
use termin_server.Storage.Predicates.{Predicate, Fragment, compile_predicate}
use termin_server.Storage.Keyset.{asc, desc, SortKey, build_keyset_filter}
use termin_server.Storage.Keyset.Meaning.{build_keyset_filter_lem}
use termin_server.Storage.Query.{
  Row, column, QueryOptions, Page, Driver, order_clause, where_sql, sort_keys, check_order,
  optional, select_statement, query, next_cursor, given,
}
use termin_server.Storage.Query.Pages.{
  take-take-suc, take-all, Overflows, page_cases, next_cursor-some, next_cursor-none,
  lt-length-take-suc,
}
use termin_server.Storage.Query.Order.{
  cursor_of, selected, IsOrdered, NoNulls, All-middle, selected-middle,
}

abbrev follow : (Option Text → Checked (List Row)) → Option Text → Checked (List Row)
follow fetch none = ok []
follow fetch (some c) = fetch (some c)

module _ (d : Driver) (content_type : Text) (predicate : Option Predicate) (limit : ℕ)
    (order_by : List SortKey) where
  open d use {execute, encode_cursor, decode_cursor}

  abbrev pub options : Option Text → QueryOptions
  options cursor = record { cursor = cursor; limit = limit; order_by = order_by }

  -- A client that asks for page after page, as long as there is a next cursor.
  unfoldable pub fetch_all : ℕ → Option Text → Checked (List Row)
  fetch_all zero cursor = ok []
  fetch_all (suc n) cursor = do
    page ← query d content_type predicate (options cursor)
    rest ← follow (fetch_all n) page.next_cursor
    ok (page.records ++ rest)

  abbrev pub ordering : SortKey → Text
  ordering k = q k.field ++ elim k.direction [ asc ↦ codes " ASC" | desc ↦ codes " DESC" ]

  abbrev pub conditions : List Fragment → Text
  conditions [] = []
  conditions (f ∷ fs) =
      codes " WHERE " ++ join (codes " AND ") (map (λ (g : Fragment). g.0) (f ∷ fs))

  -- The rows that the driver gives for the conditions, in the order of the keys, if the number is bound
  -- for the place of the limit.
  abbrev pub answer : List Fragment → ℕ → List Row
  answer fs n =
      execute
        (codes "SELECT * FROM "
          ++ (q content_type
              ++ (conditions fs
                  ++ (codes " ORDER BY "
                      ++ (join (codes ", ") (map ordering (sort_keys order_by))
                          ++ codes " LIMIT ?")))))
        (flat_map (λ (f : Fragment). f.1) fs ++ int (pos n) ∷ [])

  abbrev pub with_keyset : Option Fragment → Fragment → List Fragment
  with_keyset none keyset = keyset ∷ []
  with_keyset (some pred) keyset = pred ∷ keyset ∷ []

  abbrev pub alone : Option Fragment → List Fragment
  alone none = []
  alone (some pred) = pred ∷ []

  -- How the driver answers for a table: the rows of the predicate in the order of the keys.
  pub record Answers (less same : Value → Value → Bool) (pred : Option Fragment) (table : List Row)
      : Type 0 where
    -- The predicate compiles, and the names in the order are accepted.
    pub compiled : optional compile_predicate predicate ≡ ok pred
    pub checked : check_order order_by ≡ ok tt
    -- The table is ordered, and has no NULL among the keys.
    pub ordered : IsOrdered less same (sort_keys order_by) table
    pub no_nulls : NoNulls less same (sort_keys order_by) table
    -- Whatever number is bound, LIMIT cuts the rows to it, and the keyset condition selects among them.
    pub first : (n : ℕ) → answer (alone pred) n ≡ take n table
    pub next :
        All
          (λ r.
            (f : Fragment) (n : ℕ)
            → build_keyset_filter (sort_keys order_by) (cursor_of (sort_keys order_by) r) ≡ ok f
            → answer (with_keyset pred f) n
              ≡ take n (selected less same (sort_keys order_by) r table))
          table
    -- A cursor decodes to the values that were encoded.
    pub decoded :
        All
          (λ r.
            (is_empty (encode_cursor (cursor_of (sort_keys order_by) r)) ≡ false)
            × (decode_cursor (encode_cursor (cursor_of (sort_keys order_by) r))
                ≡ ok (cursor_of (sort_keys order_by) r)))
          table

  order_clause-ordering : (k : SortKey) → order_clause k ≡ ordering k
  unfolding order_clause
  order_clause-ordering k =
      elim k.direction
        as (λ x.
          q k.field ++ (codes " " ++ elim x [ asc ↦ codes "ASC" | desc ↦ codes "DESC" ])
          ≡ q k.field ++ elim x [ asc ↦ codes " ASC" | desc ↦ codes " DESC" ]) [
            | asc ↦ refl
            | desc ↦ refl
          ]

  map-order_clause : (keys : List SortKey) → map order_clause keys ≡ map ordering keys
  map-order_clause [] = refl
  map-order_clause (k ∷ keys) = rw (order_clause-ordering k, map-order_clause keys) refl

  -- What the code asks for, without a keyset and with one
  ask-first :
      (pred : Option Fragment)
      → execute
          (select_statement content_type pred none (sort_keys order_by) limit).0
          (select_statement content_type pred none (sort_keys order_by) limit).1
        ≡ answer (alone pred) (suc limit)
  unfolding select_statement where_sql
  ask-first none = rw (map-order_clause (sort_keys order_by)) refl
  ask-first (some p) = rw (map-order_clause (sort_keys order_by)) refl

  ask-next :
      (pred : Option Fragment) (f : Fragment)
      → execute
          (select_statement content_type pred (some f) (sort_keys order_by) limit).0
          (select_statement content_type pred (some f) (sort_keys order_by) limit).1
        ≡ answer (with_keyset pred f) (suc limit)
  unfolding select_statement where_sql
  ask-next none f = rw (map-order_clause (sort_keys order_by)) refl
  ask-next (some p) f = rw (map-order_clause (sort_keys order_by)) refl

  abbrev page_of : List Row → Page
  page_of rows = record {
    records = take limit rows;
    next_cursor = next_cursor d limit (sort_keys order_by) rows;
  }

  abbrev cursor_at : Row → Option Text
  cursor_at r = some (encode_cursor (cursor_of (sort_keys order_by) r))

  module _ {less same : Value → Value → Bool} {pred : Option Fragment} where
    query-first :
        {table : List Row}
        → Answers less same pred table
        → query d content_type predicate (options none) ≡ ok (page_of (take (suc limit) table))
    unfolding query given optional
    query-first a =
        rw (a.compiled, a.checked)
          (ap (λ (rows : List Row). ok (page_of rows)) (ask-first pred ∙ a.first (suc limit)))

    query-next :
        (xs : List Row) (r : Row) (ws : List Row)
        → Answers less same pred (xs ++ r ∷ ws)
        → query d content_type predicate (options (cursor_at r))
          ≡ ok (page_of (take (suc limit) ws))
    unfolding query given optional
    query-next xs r ws a =
        let (full, back) = (All-middle _ xs r ws a.decoded).0 in
        let built =
          build_keyset_filter_lem (sort_keys order_by) (cursor_of (sort_keys order_by) r)
            (length-map (λ (k : SortKey). column r k.field) (sort_keys order_by)) in
        rw (a.compiled, a.checked, full, back, built)
          (ap (λ (rows : List Row). ok (page_of rows))
            (ask-next pred _
              ∙ (All-middle _ xs r ws a.next).0 _ (suc limit) built
              ∙ ap (take (suc limit))
                  (selected-middle less same (sort_keys order_by) xs r ws a.no_nulls a.ordered)))

  fetch_all_page :
      (n : ℕ) (cursor : Option Text) (page : Page)
      → query d content_type predicate (options cursor) ≡ ok page
      → fetch_all (suc n) cursor
        ≡ (follow (fetch_all n) page.next_cursor >>= λ rest. ok (page.records ++ rest))
  unfolding fetch_all
  fetch_all_page n cursor page asked = rw asked refl

  fetch_all_step :
      (n : ℕ) (cursor : Option Text) (rows : List Row)
      → 0 < limit
      → query d content_type predicate (options cursor) ≡ ok (page_of (take (suc limit) rows))
      → ((zs : List Row) (r : Row) (ws : List Row)
          → rows ≡ zs ++ r ∷ ws
          → length ws ≤ n
          → fetch_all n (cursor_at r) ≡ ok ws)
      → length rows ≤ suc n
      → fetch_all (suc n) cursor ≡ ok rows
  unfolding Overflows
  fetch_all_step n cursor rows positive asked later h = elim (page_cases limit rows positive) [
    | inl fits ↦
        let whole = take-all (suc limit) rows (omega arith) in
        fetch_all_page n cursor _ (rw whole at asked)
        ∙ rw (
          next_cursor-none d limit (sort_keys order_by) rows fits,
          take-all limit rows fits,
          append-nil,
        )
    | inr (zs, r, ws, e, t, l, p) ↦
        let more = lt-length-take-suc limit rows (omega arith) in
        let head = take-take-suc limit rows ∙ t in
        fetch_all_page n cursor _ asked
        ∙ rw
            (
              next_cursor-some d limit (sort_keys order_by) (take (suc limit) rows) r zs head more,
              later zs r ws e (omega arith),
              head,
            )
            (ap ok (append_assoc zs (r ∷ []) ws ∙ sym e))
  ]

  module _ {less same : Value → Value → Bool} {pred : Option Fragment} where
    fetch_all_next :
        (n : ℕ) (xs : List Row) (r : Row) (ws : List Row)
        → 0 < limit
        → Answers less same pred (xs ++ r ∷ ws)
        → length ws ≤ n
        → fetch_all n (cursor_at r) ≡ ok ws
    fetch_all_next zero xs r [] positive a h = unfold fetch_all in refl
    fetch_all_next zero xs r (w ∷ ws) positive a h = absurd (omega arith)
    fetch_all_next (suc n) xs r ws positive a h =
        fetch_all_step n (cursor_at r) ws positive (query-next xs r ws a)
          (λ zs r' ws' e k.
            fetch_all_next n (xs ++ r ∷ zs) r' ws' positive
              (subst (λ (t : List Row). Answers less same pred t)
                (ap (λ (t : List Row). xs ++ r ∷ t) e ∙ sym (append_assoc xs (r ∷ zs) (r' ∷ ws')))
                a)
              k)
          h

    pub fetch_all_complete :
        {table : List Row} (n : ℕ)
        → 0 < limit
        → Answers less same pred table
        → length table ≤ n
        → fetch_all n none ≡ ok table
    fetch_all_complete {table = []} zero positive a h = unfold fetch_all in refl
    fetch_all_complete {table = r ∷ table} zero positive a h = absurd (omega arith)
    fetch_all_complete (suc n) positive a h =
        fetch_all_step n none _ positive (query-first a)
          (λ zs r ws e k.
            fetch_all_next n zs r ws positive
              (subst (λ (t : List Row). Answers less same pred t) e a) k)
          h
