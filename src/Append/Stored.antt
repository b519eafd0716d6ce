-- ===== src/Append/Stored.antt =====
-- What an append that succeeds leaves in the database.
use termin_server.Base.{
  codes, ◌++◌, if◌then◌else◌, true, false, [], ◌∷◌, some, Text, text_eq, text_eq_refl, is_empty,
  Option-cases, Bool-cases, inl, inr, ◌⊎◌, Value, str, json, Json, j_arr, Jsons, add_last, lookup,
  update, lookup-insert, ◌≡◌, refl, sym, subst, ap, ◌∙◌,
}
use termin_server.Storage.Identifiers.{Checked, StorageError, ok, raise}
use termin_server.Storage.Records.{clean_patch, serialize_all}
use termin_server.Append.{
  Backend, Row, AppendError, Result, done, fail, ◌>>=◌, Server, Request, check_payload, get_record,
  read_back, entries_of, as_list, passes, update_record, prepare, announce, published, dispatched,
  conclude, commit, do_append,
}

-- What an append relies on: an UPDATE by id of one column, not the id, to a text sets it in the row that
-- is there, in a column for texts, and a list comes back from its JSON text, which is not empty.
pub record Laws {Db : Type 0} (b : Backend Db) : Type 0 where
  pub sets :
      {c : Text} {k : Value} {f t : Text} {db db' : Db} {r : Row}
      → text_eq f (codes "id") ≡ false
      → b.set c k ((f, str t) ∷ []) db ≡ ok db'
      → b.select c k db ≡ some r
      → b.select c k db' ≡ some (update r ((f, str t) ∷ []))
  pub round_trip : (xs : Jsons) → b.loads (b.dumps xs) ≡ some (j_arr xs)
  pub not_empty : (xs : Jsons) → is_empty (b.dumps xs) ≡ false

bind-done :
    {A B : Type 0} (m : Result A) (f : A → Result B) (x : B)
    → (m >>= f) ≡ done x
    → (a : A) × (m ≡ done a) × (f a ≡ done x)
bind-done (done a) f x h = (a, refl, h)
bind-done (fail e) f x h = cc

done-injective : {A : Type 0} {a a' : A} → done a ≡ done a' → a ≡ a'
done-injective h = cc

pub fail-done : {A : Type 0} {e : AppendError} {a : A} → fail e ≡ done a → ⊥
fail-done h = cc

module _ {Db : Type 0} (b : Backend Db) where
  get_record-done :
      (c : Text) (k : Value) (db : Db) (r : Row)
      → get_record b c k db ≡ done r
      → b.select c k db ≡ some r
  unfolding get_record
  get_record-done c k db r h = elim (Option-cases (b.select c k db)) [
    | inl n ↦ absurd (fail-done (rw (n, get_record) at h))
    | inr (s, e) ↦ e ∙ ap (λ (x : Row). some x) (done-injective (rw (e, get_record) at h))
  ]

  -- What `prepare` has found, if it is done.
  abbrev pub Prepared : Request → Db → Json × Jsons → Type 0
  Prepared q db (entry, entries) =
      (row : Row) × (b.select q.content q.key db ≡ some row)
      × (passes q.user q.row_filter row ≡ true)
      × (entries ≡ add_last (entries_of b (lookup q.field row)) entry)

  pub prepare-done :
      (q : Request) (payload : Json) (db : Db) (prepared : Json × Jsons)
      → prepare b q payload db ≡ done prepared
      → Prepared q db prepared
  unfolding prepare
  prepare-done q payload db prepared h =
      let (checks, c, h1) = bind-done (check_payload q.key payload) _ prepared h in
      let (row, r, h2) = bind-done (get_record b q.content q.key db) _ prepared h1 in
      elim (Bool-cases (passes q.user q.row_filter row)) [
        | inl p ↦
            subst (λ (x : Json × Jsons). Prepared q db x) (done-injective (rw p at h2))
              (row, get_record-done q.content q.key db row r, p, refl)
        | inr n ↦ absurd (fail-done (rw n at h2))
      ]

Checked-cases :
    {A : Type 0} (m : Checked A) → ((e : StorageError) × (m ≡ raise e)) ⊎ ((a : A) × (m ≡ ok a))
Checked-cases (ok a) = inr (a, refl)
Checked-cases (raise e) = inl (e, refl)

pub Result-cases :
    {A : Type 0} (m : Result A) → ((e : AppendError) × (m ≡ fail e)) ⊎ ((a : A) × (m ≡ done a))
Result-cases (done a) = inr (a, refl)
Result-cases (fail e) = inl (e, refl)

-- The row once the column holds the entries.
abbrev pub with_entries : {Db : Type 0} → Backend Db → Text → Jsons → Row → Row
with_entries b field entries row = update row ((field, str (b.dumps entries)) ∷ [])

module _ {Db : Type 0} (b : Backend Db) (laws : Laws b) where
  pub update_record-done :
      (q : Request) (entries : Jsons) (db : Db) (row row' : Row) (db' : Db)
      → text_eq q.field (codes "id") ≡ false
      → b.select q.content q.key db ≡ some row
      → update_record b q.content q.key ((q.field, json (b.dumps entries)) ∷ []) db
        ≡ (done row', db')
      → (row' ≡ with_entries b q.field entries row) × (b.select q.content q.key db' ≡ some row')
  unfolding update_record read_back clean_patch serialize_all
  update_record-done q entries db row row' db' i s h =
      elim (Checked-cases (b.set q.content q.key ((q.field, str (b.dumps entries)) ∷ []) db)) [
        | inl (e, r) ↦
            absurd (fail-done (ap (λ (x : Result Row × Db). x.0) (rw (r, update_record) at h)))
        | inr (db1, w) ↦
            let now = laws.sets i w s in
            let read = rw (w, update_record) at h in
            let both = rw (now, read_back) at read in
            let same = done-injective (ap (λ (x : Result Row × Db). x.0) both) in
            (
              sym same,
              subst (λ (d : Db). b.select q.content q.key d ≡ some row')
                  (ap (λ (x : Result Row × Db). x.1) both) (now ∙ ap (λ (r : Row). some r) same),
            )
      ]

  pub conclude-done :
      (q : Request) (entry entry' : Json) (o : Result Row × Db) (s s' : Server Db)
      → conclude b q entry o s ≡ (done entry', s')
      → (row' : Row) × (o ≡ (done row', s'.db))
        × (entry' ≡ entry)
        × (s' ≡ announce b q entry row' (record s { db = s'.db }))
  unfolding conclude announce
  conclude-done q entry entry' (fail e, db') s s' h =
      absurd (fail-done (ap (λ (x : Result Json × Server Db). x.0) h))
  conclude-done q entry entry' (done row', db') s s' h =
      let file = ap (λ (x : Result Json × Server Db). x.1.db) h in
      (
        row',
        ap (λ (d : Db). (done row', d)) file,
        sym (done-injective (ap (λ (x : Result Json × Server Db). x.0) h)),
        sym (ap (λ (x : Result Json × Server Db). x.1) h)
            ∙ ap (λ (d : Db). announce b q entry row' (record s { db = d })) file,
      )

  entries_of-str :
      (t : Text) → is_empty t ≡ false → entries_of b (some (str t)) ≡ as_list (b.loads t)
  unfolding entries_of as_list
  entries_of-str [] h = cc
  entries_of-str (c ∷ t) h = refl

  lookup-with_entries :
      (field k : Text) (entries : Jsons) (row : Row)
      → text_eq field k ≡ false
      → lookup k (with_entries b field entries row) ≡ lookup k row
  unfolding update
  lookup-with_entries field k entries row n =
      lookup-insert field k (str (b.dumps entries)) row ∙ rw n refl

  pub entries_of-with_entries :
      (field : Text) (entries : Jsons) (row : Row)
      → entries_of b (lookup field (with_entries b field entries row)) ≡ entries
  unfolding update entries_of as_list
  entries_of-with_entries field entries row =
      rw (lookup-insert field field (str (b.dumps entries)) row, text_eq_refl field)
        (entries_of-str (b.dumps entries) (laws.not_empty entries)
          ∙ rw (laws.round_trip entries) refl)

  -- What an append that is done has changed.
  pub record Appended (q : Request) (entry : Json) (s s' : Server Db) : Type 0 where
    -- The record was there, its filter let the user pass, and now it has a new row.
    pub old_row : Row
    pub was : b.select q.content q.key s.db ≡ some old_row
    pub passed : passes q.user q.row_filter old_row ≡ true
    pub new_row : Row
    pub is : b.select q.content q.key s'.db ≡ some new_row
    -- Its entries are the old ones and the new one behind them.
    pub added :
        entries_of b (lookup q.field new_row)
        ≡ add_last (entries_of b (lookup q.field old_row)) entry
    -- The other columns are as they were.
    pub kept : (k : Text) → text_eq q.field k ≡ false → lookup k new_row ≡ lookup k old_row
    -- With a bus there is one event more, and with handlers one call more, both of this entry and of
    -- the new row; without them there is none.
    pub told :
        s'.effects
        ≡ s.effects
          ++ ((if s.has_bus then published q.content q.field q.key new_row entry ∷ [] else [])
              ++ (if s.has_handlers
                  then dispatched q.content q.field q.key new_row entry ∷ []
                  else []))
    pub same_bus : s'.has_bus ≡ s.has_bus
    pub same_handlers : s'.has_handlers ≡ s.has_handlers

  -- Over a backend that obeys the laws, an append that returns an entry has found the record, with a
  -- row that the filter lets the user see, has put the entry behind the entries of that row, has kept
  -- the other columns, and has published this entry with the new row if there is a bus, and dispatched
  -- it if there are handlers. The field is taken not to be the id.
  pub do_append-Appended :
      (q : Request) (payload entry : Json) (s s' : Server Db)
      → text_eq q.field (codes "id") ≡ false
      → do_append b q payload s ≡ (done entry, s')
      → Appended q entry s s'
  unfolding do_append commit announce
  do_append-Appended q payload entry s s' i h = elim (Result-cases (prepare b q payload s.db)) [
    | inl (e, f) ↦
        absurd (fail-done (ap (λ (x : Result Json × Server Db). x.0) (rw (f, do_append) at h)))
    | inr ((made, entries), d) ↦
        let (row, w, p, a) = prepare-done b q payload s.db (made, entries) d in
        let (row', u, m, n) = conclude-done q made entry _ s s' (rw (d, do_append) at h) in
        let (c, now) = update_record-done q entries s.db row row' s'.db i w u in
        subst (λ (x : Json). Appended q x s s') (sym m)
          (record {
            old_row = row;
            was = w;
            passed = p;
            new_row = row';
            is = now;
            added =
                ap (λ (r : Row). entries_of b (lookup q.field r)) c
                ∙ (entries_of-with_entries q.field entries row ∙ a);
            kept =
                λ k n. ap (λ (r : Row). lookup k r) c ∙ lookup-with_entries q.field k entries row n;
            told = ap (λ (t : Server Db). t.effects) n;
            same_bus = ap (λ (t : Server Db). t.has_bus) n;
            same_handlers = ap (λ (t : Server Db). t.has_handlers) n;
          })
  ]
