-- ===== src/Storage/Records/Replays.antt =====
-- Creations with an idempotency key.
use termin_server.Base.{
  ℕ, Bool, [], ◌∷◌, Option, none, some, int, pos, codes, lookup, lookup-insert, ◌⊎◌, Text, Value,
  Dict, Option-cases, inl, inr, ◌≡◌, ◌≢◌, refl, sym, subst, ap, ◌∙◌,
}
use termin_server.Storage.Identifiers.{ok}
use termin_server.Storage.Predicates.{Fragment}
use termin_server.Storage.Engine.{Engine, Laws, Row}
use termin_server.Storage.Records.{
  clean_record, insert_raw, insert_fresh, resume, lookup_idempotency_record, create,
}
use termin_server.Storage.Results.{bind-ok, ok-injective}

none-some : {A : Type 0} {a : A} → none ≡ some a → ⊥
none-some h = cc

module _ {Db : Type 0} (e : Engine Db) {holds : Fragment → Row → Bool}
    {fits : Text → Dict Value → Type 0} (laws : Laws e holds fits) where
  -- The key leads to a record.
  abbrev pub Recorded : Text → Text → Db → Row → Type 0
  Recorded table key db r =
      (i : ℕ) × (e.key_id table key db ≡ some i) × (e.select table i db ≡ some r)

  -- The key leads to a record, which is the one that a creation has returned, or has the id that the
  -- creation has returned.
  abbrev pub Created : Text → Text → Db → Row → Row → Type 0
  Created table key db r stored =
      (i : ℕ) × (e.key_id table key db ≡ some i)
      × (e.select table i db ≡ some stored)
      × ((r ≡ stored) ⊎ (lookup (codes "id") r ≡ some (int (pos i))))

  insert_fresh-Created :
      (table key : Text) (cleaned : Dict Value) (db db' : Db) (r : Row)
      → insert_fresh e table cleaned key db ≡ ok (r, db')
      → (stored : Row) × Created table key db' r stored
  unfolding insert_fresh insert_raw
  insert_fresh-Created table key [] db db' r h =
      let (db1, a, h1) = bind-ok (e.add_key table key none db) _ (r, db') h in
      let (x, q, n) = laws.refuses table key db in absurd (n db1 (sym q ∙ a))
  insert_fresh-Created table key (x ∷ xs) db db' r h =
      let (o, a, h1) = bind-ok (insert_raw e table (x ∷ xs) db) _ (r, db') h in
      let (ins, b, h2) = bind-ok _ _ o a in
      let (db1, c, h3) = bind-ok (e.add_key table key o.0 o.1) _ (r, db') h1 in
      let (stored, d) = laws.inserts b in
      let (known, same) = laws.adds (
        subst (λ (p : Option ℕ × Db). e.add_key table key p.0 p.1 ≡ ok db1) (sym (ok-injective h2))
          c) in
      subst (λ (p : Row × Db). (s : Row) × Created table key p.1 p.0 s) (ok-injective h3)
        (
          stored,
          (
            ins.0,
            known,
            same table ins.0 ∙ d,
            inr (rw (← ok-injective h2, lookup-insert (codes "id") (codes "id")) refl),
          ),
        )

  lookup-Recorded :
      (table key : Text) (db : Db) (r : Row)
      → Recorded table key db r
      → lookup_idempotency_record e table key db ≡ (some r, db)
  unfolding lookup_idempotency_record
  lookup-Recorded table key db r (i, k, s) =
      rw (k, lookup_idempotency_record) (rw (s, lookup_idempotency_record) refl)

  Recorded-lookup :
      (table key : Text) (db : Db) (r : Row)
      → (lookup_idempotency_record e table key db).0 ≡ some r
      → ((lookup_idempotency_record e table key db).1 ≡ db) × Recorded table key db r
  unfolding lookup_idempotency_record
  Recorded-lookup table key db r h = elim (Option-cases (e.key_id table key db)) [
    | inl n ↦ absurd (none-some (rw (n, lookup_idempotency_record) at h))
    | inr (i, k) ↦ elim (Option-cases (e.select table i db)) [
      | inl m ↦ absurd (none-some (rw (k, m, lookup_idempotency_record) at h))
      | inr (s, f) ↦ (
        rw (k, lookup_idempotency_record) (rw (f, lookup_idempotency_record) refl),
        (i, k, f ∙ (rw (k, f, lookup_idempotency_record) at h)),
      )
    ]
  ]

  Recorded-ensure_keys :
      (table key : Text) (db : Db) (r : Row)
      → Recorded table key db r
      → Recorded table key (e.ensure_keys db) r
  Recorded-ensure_keys table key db r (i, k, s) =
      (i, laws.ensures_keys table key db ∙ k, laws.ensures table i db ∙ s)

  create-Created :
      (table key : Text) (record_ : Dict Value) (db db' : Db) (r : Row)
      → create e table record_ (some key) db ≡ ok (r, db')
      → (stored : Row) × Created table key db' r stored
  unfolding create
  create-Created table key record_ db db' r h =
      elim (Option-cases (lookup_idempotency_record e table key (e.ensure_keys db)).0) [
        | inl n ↦
            insert_fresh-Created table key (clean_record record_) _ db' r (rw (n, create) at h)
        | inr (s, f) ↦
            let (same, (i, k, found)) = Recorded-lookup table key (e.ensure_keys db) s f in
            (
              s,
              subst (λ (p : Row × Db). Created table key p.1 p.0 s)
                  (ok-injective (rw (f, create) at h))
                  (
                    i,
                    ap (e.key_id table key) same ∙ k,
                    ap (e.select table i) same ∙ found,
                    inl refl,
                  ),
            )
      ]

  -- Over a database that obeys the laws, once a creation with a key has succeeded there is a record, the
  -- one that it returned or the one in the table under the id that it returned, that every further
  -- creation with that key returns, whatever it is asked to store, from any database in which the key
  -- and the records of the table are as the creation left them; and that creation leaves them so.
  pub create-create :
      (table key : Text) (record_ : Dict Value) (db db' later : Db) (r : Row)
      → create e table record_ (some key) db ≡ ok (r, db')
      → e.key_id table key later ≡ e.key_id table key db'
      → ((j : ℕ) → e.select table j later ≡ e.select table j db')
      → (stored : Row) × Created table key db' r stored
        × ((again : Dict Value)
            → create e table again (some key) later ≡ ok (stored, e.ensure_keys later))
        × (e.key_id table key (e.ensure_keys later) ≡ e.key_id table key db')
        × ((j : ℕ) → e.select table j (e.ensure_keys later) ≡ e.select table j db')
  unfolding create
  create-create table key record_ db db' later r h same_key same_rows =
      let (stored, (i, k, found, tied)) = create-Created table key record_ db db' r h in
      (
        stored,
        (i, k, found, tied),
        λ again.
            rw
              (
                lookup-Recorded table key (e.ensure_keys later) stored (
                    Recorded-ensure_keys table key later stored
                      (i, same_key ∙ k, same_rows i ∙ found)),
                create,
              )
              refl,
        laws.ensures_keys table key later ∙ same_key,
        λ j. laws.ensures table j later ∙ same_rows j,
      )

  -- A creation with a key that leads to no record raises if its record has nothing but empty texts:
  -- no row is inserted, and the key cannot be stored without the id of one.
  pub create-blank :
      (table key : Text) (record_ : Dict Value) (db : Db) (r : Row × Db)
      → clean_record record_ ≡ []
      → (lookup_idempotency_record e table key (e.ensure_keys db)).0 ≡ none
      → create e table record_ (some key) db ≢ ok r
  unfolding create resume insert_fresh insert_raw
  create-blank table key record_ db r c l h =
      let (db1, a, h1) = bind-ok (e.add_key table key none _) _ r (rw (l, c, create) at h) in
      let (x, q, n) = laws.refuses table key _ in n db1 (sym q ∙ a)
