-- ===== src/Storage/Records/Claims.antt =====
-- Conditional updates.
use termin_server.Base.{
  ℕ, Bool, true, false, [], ◌∷◌, Option, none, some, Text, Value, Dict, codes, lookup, update,
  Bool-cases, Option-cases, inl, inr, subst, ◌≡◌, ◌≢◌, refl, sym, ◌∙◌,
}
use termin_server.Storage.Identifiers.{ok, assert_safe}
use termin_server.Storage.Results.{bind-ok, ok-injective}
use termin_server.Storage.Predicates.{Predicate, Fragment, compile_predicate}
use termin_server.Storage.Engine.{Engine, Laws, Row, has_json}
use termin_server.Storage.Records.{
  applied, not_found, condition_failed, UpdateResult, clean_patch, check_columns, disambiguate,
  probe, report, update_matching, update_if, read,
}

-- What an `update_if` that does not raise says, and does to the record of its id.
pub data Outcome {Db : Type 0} (e : Engine Db) (holds : Row → Bool) (table : Text) (id : ℕ)
    (patch : Dict Value) (db db' : Db) (result : UpdateResult) : Type 0 where
  missing :
      read e table id db ≡ none
      → result ≡ (not_found, none)
      → db' ≡ db
      → Outcome e holds table id patch db db' result
  refused :
      (r : Row)
      → read e table id db ≡ some r
      → holds r ≡ false
      → result ≡ (condition_failed, some r)
      → db' ≡ db
      → Outcome e holds table id patch db db' result
  taken :
      (r : Row)
      → read e table id db ≡ some r
      → holds r ≡ true
      → result ≡ (applied, some (update r patch))
      → read e table id db' ≡ some (update r patch)
      → Outcome e holds table id patch db db' result

module _ {Db : Type 0} (e : Engine Db) {holds : Fragment → Row → Bool}
    {fits : Text → Dict Value → Type 0} (laws : Laws e holds fits) where
  disambiguate-none :
      (table : Text) (id : ℕ) (db : Db)
      → e.select table id db ≡ none
      → disambiguate e table id db ≡ (not_found, none)
  unfolding disambiguate
  disambiguate-none table id db n = rw (n, disambiguate) refl

  disambiguate-some :
      (table : Text) (id : ℕ) (db : Db) (r : Row)
      → e.select table id db ≡ some r
      → disambiguate e table id db ≡ (condition_failed, some r)
  unfolding disambiguate
  disambiguate-some table id db r s = rw (s, disambiguate) refl

  probe-Outcome :
      (table : Text) (id : ℕ) (cond : Fragment) (db : Db)
      → Outcome e (holds cond) table id [] db db (probe e table id cond db)
  unfolding probe read update
  probe-Outcome table id cond db = elim (Option-cases (e.select table id db)) [
    | inl n ↦
        missing n (rw (laws.selects table id cond db, n, probe) (disambiguate-none table id db n))
          refl
    | inr (r, s) ↦ elim (Bool-cases (holds cond r)) [
      | inl t ↦ taken r s t (rw (laws.selects table id cond db, s, t, probe) refl) s
      | inr f ↦
          refused r s f
            (rw (laws.selects table id cond db, s, f, probe) (disambiguate-some table id db r s))
            refl
    ]
  ]

  report-Outcome :
      (table : Text) (id : ℕ) (cond : Fragment) (patch : Dict Value) (n : ℕ) (db db' : Db)
      → fits table patch
      → lookup (codes "id") patch ≡ none
      → e.set_where table id cond patch db ≡ ok (n, db')
      → Outcome e (holds cond) table id patch db db' (report e table id n db')
  unfolding report read
  report-Outcome table id cond patch n db db' fit no_id h =
      elim (Option-cases (e.select table id db)) [
        | inl m ↦
            let (z, same) = laws.misses h (rw m refl) in
            missing m (rw (z, same) (disambiguate-none table id db m)) same
        | inr (r, s) ↦ elim (Bool-cases (holds cond r)) [
          | inl t ↦
              let (one, now) = laws.sets fit no_id h (rw (s, t) refl) in
              taken r s t (rw (one, now) refl) now
          | inr f ↦
              let (z, same) = laws.misses h (rw (s, f) refl) in
              refused r s f (rw (z, same) (disambiguate-some table id db r s)) same
        ]
      ]

  update_matching-Outcome :
      (table : Text) (id : ℕ) (cond : Fragment) (patch : Dict Value) (db db' : Db)
      (result : UpdateResult)
      → fits table patch
      → lookup (codes "id") patch ≡ none
      → update_matching e table id cond patch db ≡ ok (result, db')
      → Outcome e (holds cond) table id patch db db' result
  unfolding update_matching
  update_matching-Outcome table id cond [] db db' result fit no_id h =
      let (name, a, s) = bind-ok (assert_safe table) _ (result, db') h in
      subst (λ (p : UpdateResult × Db). Outcome e (holds cond) table id [] db p.1 p.0)
        (ok-injective s) (probe-Outcome table id cond db)
  update_matching-Outcome table id cond (x ∷ xs) db db' result fit no_id h =
      let (u, c, h1) = bind-ok (check_columns (x ∷ xs)) _ (result, db') h in
      let (name, a, h2) = bind-ok (assert_safe table) _ (result, db') h1 in
      let (r, s, h3) = bind-ok (e.set_where table id cond (x ∷ xs) db) _ (result, db') h2 in
      subst (λ (p : UpdateResult × Db). Outcome e (holds cond) table id (x ∷ xs) db p.1 p.0)
        (ok-injective h3) (report-Outcome table id cond (x ∷ xs) r.0 db r.1 fit no_id s)

  refused-after :
      {holds : Row → Bool} {table : Text} {id : ℕ} {p p' : Dict Value} {db db1 db2 : Db}
      {record1 : Option Row} {result : UpdateResult}
      → ((r : Row) → holds (update r p) ≡ false)
      → Outcome e holds table id p db db1 (applied, record1)
      → Outcome e holds table id p' db1 db2 result
      → (result ≡ (condition_failed, record1)) × (db2 ≡ db1)
  refused-after f (missing m e1 s1) o = absurd (cc)
  refused-after f (refused r s1 n e1 d) o = absurd (cc)
  refused-after f (taken r s1 t e1 now) (missing m e2 d2) = absurd (cc)
  refused-after f (taken r s1 t e1 now) (refused r' s2 n e2 d2) = (cc, d2)
  refused-after {holds} {p} f (taken r s1 t e1 now) (taken r' s2 t2 e2 now2) =
      let g = f r in let same : r' ≡ update r p = cc in absurd (cc)

  update_matching-json :
      (table : Text) (id : ℕ) (cond : Fragment) (patch : Dict Value) (db : Db)
      (r : UpdateResult × Db)
      → has_json patch ≡ true
      → update_matching e table id cond patch db ≢ ok r
  unfolding update_matching
  update_matching-json table id cond [] db r j h = cc
  update_matching-json table id cond (x ∷ xs) db r j h =
      let (u, c, h1) = bind-ok (check_columns (x ∷ xs)) _ r h in
      let (name, a, h2) = bind-ok (assert_safe table) _ r h1 in
      let (s, g, h3) = bind-ok (e.set_where table id cond (x ∷ xs) db) _ r h2 in
      let (y, q, n) = laws.unbindable table id cond (x ∷ xs) db j in n s (sym q ∙ g)

  -- An `update_if` that does not raise, over a database that obeys the laws, with a patch that names
  -- no id and whose values the columns of the table store as they are: without a record of the id it
  -- says not_found, where the condition does not hold of the record it says condition_failed
  -- and gives the record, and neither changes the database; where the condition holds it says applied,
  -- and the record it gives and leaves is the old one updated with the patch, less None and "".
  pub update_if-Outcome :
      (table : Text) (id : ℕ) (condition : Predicate) (cond : Fragment) (patch : Dict Value)
      (db db' : Db) (result : UpdateResult)
      → compile_predicate condition ≡ ok cond
      → fits table (clean_patch patch)
      → lookup (codes "id") (clean_patch patch) ≡ none
      → update_if e table id condition patch db ≡ ok (result, db')
      → Outcome e (holds cond) table id (clean_patch patch) db db' result
  unfolding update_if
  update_if-Outcome table id condition cond patch db db' result k fit no_id h =
      update_matching-Outcome table id cond (clean_patch patch) db db' result fit no_id (rw k at h)

  -- Of two clients that update under the same condition, with patches that name no id and whose values
  -- the columns store as they are, where the first one's patch makes the condition false, the second one changes nothing and is told condition_failed and the record that
  -- the first one left.
  pub update_if-update_if :
      (table : Text) (id : ℕ) (condition : Predicate) (cond : Fragment) (patch patch' : Dict Value)
      (db db1 db2 : Db) (record1 : Option Row) (result : UpdateResult)
      → compile_predicate condition ≡ ok cond
      → fits table (clean_patch patch)
      → lookup (codes "id") (clean_patch patch) ≡ none
      → fits table (clean_patch patch')
      → lookup (codes "id") (clean_patch patch') ≡ none
      → ((r : Row) → holds cond (update r (clean_patch patch)) ≡ false)
      → update_if e table id condition patch db ≡ ok ((applied, record1), db1)
      → update_if e table id condition patch' db1 ≡ ok (result, db2)
      → (result ≡ (condition_failed, record1)) × (db2 ≡ db1)
  update_if-update_if table id condition cond patch patch' db db1 db2 record1 result k fit no_id
        fit' no_id' f h h' =
      refused-after f (update_if-Outcome table id condition cond patch db db1 _ k fit no_id h)
        (update_if-Outcome table id condition cond patch' db1 db2 result k fit' no_id' h')

  -- A patch with a list or a dict is not serialized, and the update raises.
  pub update_if-json :
      (table : Text) (id : ℕ) (condition : Predicate) (patch : Dict Value) (db : Db)
      (r : UpdateResult × Db)
      → has_json (clean_patch patch) ≡ true
      → update_if e table id condition patch db ≢ ok r
  unfolding update_if update_matching
  update_if-json table id condition patch db r j h =
      let (cond, k, h1) = bind-ok (compile_predicate condition) _ r h in
      update_matching-json table id cond (clean_patch patch) db r j h1
