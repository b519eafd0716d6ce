-- ===== src/Storage/Migration/Migrate/Quiet.antt =====
-- What a migration does before its commit commits nothing. The model is of `migrate` in
-- termin_server/providers/builtins/storage_sqlite.py.
use termin_server.Base.{
  is_empty, ℕ, suc, Bool, true, List, [], ◌∷◌, ◌++◌, Bool-cases, Option, none, some, Text, inl, inr,
  ◌≡◌, refl, ap, ◌∙◌,
}
use termin_server.Storage.Identifiers.{Checked, ok, raise}
use termin_server.Storage.Schema.{
  no_schema, in_place_foreign_key, unknown_kind, Schema, Op, opened, committed, rolled_back, closed,
  statement, own_opened, own_committed, own_closed, own_statement, Failure, Result, returned,
  failed, Session, Driver, Action, after, then_do, give, fail, checked, answer,
}
use termin_server.Storage.Tables.{perform, finish, finally_do, init_db, create_tables}
use termin_server.Storage.Migration.{
  FieldChange, field_added, field_renamed, field_changed, ContentChange, content_added,
  content_removed, content_renamed, modified, other_change, is_in_place, execute, rebuild_table,
  alter_field, alter_fields, apply_modified_in_place, apply_one_change,
}

-- The commits of a migration's connection
abbrev pub commits : List Op → ℕ
commits [] = 0
commits (committed ∷ log) = suc (commits log)
commits (opened ∷ log) = commits log
commits (rolled_back ∷ log) = commits log
commits (closed ∷ log) = commits log
commits (statement sql ∷ log) = commits log
commits (own_opened ∷ log) = commits log
commits (own_committed ∷ log) = commits log
commits (own_closed ∷ log) = commits log
commits (own_statement sql ∷ log) = commits log

pub commits-append :
    (log : List Op) (op : Op) → commits (op ∷ []) ≡ 0 → commits (log ++ op ∷ []) ≡ commits log
commits-append [] op h = h
commits-append (committed ∷ log) op h = ap suc (commits-append log op h)
commits-append (opened ∷ log) op h = commits-append log op h
commits-append (rolled_back ∷ log) op h = commits-append log op h
commits-append (closed ∷ log) op h = commits-append log op h
commits-append (statement sql ∷ log) op h = commits-append log op h
commits-append (own_opened ∷ log) op h = commits-append log op h
commits-append (own_committed ∷ log) op h = commits-append log op h
commits-append (own_closed ∷ log) op h = commits-append log op h
commits-append (own_statement sql ∷ log) op h = commits-append log op h

-- An action that commits nothing
unfoldable pub Quiet : {C A : Type 0} → Action C A → Type 0
Quiet {C} m = (s : Session C) → commits (m s).1.log ≡ commits s.log

module _ {C : Type 0} (driver : Driver C) where
  pub give-Quiet : {A : Type 0} (a : A) → Quiet {C = C} (give a)
  unfolding Quiet give
  give-Quiet a s = refl

  pub fail-Quiet : (A : Type 0) (e : Failure) → Quiet {C = C} {A = A} (fail e)
  unfolding Quiet fail
  fail-Quiet A e s = refl

  pub checked-Quiet : {A : Type 0} (r : Checked A) → Quiet {C = C} (checked r)
  unfolding Quiet checked
  checked-Quiet (ok a) s = refl
  checked-Quiet (raise e) s = refl

  pub answer-log : (rows : Option (List ℕ)) (s : Session C) → (answer rows s).1 ≡ s
  unfolding answer
  answer-log none s = refl
  answer-log (some rows) s = refl

  pub perform-log : (op : Op) (s : Session C) → (perform driver op s).1.log ≡ s.log ++ op ∷ []
  unfolding perform
  perform-log op s =
      ap (λ (t : Session C). t.log)
        (answer-log (driver op s.db).0
          (record { db = (driver op s.db).1; log = s.log ++ op ∷ []; fault = s.fault }))

  pub perform-Quiet : (op : Op) → commits (op ∷ []) ≡ 0 → Quiet (perform driver op)
  unfolding Quiet
  perform-Quiet op h s = ap commits (perform-log op s) ∙ commits-append s.log op h

  pub after-Quiet :
      {A B : Type 0} (n : ℕ) (r : Result A × Session C) (f : A → Action C B)
      → commits r.1.log ≡ n
      → ((a : A) → Quiet (f a))
      → commits (after r f).1.log ≡ n
  unfolding Quiet after
  after-Quiet n (returned a, s) f h k = k a s ∙ h
  after-Quiet n (failed e, s) f h k = h

  pub then_do-Quiet :
      {A B : Type 0} (m : Action C A) (f : A → Action C B)
      → Quiet m
      → ((a : A) → Quiet (f a))
      → Quiet (then_do m f)
  unfolding Quiet then_do
  then_do-Quiet m f h k s = after-Quiet (commits s.log) (m s) f (h s) k

  pub finish-log :
      {A : Type 0} (r : Result A) (done : Result (List ℕ) × Session C) → (finish r done).1 ≡ done.1
  unfolding finish
  finish-log r (returned rows, s) = refl
  finish-log r (failed e, s) = refl

  pub finally_do-Quiet :
      {A : Type 0} (m : Action C A) (op : Op)
      → Quiet m
      → commits (op ∷ []) ≡ 0
      → Quiet (finally_do driver m op)
  unfolding Quiet finally_do
  finally_do-Quiet m op h k s =
      ap (λ (t : Session C). commits t.log) (finish-log (m s).0 (perform driver op (m s).1))
      ∙ perform-Quiet op k (m s).1
      ∙ h s

  pub create_tables-Quiet : (schemas : List Schema) → Quiet (create_tables driver schemas)
  unfolding create_tables
  create_tables-Quiet [] = give-Quiet true
  create_tables-Quiet (cs ∷ more) = then_do-Quiet _ _ (checked-Quiet _) (λ sql.
      then_do-Quiet _ _ (perform-Quiet (own_statement sql) refl) (λ rows. create_tables-Quiet more))

  pub init_db-Quiet : (schemas : List Schema) → Quiet (init_db driver schemas)
  unfolding init_db
  init_db-Quiet schemas = then_do-Quiet _ _ (checked-Quiet _) (λ b.
      then_do-Quiet _ _ (perform-Quiet own_opened refl) (λ rows.
        finally_do-Quiet _ own_closed
          (then_do-Quiet _ _ (create_tables-Quiet schemas)
            (λ c. then_do-Quiet _ _ (perform-Quiet own_committed refl) (λ rows'. give-Quiet true)))
          refl))

  pub execute-Quiet : (sql : Text) → Quiet (execute driver sql)
  unfolding execute
  execute-Quiet sql =
      then_do-Quiet _ _ (perform-Quiet (statement sql) refl) (λ rows. give-Quiet true)

  pub rebuild_table-Quiet :
      (name : Text) (fcs : List FieldChange) (schema : Option Schema)
      → Quiet (rebuild_table driver name fcs schema)
  unfolding rebuild_table
  rebuild_table-Quiet name fcs none = fail-Quiet Bool no_schema
  rebuild_table-Quiet name fcs (some schema) = then_do-Quiet _ _ (checked-Quiet _) (λ n.
      then_do-Quiet _ _ (init_db-Quiet _) (λ b. then_do-Quiet _ _ (checked-Quiet _) (λ names.
        then_do-Quiet _ _ (execute-Quiet _)
          (λ copied. then_do-Quiet _ _ (execute-Quiet _) (λ dropped. execute-Quiet _)))))

  pub alter_field-Quiet : (table : Text) (fc : FieldChange) → Quiet (alter_field driver table fc)
  unfolding alter_field
  alter_field-Quiet table (field_added name spec) = elim (Bool-cases (is_empty spec.foreign_key)) [
    | inl t ↦ rw (alter_field, t) (execute-Quiet _)
    | inr f ↦ rw (alter_field, f) (fail-Quiet Bool in_place_foreign_key)
  ]
  alter_field-Quiet table (field_renamed name from to) =
      then_do-Quiet _ _ (checked-Quiet _) (λ n. execute-Quiet _)
  alter_field-Quiet table (field_changed name) = give-Quiet true

  pub alter_fields-Quiet :
      (table : Text) (fcs : List FieldChange) → Quiet (alter_fields driver table fcs)
  unfolding alter_fields
  alter_fields-Quiet table [] = give-Quiet true
  alter_fields-Quiet table (fc ∷ fcs) =
      then_do-Quiet _ _ (alter_field-Quiet table fc) (λ b. alter_fields-Quiet table fcs)

  pub apply_one_change-Quiet : (c : ContentChange) → Quiet (apply_one_change driver c)
  unfolding apply_one_change apply_modified_in_place
  apply_one_change-Quiet (content_added name none) = fail-Quiet Bool no_schema
  apply_one_change-Quiet (content_added name (some schema)) = init_db-Quiet _
  apply_one_change-Quiet (content_removed name) =
      then_do-Quiet _ _ (checked-Quiet _) (λ n. execute-Quiet _)
  apply_one_change-Quiet (content_renamed name from) =
      then_do-Quiet _ _ (checked-Quiet _) (λ n. execute-Quiet _)
  apply_one_change-Quiet (modified name fcs schema) = elim (Bool-cases (is_in_place fcs)) [
    | inl t ↦
        rw (apply_one_change, t)
          (then_do-Quiet _ _ (checked-Quiet _) (λ n. alter_fields-Quiet name fcs))
    | inr f ↦ rw (apply_one_change, f) (rebuild_table-Quiet name fcs schema)
  ]
  apply_one_change-Quiet (other_change name) = fail-Quiet Bool unknown_kind
