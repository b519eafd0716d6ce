-- ===== src/Storage/Migration/Migrate/Commits.antt =====
-- When a migration commits. The model is of `migrate` in
-- termin_server/providers/builtins/storage_sqlite.py.
use termin_server.Base.{
  ℕ, Bool, true, false, List, [], ◌∷◌, ◌++◌, append_assoc, Bool-cases, Option, none, some, Dict,
  inl, inr, ◌≡◌, refl, ap, ◌∙◌,
}
use termin_server.Storage.Schema.{
  Op, opened, committed, rolled_back, closed, Stage, pre_apply, pre_commit, Broken, Failure,
  blocked, database, injected, invalid, Result, returned, failed, Session, Driver, Action, after,
  then_do, give, fail, answer,
}
use termin_server.Storage.Tables.{perform, finish, finally_do}
use termin_server.Storage.Migration.{ContentChange, MigrationDiff}
use termin_server.Storage.Migration.Migrate.{
  all_added, validate, commit_unless, is_stage, conclude, apply_diff, run_migration, migrate,
}
use termin_server.Storage.Migration.Migrate.Quiet.{
  commits, commits-append, Quiet, perform-Quiet, execute-Quiet,
}
use termin_server.Storage.Migration.Migrate.Steps.{
  snapshot_row_counts-Quiet, apply_changes-Quiet, at_stage-Quiet, validate-Quiet,
}

-- How a migration may end, after `n` commits and with some last operations.
pub data Ended {C : Type 0} (driver : Driver C) (changes : List ContentChange) (n : ℕ)
    (last : List Op) : Result Bool × Session C → Type 0 where
  -- An exception, with no commit
  stopped :
      (e : Failure) (s : Session C) → commits s.log ≡ n → Ended driver changes n last (failed e, s)
  -- The checks found nothing, the commit came next, and the driver raised in it or behind it.
  unclear :
      (counts : Dict (Option ℕ)) (s1 s2 s : Session C)
      → validate driver changes counts s1 ≡ (returned [], s2)
      → commits s2.log ≡ n
      → s.log ≡ s2.log ++ last
      → Ended driver changes n last (failed database, s)
  -- The checks found nothing, and the commit came next.
  concluded :
      (counts : Dict (Option ℕ)) (s1 s2 s : Session C) (b : Bool)
      → validate driver changes counts s1 ≡ (returned [], s2)
      → commits s2.log ≡ n
      → s.log ≡ s2.log ++ last
      → Ended driver changes n last (returned b, s)

module _ {C : Type 0} (driver : Driver C) (changes : List ContentChange) where
  -- An action that ends as a migration does, wherever it starts with no commit more.
  Ends : ℕ → Action C Bool → Type 0
  Ends n m = (s : Session C) → commits s.log ≡ n → Ended driver changes n (committed ∷ []) (m s)

  after-Ended :
      {A : Type 0} (n : ℕ) (r : Result A × Session C) (f : A → Action C Bool)
      → commits r.1.log ≡ n
      → ((a : A) → Ends n (f a))
      → Ended driver changes n (committed ∷ []) (after r f)
  unfolding after Ends
  after-Ended n (returned a, s) f h k = k a s h
  after-Ended n (failed e, s) f h k = stopped e s h

  then_do-Ends :
      {A : Type 0} (n : ℕ) (m : Action C A) (f : A → Action C Bool)
      → Quiet m
      → ((a : A) → Ends n (f a))
      → Ends n (then_do m f)
  unfolding then_do Ends Quiet
  then_do-Ends n m f h k s p = after-Ended n (m s) f (h s ∙ p) k

  answer-Ended :
      (n : ℕ) (counts : Dict (Option ℕ)) (s1 s2 s : Session C) (rows : Option (List ℕ))
      → validate driver changes counts s1 ≡ (returned [], s2)
      → commits s2.log ≡ n
      → s.log ≡ s2.log ++ committed ∷ []
      → Ended driver changes n (committed ∷ []) (after (answer rows s) (λ r. give true))
  unfolding after give answer
  answer-Ended n counts s1 s2 s none v h l = unclear counts s1 s2 s v h l
  answer-Ended n counts s1 s2 s (some rows) v h l = concluded counts s1 s2 s true v h l

  commit_unless-Ended :
      (n : ℕ) (counts : Dict (Option ℕ)) (s1 s2 : Session C) (failures : List Broken)
      → validate driver changes counts s1 ≡ (returned failures, s2)
      → commits s2.log ≡ n
      → Ended driver changes n (committed ∷ []) (commit_unless driver failures s2)
  unfolding commit_unless then_do perform Quiet Ends fail
  commit_unless-Ended n counts s1 s2 [] v h =
      answer-Ended n counts s1 s2
        (record {
          db = (driver committed s2.db).1;
          log = s2.log ++ committed ∷ [];
          fault = s2.fault;
        })
        (driver committed s2.db).0 v h refl
  commit_unless-Ended n counts s1 s2 (b ∷ failures) v h =
      then_do-Ends n (perform driver rolled_back) (λ rows. fail (invalid (b ∷ failures)))
        (perform-Quiet driver rolled_back refl) (λ rows s p. stopped (invalid (b ∷ failures)) s p)
        s2 h

  checked-Ended :
      (n : ℕ) (counts : Dict (Option ℕ)) (s1 : Session C) (r : Result (List Broken) × Session C)
      → validate driver changes counts s1 ≡ r
      → commits r.1.log ≡ n
      → Ended driver changes n (committed ∷ []) (after r (commit_unless driver))
  unfolding after
  checked-Ended n counts s1 (returned failures, s2) v h =
      commit_unless-Ended n counts s1 s2 failures v h
  checked-Ended n counts s1 (failed e, s2) v h = stopped e s2 h

  conclude-Ends : (n : ℕ) (counts : Dict (Option ℕ)) → Ends n (conclude driver changes counts)
  unfolding conclude Ends then_do Quiet
  conclude-Ends n counts s p =
      checked-Ended n counts s (validate driver changes counts s) refl
        (validate-Quiet driver changes counts s ∙ p)

  apply_diff-Ends : (n : ℕ) (fault : Option Stage) → Ends n (apply_diff driver fault changes)
  unfolding apply_diff
  apply_diff-Ends n fault = then_do-Ends n _ _ (execute-Quiet driver _) (λ b.
      then_do-Ends n _ _ (snapshot_row_counts-Quiet driver _ []) (λ counts.
        then_do-Ends n _ _ (apply_changes-Quiet driver fault changes) (λ b1.
          then_do-Ends n _ _ (at_stage-Quiet driver pre_commit fault)
            (λ b2. conclude-Ends n counts))))

  closed-log :
      {log log' : List Op} (s2 : Session C)
      → log ≡ s2.log ++ committed ∷ []
      → log' ≡ log ++ closed ∷ []
      → log' ≡ s2.log ++ committed ∷ closed ∷ []
  closed-log s2 k l =
      l ∙ ap (λ log. log ++ closed ∷ []) k ∙ append_assoc s2.log (committed ∷ []) (closed ∷ [])

  -- The connection is closed behind it.
  closed-Ended :
      (n : ℕ) (r : Result Bool × Session C) (rows : Option (List ℕ)) (s : Session C)
      → Ended driver changes n (committed ∷ []) r
      → s.log ≡ r.1.log ++ closed ∷ []
      → Ended driver changes n (committed ∷ closed ∷ []) (finish r.0 (answer rows s))
  unfolding finish answer
  closed-Ended n _ none s (stopped e t h) l =
      stopped database s (ap commits l ∙ commits-append t.log closed refl ∙ h)
  closed-Ended n _ none s (unclear counts s1 s2 t v h k) l =
      unclear counts s1 s2 s v h (closed-log s2 k l)
  closed-Ended n _ none s (concluded counts s1 s2 t b v h k) l =
      unclear counts s1 s2 s v h (closed-log s2 k l)
  closed-Ended n _ (some rows) s (stopped e t h) l =
      stopped e s (ap commits l ∙ commits-append t.log closed refl ∙ h)
  closed-Ended n _ (some rows) s (unclear counts s1 s2 t v h k) l =
      unclear counts s1 s2 s v h (closed-log s2 k l)
  closed-Ended n _ (some rows) s (concluded counts s1 s2 t b v h k) l =
      concluded counts s1 s2 s b v h (closed-log s2 k l)

  finally_do-Ended :
      (n : ℕ) (m : Action C Bool) (s : Session C)
      → Ended driver changes n (committed ∷ []) (m s)
      → Ended driver changes n (committed ∷ closed ∷ []) (finally_do driver m closed s)
  unfolding finally_do perform
  finally_do-Ended n m s x =
      closed-Ended n (m s) (driver closed (m s).1.db).0
        (record {
          db = (driver closed (m s).1.db).1;
          log = (m s).1.log ++ closed ∷ [];
          fault = (m s).1.fault;
        })
        x refl

  run_migration-Ended :
      (fault : Option Stage) (s : Session C)
      → Ended driver changes
          (commits s.log)
          (committed ∷ closed ∷ [])
          (run_migration driver fault changes s)
  unfolding run_migration then_do Quiet Ends after
  run_migration-Ended fault s =
      opened-Ended (perform driver opened s) (perform-Quiet driver opened refl s)
    where
      opened-Ended :
          (r : Result (List ℕ) × Session C)
          → commits r.1.log ≡ commits s.log
          → Ended driver changes
              (commits s.log)
              (committed ∷ closed ∷ [])
              (after r (λ rows. finally_do driver (apply_diff driver fault changes) closed))
      opened-Ended (returned rows, t) h =
          finally_do-Ended (commits s.log) (apply_diff driver fault changes) t
            (apply_diff-Ends (commits s.log) fault t h)
      opened-Ended (failed e, t) h = stopped e t h

-- On its own connection, a migration that is not of added contents only commits at most once, and only
-- behind its checks: it ends with an exception and without a commit; or the checks found nothing at the
-- state that they ran on, and the commit and the closing of the connection are its last operations, with
-- no commit before, and it returns, or ends with an exception of the driver. Commits of the connection
-- that init_db opens for itself are not counted.
pub migrate-Ended :
    {C : Type 0} (driver : Driver C) (diff : MigrationDiff) (s : Session C)
    → all_added diff.changes ≡ false
    → Ended driver diff.changes (commits s.log) (committed ∷ closed ∷ []) (migrate driver diff s)
unfolding migrate
migrate-Ended driver diff s h = elim (Bool-cases diff.is_blocked) [
  | inl t ↦ rw (migrate, t) (stopped blocked s refl)
  | inr f ↦ elim (Bool-cases (is_stage pre_apply s.fault)) [
    | inl t ↦ rw (migrate, f, t) (stopped (injected pre_apply) (record s { fault = none }) refl)
    | inr g ↦
        rw (migrate, f, g, h)
          (run_migration-Ended driver diff.changes s.fault (record s { fault = none }))
  ]
]
