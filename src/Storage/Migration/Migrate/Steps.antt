-- ===== src/Storage/Migration/Migrate/Steps.antt =====
-- The steps of `migrate` in termin_server/providers/builtins/storage_sqlite.py but its commit.
use termin_server.Base.{
  ℕ, Bool, true, List, [], ◌∷◌, Bool-cases, Option, none, some, Text, Dict, inl, inr, ◌≡◌, refl,
}
use termin_server.Storage.Schema.{
  rolled_back, Stage, mid_apply, Failure, injected, Result, returned, failed, Session, Driver,
  Action,
}
use termin_server.Storage.Migration.{ContentChange}
use termin_server.Storage.Migration.Migrate.{
  attempt, snapshot_row_counts, compare_counts, smoke_reads, validate, apply_all, roll_back,
  is_stage, at_stage, apply_changes,
}
use termin_server.Storage.Migration.Migrate.Quiet.{
  commits, Quiet, apply_one_change-Quiet, fail-Quiet, give-Quiet, perform-Quiet, then_do-Quiet,
}

module _ {C : Type 0} (driver : Driver C) where
  attempt-Quiet : {A : Type 0} (m : Action C A) → Quiet m → Quiet (attempt driver m)
  unfolding Quiet attempt
  attempt-Quiet {A} m h s = attempted (m s) (h s)
    where
      attempted :
          {n : ℕ} (r : Result A × Session C)
          → commits r.1.log ≡ n
          → commits
              (elim r.0 as (λ x. Result (Option A) × Session C) [
                | returned a ↦ (returned (some a), r.1)
                | failed e ↦ (returned none, r.1)
              ]).1.log
            ≡ n
      attempted (returned a, t) k = k
      attempted (failed e, t) k = k

  pub snapshot_row_counts-Quiet :
      (tables : List Text) (counts : Dict (Option ℕ))
      → Quiet (snapshot_row_counts driver tables counts)
  unfolding snapshot_row_counts
  snapshot_row_counts-Quiet [] counts = give-Quiet driver counts
  snapshot_row_counts-Quiet (table ∷ tables) counts =
      then_do-Quiet driver _ _ (attempt-Quiet _ (perform-Quiet driver _ refl))
        (λ rows. snapshot_row_counts-Quiet tables _)

  pub apply_all-Quiet : (changes : List ContentChange) → Quiet (apply_all driver changes)
  unfolding apply_all
  apply_all-Quiet [] = give-Quiet driver true
  apply_all-Quiet (c ∷ changes) =
      then_do-Quiet driver _ _ (apply_one_change-Quiet driver c) (λ b. apply_all-Quiet changes)

  pub roll_back-Quiet : (A : Type 0) (e : Failure) → Quiet (roll_back driver {A = A} e)
  unfolding roll_back
  roll_back-Quiet A e =
      then_do-Quiet driver _ _ (perform-Quiet driver rolled_back refl)
        (λ rows. fail-Quiet driver A e)

  pub at_stage-Quiet : (stage : Stage) (fault : Option Stage) → Quiet (at_stage driver stage fault)
  unfolding at_stage
  at_stage-Quiet stage fault = elim (Bool-cases (is_stage stage fault)) [
    | inl t ↦ rw (at_stage, t) (roll_back-Quiet Bool (injected stage))
    | inr f ↦ rw (at_stage, f) (give-Quiet driver true)
  ]

  pub apply_changes-Quiet :
      (fault : Option Stage) (changes : List ContentChange)
      → Quiet (apply_changes driver fault changes)
  unfolding apply_changes
  apply_changes-Quiet fault [] = give-Quiet driver true
  apply_changes-Quiet fault (c ∷ []) = apply_one_change-Quiet driver c
  apply_changes-Quiet fault (c ∷ d ∷ changes) =
      then_do-Quiet driver _ _ (apply_one_change-Quiet driver c) (λ b.
        then_do-Quiet driver _ _ (at_stage-Quiet mid_apply fault)
          (λ b'. apply_all-Quiet (d ∷ changes)))

  compare_counts-Quiet : (counts : Dict (Option ℕ)) → Quiet (compare_counts driver counts)
  unfolding compare_counts
  compare_counts-Quiet [] = give-Quiet driver []
  compare_counts-Quiet ((table, none) ∷ counts) = compare_counts-Quiet counts
  compare_counts-Quiet ((table, some pre) ∷ counts) =
      then_do-Quiet driver _ _ (perform-Quiet driver _ refl) (λ rows.
        then_do-Quiet driver _ _ (compare_counts-Quiet counts) (λ more. give-Quiet driver _))

  smoke_reads-Quiet : (tables : List Text) → Quiet (smoke_reads driver tables)
  unfolding smoke_reads
  smoke_reads-Quiet [] = give-Quiet driver []
  smoke_reads-Quiet (table ∷ tables) =
      then_do-Quiet driver _ _ (attempt-Quiet _ (perform-Quiet driver _ refl))
        (λ rows. then_do-Quiet driver _ _ (smoke_reads-Quiet tables) (λ more. give-Quiet driver _))

  pub validate-Quiet :
      (changes : List ContentChange) (counts : Dict (Option ℕ))
      → Quiet (validate driver changes counts)
  unfolding validate
  validate-Quiet changes counts = then_do-Quiet driver _ _ (perform-Quiet driver _ refl) (λ rows.
      then_do-Quiet driver _ _ (compare_counts-Quiet counts)
        (λ changed. then_do-Quiet driver _ _ (smoke_reads-Quiet _) (λ unread. give-Quiet driver _)))
