-- ===== src/Storage/Migration/Migrate.antt =====
-- `migrate` of termin_server/providers/builtins/storage_sqlite.py: the changes in order, and the checks
-- before the commit.
pub mod Quiet
pub mod Steps
pub mod Commits
use termin_server.Base.{
  ℕ, Bool, true, false, not, List, [], ◌∷◌, ◌++◌, ◌&&◌, ◌==◌, Option, none, some, Text, codes,
  if◌then◌else◌, Dict, insert, length,
}
use termin_server.Storage.Identifiers.{q}
use termin_server.Storage.Schema.{
  Schema, Op, opened, committed, rolled_back, closed, statement, Stage, pre_apply, mid_apply,
  pre_commit, Broken, foreign_keys, row_count, smoke_read, Failure, blocked, injected, invalid,
  Result, returned, failed, Session, Driver, Action, after, then_do, give, fail,
}
use termin_server.Storage.Tables.{perform, finally_do, init_db}
use termin_server.Storage.Migration.{
  FieldChange, ContentChange, content_added, content_removed, content_renamed, modified,
  other_change, MigrationDiff, is_in_place, execute, apply_one_change,
}

unfoldable pub is_added : ContentChange → Bool
is_added (content_added name schema) = true
is_added (content_removed name) = false
is_added (content_renamed name from) = false
is_added (modified name fcs schema) = false
is_added (other_change name) = false

unfoldable pub all_added : List ContentChange → Bool
unfolding is_added
all_added [] = true
all_added (c ∷ changes) = is_added c && all_added changes

-- The schemas of added contents
pub schemas_of : List ContentChange → List Schema
schemas_of [] = []
schemas_of (content_added name (some schema) ∷ changes) = schema ∷ schemas_of changes
schemas_of (content_added name none ∷ changes) = schemas_of changes
schemas_of (content_removed name ∷ changes) = schemas_of changes
schemas_of (content_renamed name from ∷ changes) = schemas_of changes
schemas_of (modified name fcs schema ∷ changes) = schemas_of changes
schemas_of (other_change name ∷ changes) = schemas_of changes

-- The contents that are rebuilt
pub rebuilt : List ContentChange → List Text
unfolding is_in_place
rebuilt [] = []
rebuilt (modified name fcs schema ∷ changes) =
    let rest = rebuilt changes in if is_in_place fcs then rest else name ∷ rest
rebuilt (content_added name schema ∷ changes) = rebuilt changes
rebuilt (content_removed name ∷ changes) = rebuilt changes
rebuilt (content_renamed name from ∷ changes) = rebuilt changes
rebuilt (other_change name ∷ changes) = rebuilt changes

-- The contents that are there after a migration
pub kept : List ContentChange → List Text
kept [] = []
kept (content_removed name ∷ changes) = kept changes
kept (content_added name schema ∷ changes) = name ∷ kept changes
kept (content_renamed name from ∷ changes) = name ∷ kept changes
kept (modified name fcs schema ∷ changes) = name ∷ kept changes
kept (other_change name ∷ changes) = name ∷ kept changes

-- `int(row[0]) if row else 0`
pub count_of : List ℕ → ℕ
count_of [] = 0
count_of (n ∷ rows) = n

pub count_statement : Text → Text
count_statement table = codes "SELECT COUNT(*) FROM " ++ q table

-- A violation for each row
pub violated : List ℕ → List Broken
violated [] = []
violated (n ∷ rows) = foreign_keys (length (n ∷ rows)) ∷ []

pub is_stage : Stage → Option Stage → Bool
is_stage pre_apply (some pre_apply) = true
is_stage mid_apply (some mid_apply) = true
is_stage pre_commit (some pre_commit) = true
is_stage stage fault = false

module _ {C : Type 0} (driver : Driver C) where
  -- What an action gives, or none if it raises
  pub attempt : {A : Type 0} → Action C A → Action C (Option A)
  attempt m s =
      let ran = m s in
      elim ran.0 [ returned a ↦ (returned (some a), ran.1) | failed e ↦ (returned none, ran.1) ]

  pub counted : Option (List ℕ) → Option ℕ
  unfolding count_of
  counted none = none
  counted (some rows) = some (count_of rows)

  -- `_snapshot_row_counts`
  pub snapshot_row_counts : List Text → Dict (Option ℕ) → Action C (Dict (Option ℕ))
  unfolding attempt counted count_statement
  snapshot_row_counts [] counts = give counts
  snapshot_row_counts (table ∷ tables) counts =
      then_do (attempt (perform driver (statement (count_statement table))))
        (λ rows. snapshot_row_counts tables (insert table (counted rows) counts))

  pub compare_counts : Dict (Option ℕ) → Action C (List Broken)
  unfolding count_statement count_of
  compare_counts [] = give []
  compare_counts ((table, none) ∷ counts) = compare_counts counts
  compare_counts ((table, some pre) ∷ counts) =
      then_do (perform driver (statement (count_statement table))) (λ rows.
        then_do (compare_counts counts) (λ more.
          give (if count_of rows == pre then more else row_count table pre (count_of rows) ∷ more)))

  pub smoke_reads : List Text → Action C (List Broken)
  unfolding attempt
  smoke_reads [] = give []
  smoke_reads (table ∷ tables) =
      then_do
        (attempt
          (perform driver (statement (codes "SELECT 1 FROM " ++ q table ++ codes " LIMIT 1"))))
        (λ rows.
          then_do (smoke_reads tables)
            (λ more. give (elim rows [ none ↦ smoke_read table ∷ more | some r ↦ more ])))

  -- `_validate`
  pub validate : List ContentChange → Dict (Option ℕ) → Action C (List Broken)
  unfolding compare_counts smoke_reads violated kept
  validate changes counts =
      then_do (perform driver (statement (codes "PRAGMA foreign_key_check"))) (λ rows.
        then_do (compare_counts counts) (λ changed.
          then_do (smoke_reads (kept changes))
            (λ unread. give (violated rows ++ changed ++ unread))))

  pub apply_all : List ContentChange → Action C Bool
  apply_all [] = give true
  apply_all (c ∷ changes) = then_do (apply_one_change driver c) (λ b. apply_all changes)

  -- A failure after a rollback
  pub roll_back : {A : Type 0} → Failure → Action C A
  roll_back e = then_do (perform driver rolled_back) (λ rows. fail e)

  -- A fault that is injected at a stage
  pub at_stage : Stage → Option Stage → Action C Bool
  unfolding roll_back is_stage
  at_stage stage fault = if is_stage stage fault then roll_back (injected stage) else give true

  -- The changes in order, with the fault after the first of several
  pub apply_changes : Option Stage → List ContentChange → Action C Bool
  unfolding apply_all at_stage
  apply_changes fault [] = give true
  apply_changes fault (c ∷ []) = apply_one_change driver c
  apply_changes fault (c ∷ d ∷ changes) =
      then_do (apply_one_change driver c)
        (λ b. then_do (at_stage mid_apply fault) (λ b'. apply_all (d ∷ changes)))

  -- The commit, if the checks found nothing
  pub commit_unless : List Broken → Action C Bool
  unfolding roll_back
  commit_unless [] = then_do (perform driver committed) (λ rows. give true)
  commit_unless (b ∷ failures) = roll_back (invalid (b ∷ failures))

  pub conclude : List ContentChange → Dict (Option ℕ) → Action C Bool
  unfolding validate commit_unless
  conclude changes counts = then_do (validate changes counts) commit_unless

  -- A migration on its own connection
  pub apply_diff : Option Stage → List ContentChange → Action C Bool
  unfolding snapshot_row_counts apply_changes at_stage conclude rebuilt
  apply_diff fault changes = then_do (execute driver (codes "PRAGMA defer_foreign_keys = ON")) (λ b.
      then_do (snapshot_row_counts (rebuilt changes) []) (λ counts.
        then_do (apply_changes fault changes)
          (λ b1. then_do (at_stage pre_commit fault) (λ b2. conclude changes counts))))

  pub run_migration : Option Stage → List ContentChange → Action C Bool
  unfolding apply_diff
  run_migration fault changes =
      then_do (perform driver opened) (λ rows. finally_do driver (apply_diff fault changes) closed)

  -- The tables of an application that is new
  pub create_all : List Schema → Action C Bool
  create_all [] = give true
  create_all (schema ∷ schemas) = init_db driver (schema ∷ schemas)

  -- `migrate`; the armed fault is read and cleared.
  pub migrate : MigrationDiff → Action C Bool
  unfolding run_migration create_all all_added schemas_of is_stage
  migrate diff s =
      let armed = record s { fault = none } in
      if diff.is_blocked
      then (failed blocked, s)
      else if is_stage pre_apply s.fault
      then (failed (injected pre_apply), armed)
      else if all_added diff.changes
      then create_all (schemas_of diff.changes) armed
      else run_migration s.fault diff.changes armed
