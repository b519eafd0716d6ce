-- ===== src/Storage/Records/Tests.antt =====
-- An engine in memory that obeys the laws, and the theorems on it.
use termin_server.Base.{
  ℕ, suc, ◌==◌, ==_iff, Bool, false, [], ◌∷◌, ◌&&◌, Option, none, some, Text, text_eq, text_eq_refl,
  codes, Value, str, int, pos, Dict, lookup, insert, update, lookup-insert, Bool-cases, inl, inr,
  if◌then◌else◌, ◌≡◌, refl, subst, ap, ◌∙◌,
}
use termin_server.Storage.Identifiers.{
  StorageError, ok, raise, not_supported, assert_safe, validate_identifier, q,
}
use termin_server.Storage.Results.{ok-injective}
use termin_server.Storage.Predicates.{Fragment, Predicate, eq, compile_predicate}
use termin_server.Storage.Engine.{Engine, Laws, Row, matching, has_json}
use termin_server.Storage.Records.{
  applied, condition_failed, UpdateResult, update_if, update_matching, report, probe, disambiguate,
  clean_patch, clean_record, check_columns, create, resume, insert_fresh, insert_raw, serialize_all,
  lookup_idempotency_record, read,
}
use termin_server.Storage.Records.Claims.{Outcome, update_if-Outcome, update_if-update_if}
use termin_server.Storage.Records.Replays.{Created, create-create}

record Memory : Type 0 where
  rows : Text → ℕ → Option Row
  next : ℕ
  keys : Text → Text → Option ℕ

abbrev put : Text → ℕ → Option Row → Memory → Memory
put t i r db = record db { rows = λ u j. if text_eq t u && i == j then r else db.rows u j }

abbrev status_is : Fragment → Row → Bool
status_is (sql, str s ∷ vs) r = elim (lookup (codes "status") r) [
  | some (str u) ↦ text_eq u s
  | some v ↦ false
  | none ↦ false
]
status_is (sql, vs) r = false

abbrev found : Option Row → Text → ℕ → Dict Value → Memory → ℕ × Memory
found none t i p db = (0, db)
found (some r) t i p db = (1, put t i (some (update r p)) db)

abbrev memory : Engine Memory
memory = record {
  select = λ t i db. db.rows t i;
  select_where = λ t i c db. matching (status_is c) (db.rows t i);
  insert_row = λ t d db. ok (
    db.next,
    put t db.next (some (insert (codes "id") (int (pos db.next)) d))
        (record db { next = suc db.next }),
  );
  set = λ t i p db. ok (found (db.rows t i) t i p db).1;
  set_where = λ t i c p db.
      if has_json p
      then raise not_supported
      else ok (found (matching (status_is c) (db.rows t i)) t i p db);
  remove = λ t i db. elim (db.rows t i) [ none ↦ ok (0, db) | some r ↦ ok (1, put t i none db) ];
  ensure_keys = λ db. db;
  key_id = λ c k db. db.keys c k;
  add_key = λ c k i db. elim i [
    | none ↦ raise not_supported
    | some j ↦
        ok (record db { keys = λ d l. if text_eq c d && text_eq k l then some j else db.keys d l })
  ];
  drop_key = λ c k db. record db {
    keys = λ d l. if text_eq c d && text_eq k l then none else db.keys d l;
  };
}

put-rows : (t : Text) (i : ℕ) (r : Option Row) (db : Memory) → (put t i r db).rows t i ≡ r
put-rows t i r db = rw (text_eq_refl t) (rw ((==_iff i i).1 refl) refl)

found-sets :
    (o : Option Row) (t : Text) (i n : ℕ) (p : Dict Value) (db db' : Memory) (r : Row)
    → found o t i p db ≡ (n, db')
    → o ≡ some r
    → (n ≡ 1) × (db'.rows t i ≡ some (update r p))
found-sets none t i n p db db' r h e = cc
found-sets (some s) t i n p db db' r h e = (
  cc,
  subst (λ (d : Memory). d.rows t i ≡ some (update r p)) (ap (λ (x : ℕ × Memory). x.1) h)
      (put-rows t i (some (update s p)) db ∙ ap (λ (x : Row). some (update x p)) (cc)),
)

found-misses :
    (o : Option Row) (t : Text) (i n : ℕ) (p : Dict Value) (db db' : Memory)
    → found o t i p db ≡ (n, db')
    → o ≡ none
    → (n ≡ 0) × (db' ≡ db)
found-misses none t i n p db db' h e = (cc, cc)
found-misses (some s) t i n p db db' h e = cc

raise-ok : {A : Type 0} {x : StorageError} {a : A} → raise x ≡ ok a → ⊥
raise-ok h = cc

set_where-found :
    (t : Text) (i : ℕ) (c : Fragment) (p : Dict Value) (db : Memory) (r : ℕ × Memory)
    → memory.set_where t i c p db ≡ ok r
    → found (matching (status_is c) (db.rows t i)) t i p db ≡ r
set_where-found t i c p db r h = elim (Bool-cases (has_json p)) [
  | inl j ↦ absurd (raise-ok (rw j at h))
  | inr n ↦ ok-injective (rw n at h)
]

memory-Laws : Laws memory status_is (λ t p. Unit {0})
memory-Laws = record {
  selects = λ t i c db. refl;
  sets = λ {t} {i} {n} {c} {p} {db} {db'} {r} fit no_id h m.
      found-sets (matching (status_is c) (db.rows t i)) t i n p db db' r
        (set_where-found t i c p db (n, db') h) m;
  misses = λ {t} {i} {n} {c} {p} {db} {db'} h m.
      found-misses (matching (status_is c) (db.rows t i)) t i n p db db'
        (set_where-found t i c p db (n, db') h) m;
  unbindable = λ t i c p db j. (raise not_supported, rw j refl, λ r h. raise-ok h);
  ensures = λ t i db. refl;
  ensures_keys = λ c k db. refl;
  inserts = λ {t} {d} {i} {db} {db'} h.
      subst (λ (x : ℕ × Memory). (r : Row) × (x.1.rows t x.0 ≡ some r)) (ok-injective h)
        (
          insert (codes "id") (int (pos db.next)) d,
          put-rows t db.next _ (record db { next = suc db.next }),
        );
  adds = λ {c} {k} {i} {db} {db'} h.
      subst
        (λ (x : Memory). (x.keys c k ≡ some i) × ((t : Text) (j : ℕ) → x.rows t j ≡ db.rows t j))
        (ok-injective h) (rw (text_eq_refl c, text_eq_refl k) refl, λ t j. refl);
  refuses = λ c k db. (raise not_supported, refl, λ r h. raise-ok h);
}

abbrev tasks : Text
tasks = codes "tasks"

abbrev status : Text → Dict Value
status s = (codes "status", str s) ∷ []

-- One open task, with the id 1.
abbrev start : Memory
start = record {
  rows = λ t i. if text_eq tasks t && 1 == i then some (status (codes "open")) else none;
  next = 2;
  keys = λ c k. none;
}

abbrev is_open : Predicate
is_open = eq (codes "status") (str (codes "open"))

abbrev is_open_sql : Fragment
is_open_sql = (codes "\"status\" = ?", str (codes "open") ∷ [])

records : Unit {0}
unfolding update_if update_matching report probe disambiguate clean_patch clean_record check_columns
    create resume insert_fresh insert_raw serialize_all lookup_idempotency_record read
    compile_predicate assert_safe validate_identifier q lookup insert update
records = tt

is_open-compiled : compile_predicate is_open ≡ ok is_open_sql
unfolding records
is_open-compiled = refl

-- One client claims the task, and leaves it claimed.
abbrev claimed : Memory
claimed = put tasks 1 (some (status (codes "ann"))) start

first_claim :
    update_if memory tasks 1 is_open (status (codes "ann")) start
    ≡ ok ((applied, some (status (codes "ann"))), claimed)
unfolding records
first_claim = refl

-- What the second client is told, and what it leaves.
abbrev told : UpdateResult
told = (condition_failed, some (status (codes "ann")))

abbrev after : Memory
after = claimed

second_claim : update_if memory tasks 1 is_open (status (codes "bob")) claimed ≡ ok (told, after)
unfolding records
second_claim = refl

update_if-Outcome_example :
    Outcome memory
      (status_is is_open_sql)
      tasks
      1
      (clean_patch (status (codes "ann")))
      start
      claimed
      (applied, some (status (codes "ann")))
unfolding lookup clean_patch
update_if-Outcome_example =
    update_if-Outcome memory memory-Laws tasks 1 is_open is_open_sql (status (codes "ann")) start
      claimed (applied, some (status (codes "ann"))) is_open-compiled tt refl first_claim

never_open :
    (r : Row) → status_is is_open_sql (update r (clean_patch (status (codes "ann")))) ≡ false
unfolding clean_patch update
never_open r =
    rw (lookup-insert (codes "status") (codes "status") (str (codes "ann")) r, status_is) refl

update_if-update_if_example :
    (told ≡ (condition_failed, some (status (codes "ann")))) × (after ≡ claimed)
unfolding lookup clean_patch
update_if-update_if_example =
    update_if-update_if memory memory-Laws tasks 1 is_open is_open_sql (status (codes "ann"))
      (status (codes "bob")) start claimed after (some (status (codes "ann"))) told is_open-compiled
      tt refl tt refl never_open first_claim second_claim

abbrev created : Memory
created =
    record (put tasks 2
      (some ((codes "status", str (codes "new")) ∷ (codes "id", int (pos 2)) ∷ []))
      (record start { next = 3 })) {
        keys = λ d l. if text_eq tasks d && text_eq (codes "k") l then some 2 else none;
      }

first_create :
    create memory tasks (status (codes "new")) (some (codes "k")) start
    ≡ ok ((codes "status", str (codes "new")) ∷ (codes "id", int (pos 2)) ∷ [], created)
unfolding records
first_create = refl

create-create_example :
    (stored : Row) × Created memory memory-Laws tasks
      (codes "k")
      created
      ((codes "status", str (codes "new")) ∷ (codes "id", int (pos 2)) ∷ [])
      stored
    × ((again : Dict Value)
        → create memory tasks again (some (codes "k")) created ≡ ok (stored, created))
    × (created.keys tasks (codes "k") ≡ created.keys tasks (codes "k"))
    × ((j : ℕ) → created.rows tasks j ≡ created.rows tasks j)
create-create_example =
    create-create memory memory-Laws tasks (codes "k") (status (codes "new")) start created created
      ((codes "status", str (codes "new")) ∷ (codes "id", int (pos 2)) ∷ []) first_create refl
      (λ j. refl)
