-- ===== src/Preferences/Laws.antt =====
-- Reading preferences after writing them.
use termin_server.Base.{
  true, List, [], ◌∷◌, Option, none, some, Text, text_eq, text_eq_iff, text_eq_refl, one_of,
  if◌then◌else◌, ◌≡◌, refl, arith, ◌&&◌, Bool-cases, inl, inr, Option-cases, subst,
}
use termin_server.Preferences.{
  Preference, Database, valid_themes, runtime_fallback_theme, theme_key, is_row, upsert,
  select_value, or_else, ensure_preferences_table, set_theme_preference, get_theme_preference,
}

select_value-upsert :
    (p k v p' k' : Text) (rows : List Preference)
    → select_value p' k' (upsert p k v rows)
      ≡ (if text_eq p p' && text_eq k k' then some v else select_value p' k' rows)
unfolding select_value upsert
select_value-upsert p k v p' k' [] = refl
select_value-upsert p k v p' k' (r ∷ rows) = ground (
  arith,
  select_value-upsert p k v p' k' rows,
  text_eq_iff p p',
  text_eq_iff k k',
  text_eq_iff r.principal_id p,
  text_eq_iff r.key k,
  text_eq_iff r.principal_id p',
  text_eq_iff r.key k',
)

get_theme_written :
    (p p' value : Text) (fallback : Option Text) (db : Database)
    → get_theme_preference p' fallback none
        (some (upsert p theme_key value (ensure_preferences_table db)))
      ≡ (if text_eq p p' then value else get_theme_preference p' fallback none db)
unfolding get_theme_preference ensure_preferences_table
get_theme_written p p' value fallback none =
    ground (arith, select_value-upsert p theme_key value p' theme_key [], text_eq_refl theme_key)
get_theme_written p p' value fallback (some rows) =
    ground (arith, select_value-upsert p theme_key value p' theme_key rows, text_eq_refl theme_key)

pub set_theme-eq-some :
    (p value : Text) (db db' : Database)
    → set_theme_preference p value db ≡ some db'
    → (one_of value valid_themes ≡ true)
      × (some (upsert p theme_key value (ensure_preferences_table db)) ≡ db')
unfolding set_theme_preference
set_theme-eq-some p value db db' h = elim (Bool-cases (one_of value valid_themes)) [
  | inl e ↦ (e, ground arith)
  | inr n ↦ absurd (ground arith)
]

-- Without a lock, once a theme is written the principal that wrote it reads it, and any other
-- principal reads what it read before.
pub get_theme-set_theme :
    (p p' value : Text) (fallback : Option Text) (db db' : Database)
    → set_theme_preference p value db ≡ some db'
    → get_theme_preference p' fallback none db'
      ≡ (if text_eq p p' then value else get_theme_preference p' fallback none db)
get_theme-set_theme p p' value fallback db db' h =
    rw (← (set_theme-eq-some p value db db' h).1) (get_theme_written p p' value fallback db)

or_else-valid :
    (fallback : Option Text)
    → ((t : Text) → fallback ≡ some t → one_of t valid_themes ≡ true)
    → one_of (or_else fallback runtime_fallback_theme) valid_themes ≡ true
or_else-valid none f = refl
or_else-valid (some t) f = f t refl

-- Every theme in the table is one of the four.
abbrev pub HasValidThemes : List Preference → Type 0
HasValidThemes [] = Unit
HasValidThemes (r ∷ rows) =
    (text_eq r.key theme_key ≡ true → one_of r.value valid_themes ≡ true) × HasValidThemes rows

upsert-HasValidThemes :
    (p value : Text) (rows : List Preference)
    → one_of value valid_themes ≡ true
    → HasValidThemes rows
    → HasValidThemes (upsert p theme_key value rows)
unfolding upsert
upsert-HasValidThemes p value [] v h = (λ _. v, tt)
upsert-HasValidThemes p value (r ∷ rows) v h = elim (Bool-cases (is_row p theme_key r)) [
  | inl e ↦ rw e (λ _. v, h.1)
  | inr n ↦ rw n (h.0, upsert-HasValidThemes p value rows v h.1)
]

select_value-valid :
    (p : Text) (rows : List Preference) (t : Text)
    → HasValidThemes rows
    → select_value p theme_key rows ≡ some t
    → one_of t valid_themes ≡ true
unfolding select_value
select_value-valid p [] t h e = cc
select_value-valid p (r ∷ rows) t h e = ground (arith, select_value-valid p rows t h.1, h.0)

-- The writes that succeed, from a database that has no preferences yet.
pub data Written : Database → Type 0 where
  untouched : Written none
  write :
      {db db' : Database} (p value : Text)
      → Written db
      → set_theme_preference p value db ≡ some db'
      → Written db'

Written-HasValidThemes : {db : Database} → Written db → HasValidThemes (ensure_preferences_table db)
unfolding ensure_preferences_table
Written-HasValidThemes untouched = tt
Written-HasValidThemes (write {db} {db'} p value w h) =
    let (v, e) = set_theme-eq-some p value db db' h in
    subst (λ (d : Database). HasValidThemes (ensure_preferences_table d)) e
      (upsert-HasValidThemes p value (ensure_preferences_table db) v (Written-HasValidThemes w))

-- After any writes, what a principal reads is one of the four themes, if the deployment's default
-- and lock are such themes where they are set.
pub get_theme-valid :
    {db : Database} (p : Text) (fallback locked : Option Text)
    → Written db
    → ((t : Text) → fallback ≡ some t → one_of t valid_themes ≡ true)
    → ((t : Text) → locked ≡ some t → one_of t valid_themes ≡ true)
    → one_of (get_theme_preference p fallback locked db) valid_themes ≡ true
unfolding get_theme_preference
get_theme-valid p fallback (some t) w f l = l t refl
get_theme-valid {db} p fallback none w f l =
    elim (Option-cases (select_value p theme_key (ensure_preferences_table db))) [
      | inr (t, e) ↦
          rw (e, get_theme_preference)
            (select_value-valid p (ensure_preferences_table db) t (Written-HasValidThemes w) e)
      | inl n ↦ rw (n, get_theme_preference) (or_else-valid fallback f)
    ]

-- After any writes, a theme that is set is what its principal reads, and no other reads anything new,
-- where nothing is locked; and what is read is one of the four themes, if the deployment's default and
-- lock are such themes where they are set.
pub get_theme-Written :
    {db db' : Database} (p p' value : Text) (fallback locked : Option Text)
    → Written db
    → set_theme_preference p value db ≡ some db'
    → ((t : Text) → fallback ≡ some t → one_of t valid_themes ≡ true)
    → ((t : Text) → locked ≡ some t → one_of t valid_themes ≡ true)
    → (get_theme_preference p' fallback none db'
        ≡ (if text_eq p p' then value else get_theme_preference p' fallback none db))
      × (one_of (get_theme_preference p' fallback locked db') valid_themes ≡ true)
get_theme-Written {db} {db'} p p' value fallback locked w h f l = (
  get_theme-set_theme p p' value fallback db db' h,
  get_theme-valid p' fallback locked (write p value w h) f l,
)
