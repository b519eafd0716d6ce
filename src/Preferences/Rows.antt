-- ===== src/Preferences/Rows.antt =====
-- The rows of one principal, as a dict.
use termin_server.Base.{
  List, [], ◌∷◌, Option, none, some, Text, text_eq, text_eq_iff, lookup, insert, IsDict,
  insert-IsDict, Bool-cases, inl, inr, if◌then◌else◌, ◌≡◌, refl, arith, subst,
}
use termin_server.Preferences.{
  Preference, Database, theme_key, preference_items, upsert, select_value, ensure_preferences_table,
  get_all_preferences, get_theme_preference,
}
use termin_server.Preferences.Laws.{Written, untouched, write, set_theme-eq-some}

lookup-preference_items :
    (p k : Text) (rows : List Preference)
    → lookup k (preference_items p rows) ≡ select_value p k rows
unfolding preference_items select_value lookup
lookup-preference_items p k [] = refl
lookup-preference_items p k (r ∷ rows) = ground (arith, lookup-preference_items p k rows)

preference_items-upsert :
    (p p' k v : Text) (rows : List Preference)
    → preference_items p (upsert p' k v rows)
      ≡ (if text_eq p' p then insert k v (preference_items p rows) else preference_items p rows)
unfolding preference_items upsert insert
preference_items-upsert p p' k v [] = refl
preference_items-upsert p p' k v (r ∷ rows) = ground (
  arith,
  preference_items-upsert p p' k v rows,
  text_eq_iff p' p,
  text_eq_iff r.principal_id p',
  text_eq_iff r.principal_id p,
  text_eq_iff r.key k,
)

pub lookup-get_all_preferences :
    (p k : Text) (db : Database)
    → lookup k (get_all_preferences p db) ≡ select_value p k (ensure_preferences_table db)
unfolding get_all_preferences
lookup-get_all_preferences p k db = lookup-preference_items p k (ensure_preferences_table db)

-- After any writes no key stands twice in the preferences of a principal.
pub Written-IsDict : {db : Database} (p : Text) → Written db → IsDict (get_all_preferences p db)
unfolding get_all_preferences ensure_preferences_table preference_items
Written-IsDict p untouched = tt
Written-IsDict p (write {db} {db'} p' value w h) =
    subst (λ (d : Database). IsDict (get_all_preferences p d))
      (set_theme-eq-some p' value db db' h).1
      (rw (preference_items-upsert p p' theme_key value (ensure_preferences_table db))
        (elim (Bool-cases (text_eq p' p)) [
          | inl e ↦
              rw e (insert-IsDict theme_key value (get_all_preferences p db) (Written-IsDict p w))
          | inr n ↦ rw n (Written-IsDict p w)
        ]))

-- What a theme resolves to, from the row of it.
abbrev pub effective_theme : (stored theme_default theme_locked : Option Text) → Option Text
effective_theme stored theme_default (some locked) = some locked
effective_theme (some value) theme_default none = some value
effective_theme none theme_default none = theme_default

pub get_theme-effective :
    (p : Text) (theme_default theme_locked : Option Text) (db : Database) (t : Text)
    → effective_theme
        (select_value p theme_key (ensure_preferences_table db))
        theme_default
        theme_locked
      ≡ some t
    → get_theme_preference p theme_default theme_locked db ≡ t
unfolding get_theme_preference
get_theme-effective p theme_default (some locked) db t h = ground arith
get_theme-effective p none none db t h = ground arith
get_theme-effective p (some d) none db t h = ground arith
