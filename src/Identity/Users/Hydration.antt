-- ===== src/Identity/Users/Hydration.antt =====
-- The theme that CEL sees and the theme that the preference endpoint returns.
use termin_server.Base.{
  false, Option, none, some, Text, Dict, lookup, insert, lookup-insert, insert-IsDict, IsDict,
  lookup-update, is_empty, ◌≡◌, refl, Option-cases, inl, inr, ◌∙◌,
}
use termin_server.Identity.{Principal}
use termin_server.Identity.Users.{
  project_theme, merge_preferences, stored_preferences, hydrate_principal_preferences,
}
use termin_server.Preferences.{
  Database, theme_key, get_all_preferences, select_value, get_theme_preference,
  ensure_preferences_table,
}
use termin_server.Preferences.Laws.{Written}
use termin_server.Preferences.Rows.{
  lookup-get_all_preferences, Written-IsDict, effective_theme, get_theme-effective,
}

project_theme-IsDict :
    (stored : Dict Text) (theme_default theme_locked : Option Text)
    → IsDict stored
    → IsDict (project_theme stored theme_default theme_locked)
unfolding project_theme
project_theme-IsDict stored theme_default (some locked) h = insert-IsDict theme_key locked stored h
project_theme-IsDict stored none none h = h
project_theme-IsDict stored (some t) none h = elim (Option-cases (lookup theme_key stored)) [
  | inl n ↦ rw (n, project_theme) (insert-IsDict theme_key t stored h)
  | inr (v, e) ↦ rw (e, project_theme) h
]

lookup-inserted :
    (t : Text) (stored : Dict Text) → lookup theme_key (insert theme_key t stored) ≡ some t
lookup-inserted t stored = lookup-insert theme_key theme_key t stored

lookup-project_theme :
    (stored : Dict Text) (theme_default theme_locked : Option Text)
    → lookup theme_key (project_theme stored theme_default theme_locked)
      ≡ effective_theme (lookup theme_key stored) theme_default theme_locked
unfolding project_theme
lookup-project_theme stored theme_default (some locked) = lookup-inserted locked stored
lookup-project_theme stored none none = elim (Option-cases (lookup theme_key stored)) [
  | inl n ↦ rw n refl
  | inr (v, e) ↦ rw e refl
]
lookup-project_theme stored (some t) none = elim (Option-cases (lookup theme_key stored)) [
  | inl n ↦ rw (n, project_theme) (lookup-inserted t stored)
  | inr (v, e) ↦ rw (e, project_theme) e
]

-- For a principal that is not anonymous, on a database that only theme writes made, wherever the lock,
-- the stored row or the default gives a theme, the hydrated preferences hold that theme and the
-- preference endpoint returns the same.
pub hydrate-effective_theme :
    (connect : Text → Option Database) (principal : Principal) (db_path : Text)
    (theme_default theme_locked : Option Text) (db : Database) (t : Text)
    → principal.is_anonymous ≡ false
    → is_empty db_path ≡ false
    → connect db_path ≡ some db
    → Written db
    → effective_theme
        (select_value principal.id theme_key (ensure_preferences_table db))
        theme_default
        theme_locked
      ≡ some t
    → (lookup theme_key
          (hydrate_principal_preferences connect principal
            (some db_path)
            theme_default
            theme_locked).preferences
        ≡ some t)
      × (get_theme_preference principal.id theme_default theme_locked db ≡ t)
unfolding hydrate_principal_preferences stored_preferences merge_preferences
hydrate-effective_theme connect principal db_path theme_default theme_locked db t a p c w h = (
  rw (a, p, stored_preferences, c)
      (lookup-update theme_key principal.preferences _ (
          project_theme-IsDict (get_all_preferences principal.id db) theme_default theme_locked
            (Written-IsDict principal.id w))
        ∙ rw
            (
              lookup-project_theme (get_all_preferences principal.id db) theme_default theme_locked,
              lookup-get_all_preferences principal.id theme_key db,
              h,
            )
            refl),
  get_theme-effective principal.id theme_default theme_locked db t h,
)
