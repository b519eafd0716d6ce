-- ===== src/Preferences.antt =====
-- termin_server/preferences.py. The table is the list of its rows, keyed by principal and key; the
-- timestamps are left out.
pub mod Laws
pub mod Rows
mod Tests
use termin_server.Base.{
  Bool, List, [], ◌∷◌, Option, none, some, Text, codes, text_eq, one_of, Dict, ◌&&◌, if◌then◌else◌,
}

abbrev pub valid_themes : List Text
valid_themes = codes "light" ∷ codes "dark" ∷ codes "auto" ∷ codes "high-contrast" ∷ []

abbrev pub runtime_fallback_theme : Text
runtime_fallback_theme = codes "auto"

abbrev pub theme_key : Text
theme_key = codes "theme"

pub record Preference : Type 0 where
  pub principal_id : Text
  pub key : Text
  pub value : Text

-- `none` is a table that has not been created.
abbrev pub Database : Type 0
Database = Option (List Preference)

-- CREATE TABLE IF NOT EXISTS
unfoldable pub ensure_preferences_table : Database → List Preference
ensure_preferences_table none = []
ensure_preferences_table (some rows) = rows

abbrev pub is_row : Text → Text → Preference → Bool
is_row principal key p = text_eq p.principal_id principal && text_eq p.key key

-- INSERT … ON CONFLICT(principal_id, key) DO UPDATE
unfoldable pub upsert : Text → Text → Text → List Preference → List Preference
upsert principal key value [] = record { principal_id = principal; key = key; value = value } ∷ []
upsert principal key value (p ∷ rows) =
    if is_row principal key p
    then record p { value = value } ∷ rows
    else p ∷ upsert principal key value rows

-- `none` is `InvalidThemeValueError`.
unfoldable pub set_theme_preference : Text → Text → Database → Option Database
set_theme_preference principal value db =
    if one_of value valid_themes
    then some (some (upsert principal theme_key value (ensure_preferences_table db)))
    else none

-- SELECT value … WHERE principal_id = ? AND key = ?, and the first row of it.
unfoldable pub select_value : Text → Text → List Preference → Option Text
select_value principal key [] = none
select_value principal key (p ∷ rows) =
    if is_row principal key p then some p.value else select_value principal key rows

abbrev pub or_else : Option Text → Text → Text
or_else none t = t
or_else (some s) t = s

unfoldable pub get_theme_preference :
    Text → (theme_default theme_locked : Option Text) → Database → Text
get_theme_preference principal theme_default (some locked) db = locked
get_theme_preference principal theme_default none db =
    elim (select_value principal theme_key (ensure_preferences_table db)) [
      | some value ↦ value
      | none ↦ or_else theme_default runtime_fallback_theme
    ]

unfoldable pub preference_items : Text → List Preference → Dict Text
preference_items principal [] = []
preference_items principal (p ∷ rows) =
    let rest = preference_items principal rows in
    if text_eq p.principal_id principal then (p.key, p.value) ∷ rest else rest

-- The pairs of the rows; a principal has one row for each key.
unfoldable pub get_all_preferences : Text → Database → Dict Text
unfolding preference_items
get_all_preferences principal db = preference_items principal (ensure_preferences_table db)
