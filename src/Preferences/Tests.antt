-- ===== src/Preferences/Tests.antt =====
-- The theorems on preferences at concrete tables.
use termin_server.Base.{[], ◌∷◌, none, some, codes, refl, ◌≡◌, arith, one_of, true}
use termin_server.Preferences.{
  Database, valid_themes, theme_key, set_theme_preference, get_theme_preference, upsert,
  ensure_preferences_table,
}
use termin_server.Preferences.Laws.{Written, untouched, write, get_theme-Written}

abbrev one_row : Database
one_row = some (record { principal_id = codes "ann"; key = theme_key; value = codes "dark" } ∷ [])

abbrev two_rows : Database
two_rows = some (
    record { principal_id = codes "ann"; key = theme_key; value = codes "dark" }
    ∷ record { principal_id = codes "bob"; key = theme_key; value = codes "light" }
    ∷ [])

first_write : set_theme_preference (codes "ann") (codes "dark") none ≡ some one_row
unfolding set_theme_preference upsert ensure_preferences_table
first_write = refl

second_write : set_theme_preference (codes "bob") (codes "light") one_row ≡ some two_rows
unfolding set_theme_preference upsert ensure_preferences_table
second_write = refl

one_row-Written : Written one_row
one_row-Written = write (codes "ann") (codes "dark") untouched first_write

rejected_write : set_theme_preference (codes "ann") (codes "pink") one_row ≡ none
unfolding set_theme_preference
rejected_write = refl

get_theme-Written_example :
    (get_theme_preference (codes "ann") (some (codes "auto")) none two_rows
      ≡ get_theme_preference (codes "ann") (some (codes "auto")) none one_row)
    × (one_of (get_theme_preference (codes "ann") (some (codes "auto")) none two_rows) valid_themes
        ≡ true)
get_theme-Written_example =
    get_theme-Written (codes "bob") (codes "ann") (codes "light") (some (codes "auto")) none
      one_row-Written second_write (λ t h. ground arith) (λ t h. cc)
