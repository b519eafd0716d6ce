-- ===== src/Identity/Tests.antt =====
-- The theorems on identity at concrete roles, cookies and providers.
use termin_server.Base.{
  true, false, [], ◌∷◌, Option, none, some, Text, codes, one_of, Dict, lookup, refl, ◌≡◌, between,
  if◌then◌else◌, ◌+◌, map,
}
use termin_server.Preferences.{
  Database, theme_key, ensure_preferences_table, upsert, set_theme_preference, select_value,
  get_theme_preference,
}
use termin_server.Preferences.Laws.{Written, untouched, write}
use termin_server.Identity.{
  RolesToScopes, Principal, Provider, or_text, scopes_of, set_update, match_lower, resolve_role_key,
  gather, fail_closed, accept, ask_provider, resolve_principal_and_scopes,
}
use termin_server.Identity.Bypass.{IsDeclared}
use termin_server.Identity.Stub.{stub_principal, authenticate, roles_for, stub_identity_provider}
use termin_server.Identity.Stub.Granted.{resolve-stub_identity_provider}
use termin_server.Identity.Users.{
  User, hydrate, get_current_user, require_scope, hydrate_principal_preferences, build_user_dict,
}
use termin_server.Identity.Users.Access.{require_scope-IsDeclared}
use termin_server.Identity.Users.Hydration.{hydrate-effective_theme}

identity : Unit {0}
unfolding lookup scopes_of set_update match_lower resolve_role_key gather fail_closed accept
    ask_provider resolve_principal_and_scopes stub_principal authenticate roles_for
    stub_identity_provider get_current_user require_scope build_user_dict hydrate
identity = tt

abbrev to_lower : Text → Text
to_lower = map (λ c. if between 65 90 c then c + 32 else c)

abbrev human : Text → Text → Dict Text → Principal
human id name claims = record {
  id = id;
  display_name = name;
  is_anonymous = false;
  is_system = false;
  claims = claims;
  preferences = [];
}

abbrev anonymous : Option Text → Principal
anonymous name = record {
  id = codes "anonymous";
  display_name = or_text name [];
  is_anonymous = true;
  is_system = false;
  claims = [];
  preferences = [];
}

abbrev roles : RolesToScopes
roles =
    (codes "Clerk", codes "read" ∷ codes "write" ∷ [])
    ∷ (codes "Auditor", codes "read" ∷ codes "audit" ∷ [])
    ∷ []

abbrev as_it_is : Text → Text
as_it_is s = s

abbrev stub : Provider
stub = stub_identity_provider as_it_is as_it_is human

resolve_role_key_test : resolve_role_key to_lower roles (some (codes "auditor")) ≡ codes "Auditor"
unfolding identity
resolve_role_key_test = refl

resolve-stub_identity_provider_example :
    one_of
      (codes "audit")
      (resolve_principal_and_scopes to_lower anonymous
        (some (codes "auditor"))
        none
        roles
        stub
        []).2
    ≡ one_of (codes "audit") (scopes_of roles (codes "Auditor"))
unfolding identity
resolve-stub_identity_provider_example =
    resolve-stub_identity_provider to_lower as_it_is as_it_is human anonymous roles
      (some (codes "auditor")) none [] (codes "Auditor") (codes "audit") (λ id name claims. refl)
      (λ id name claims. refl) refl (codes "read" ∷ codes "audit" ∷ [], refl) refl refl refl

abbrev auditor : User
auditor =
    get_current_user to_lower anonymous (λ path. none) roles stub [] none
      (record { termin_role = some (codes "Auditor"); termin_user_name = some (codes "ann") })

require_scope-IsDeclared_example : IsDeclared roles (codes "audit")
unfolding identity
require_scope-IsDeclared_example =
    require_scope-IsDeclared to_lower anonymous (λ path. none) roles stub [] none
      (record { termin_role = some (codes "Auditor"); termin_user_name = some (codes "ann") })
      (codes "audit") auditor refl

abbrev themes : Database
themes = some (record { principal_id = codes "ann"; key = theme_key; value = codes "dark" } ∷ [])

themes-Written : Written themes
unfolding set_theme_preference upsert ensure_preferences_table
themes-Written = write (codes "ann") (codes "dark") untouched refl

hydrate-effective_theme_example :
    (lookup theme_key
        (hydrate_principal_preferences
          (λ path. some themes)
          (human (codes "ann") (codes "Ann") [])
          (some (codes "app.db"))
          (some (codes "light"))
          none).preferences
      ≡ some (codes "dark"))
    × (get_theme_preference (codes "ann") (some (codes "light")) none themes ≡ codes "dark")
unfolding select_value ensure_preferences_table
hydrate-effective_theme_example =
    hydrate-effective_theme (λ path. some themes) (human (codes "ann") (codes "Ann") [])
      (codes "app.db") (some (codes "light")) none themes (codes "dark") refl refl refl
      themes-Written refl
