-- ===== src/Identity/Users.antt =====
-- termin_server/identity.py: the user that handlers see, from a request to the check of a scope.
-- Opening the database file is a parameter; `none` of it is an exception.
pub mod Hydration
pub mod Access
use termin_server.Base.{
  Bool, true, false, not, List, [], ◌∷◌, Option, none, some, Text, codes, one_of, Dict, lookup,
  insert, update, is_empty, ◌||◌, if◌then◌else◌,
}
use termin_server.Identity.{
  RolesToScopes, Principal, Provider, or_text, resolve_principal_and_scopes,
}
use termin_server.Preferences.{Database, theme_key, get_all_preferences}

-- The preferences that are stored, with the lock and the default of the deployment.
pub project_theme : Dict Text → (theme_default theme_locked : Option Text) → Dict Text
project_theme stored theme_default (some locked) = insert theme_key locked stored
project_theme stored none none = stored
project_theme stored (some t) none = elim (lookup theme_key stored) [
  | some v ↦ stored
  | none ↦ insert theme_key t stored
]

pub merge_preferences : Principal → Dict Text → Principal
merge_preferences principal stored = record principal {
  preferences = update principal.preferences stored;
}

module _ (connect : Text → Option Database) where
  stored_preferences : Text → Text → Dict Text
  stored_preferences id db_path = elim (connect db_path) [
    | none ↦ []
    | some db ↦ get_all_preferences id db
  ]

  -- `_hydrate_principal_preferences`
  pub hydrate_principal_preferences :
      Principal → (db_path theme_default theme_locked : Option Text) → Principal
  unfolding stored_preferences project_theme merge_preferences
  hydrate_principal_preferences principal none theme_default theme_locked = principal
  hydrate_principal_preferences principal (some db_path) theme_default theme_locked =
      if principal.is_anonymous || is_empty db_path
      then principal
      else merge_preferences principal
          (project_theme (stored_preferences principal.id db_path) theme_default theme_locked)

-- What CEL sees as `the user`.
pub record TheUser : Type 0 where
  pub id : Text
  pub display_name : Text
  pub is_anonymous : Bool
  pub is_system : Bool
  pub scopes : List Text
  pub roles : List Text
  pub preferences : Dict Text

pub record User : Type 0 where
  pub role : Text
  pub scopes : List Text
  pub roles : List Text
  pub first_name : Text
  pub profile_name : Text
  pub principal : Principal
  pub the_user : TheUser

pub build_the_user_object : Principal → List Text → List Text → TheUser
build_the_user_object principal scopes roles = record {
  id = principal.id;
  display_name = principal.display_name;
  is_anonymous = principal.is_anonymous;
  is_system = principal.is_system;
  scopes = scopes;
  roles = roles;
  preferences = principal.preferences;
}

abbrev roles_of : Text → List Text
roles_of role_name = if is_empty role_name then [] else role_name ∷ []

unfoldable pub build_user_dict : Principal → Text → List Text → User
unfolding build_the_user_object
build_user_dict principal role_name scopes =
    let display_name =
      or_text (some principal.display_name)
        (if principal.is_anonymous then codes "Anonymous" else codes "User") in
    let shown = if principal.is_anonymous then codes "Anonymous" else display_name in
    record {
      role = role_name;
      scopes = scopes;
      roles = roles_of role_name;
      first_name = shown;
      profile_name = shown;
      principal = principal;
      the_user = build_the_user_object principal scopes (roles_of role_name);
    }

-- What the runtime context holds for hydration.
pub record Context : Type 0 where
  pub db_path : Option Text
  pub theme_default : Option Text
  pub theme_locked : Option Text

pub record Cookies : Type 0 where
  pub termin_role : Option Text
  pub termin_user_name : Option Text

module _ (lower : Text → Text) (make_anonymous_principal : Option Text → Principal)
    (connect : Text → Option Database) where
  unfoldable pub hydrate : Option Context → Principal → Principal
  unfolding hydrate_principal_preferences
  hydrate none principal = principal
  hydrate (some ctx) principal =
      hydrate_principal_preferences connect principal ctx.db_path ctx.theme_default ctx.theme_locked

  -- `get_current_user`; `get_user_from_websocket` does the same with the socket's cookies.
  unfoldable pub get_current_user :
      RolesToScopes → Provider → Text → Option Context → Cookies → User
  unfolding resolve_principal_and_scopes hydrate build_user_dict
  get_current_user roles provider app_id ctx cookies =
      let (principal, role_name, scopes) =
        resolve_principal_and_scopes lower make_anonymous_principal cookies.termin_role
          cookies.termin_user_name roles provider app_id in
      build_user_dict (hydrate ctx principal) role_name scopes

-- The checker of `require_scope`; `none` is the response 403.
unfoldable pub require_scope : Text → User → Option User
require_scope scope user = if one_of scope user.scopes then some user else none
