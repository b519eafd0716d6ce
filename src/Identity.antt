-- ===== src/Identity.antt =====
-- termin_server/identity.py: from the cookies of a request to a principal, a role and scopes.
-- `str.lower` and the identity provider of the deployment are parameters; a set is a list, and the
-- order in which Python walks it is that of the list.
pub mod Roles
pub mod Bypass
pub mod Failure
pub mod Users
pub mod Stub
mod Tests
use termin_server.Base.{
  Bool, true, false, List, [], ◌∷◌, ◌++◌, Option, none, some, Text, codes, text_eq, one_of, Dict,
  lookup, is_empty, if◌then◌else◌,
}

abbrev pub RolesToScopes : Type 0
RolesToScopes = Dict (List Text)

-- The principal of the identity contract, as far as the server reads it.
pub record Principal : Type 0 where
  pub id : Text
  pub display_name : Text
  pub is_anonymous : Bool
  pub is_system : Bool
  pub claims : Dict Text
  pub preferences : Dict Text

-- What the server asks of an identity provider; `none` is an exception.
pub record Provider : Type 0 where
  pub authenticate : (role user_name : Text) → Option Principal
  pub roles_for : Principal → Text → Option (List Text)

-- `d.get(k, [])`
pub scopes_of : RolesToScopes → Text → List Text
scopes_of roles k = elim (lookup k roles) [ none ↦ [] | some scopes ↦ scopes ]

-- The members of the second list join the set that the first stands for.
pub set_update : List Text → List Text → List Text
set_update set [] = set
set_update set (x ∷ xs) = set_update (if one_of x set then set else set ++ x ∷ []) xs

abbrev pub or_text : Option Text → Text → Text
or_text none d = d
or_text (some []) d = d
or_text (some s) d = s

-- The type of a resolution: principal, role name, scopes.
abbrev pub Resolution : Type 0
Resolution = Principal × Text × List Text

module _ (lower : Text → Text) where
  -- The loop over the keys, with the first key as its last resort.
  match_lower : RolesToScopes → Text → Text → Text
  match_lower [] candidate first = first
  match_lower ((k, scopes) ∷ roles) candidate first =
      if text_eq (lower k) (lower candidate) then k else match_lower roles candidate first

  -- `_resolve_role_key`
  pub resolve_role_key : RolesToScopes → Option Text → Text
  unfolding match_lower
  resolve_role_key [] candidate = []
  resolve_role_key ((k, scopes) ∷ roles) none = k
  resolve_role_key ((k, scopes) ∷ roles) (some candidate) =
      elim (lookup candidate ((k, scopes) ∷ roles)) [
        | some found ↦ candidate
        | none ↦ match_lower ((k, scopes) ∷ roles) candidate k
      ]

  -- The loop over the provider's roles: the scopes so far, and the role that is chosen.
  gather : RolesToScopes → Text → List Text → List Text → Text → List Text × Text
  gather roles canonical_role [] effective chosen = (effective, chosen)
  gather roles canonical_role (r ∷ rs) effective chosen =
      let canonical = resolve_role_key roles (some r) in
      let chosen' =
        if text_eq r canonical_role
        then canonical
        else if text_eq canonical canonical_role
        then canonical
        else chosen in
      gather roles canonical_role rs (set_update effective (scopes_of roles canonical)) chosen'

  module _ (make_anonymous_principal : Option Text → Principal) where
    -- The handler of a provider's exception.
    fail_closed : RolesToScopes → Option Text → Resolution
    fail_closed roles cookie_name =
        let anon_key = resolve_role_key roles (some (codes "anonymous")) in
        (make_anonymous_principal cookie_name, anon_key, scopes_of roles anon_key)

    accept : RolesToScopes → Text → Principal → List Text → Resolution
    accept roles canonical_role principal provider_roles =
        let (effective, chosen) = gather roles canonical_role provider_roles [] canonical_role in
        (principal, chosen, effective)

    ask_provider : Provider → RolesToScopes → Text → Option Text → Text → Resolution
    unfolding fail_closed accept
    ask_provider provider roles canonical_role cookie_name app_id =
        elim (provider.authenticate canonical_role (or_text cookie_name (codes "User"))) [
          | none ↦ fail_closed roles cookie_name
          | some principal ↦ elim (provider.roles_for principal app_id) [
            | none ↦ fail_closed roles cookie_name
            | some provider_roles ↦ accept roles canonical_role principal provider_roles
          ]
        ]

    -- `_resolve_principal_and_scopes`
    pub resolve_principal_and_scopes :
        (cookie_role cookie_name : Option Text) → RolesToScopes → Provider → Text → Resolution
    unfolding ask_provider
    resolve_principal_and_scopes cookie_role cookie_name roles provider app_id =
        let canonical_role = resolve_role_key roles cookie_role in
        if text_eq (lower canonical_role) (codes "anonymous")
        then (make_anonymous_principal cookie_name, canonical_role, scopes_of roles canonical_role)
        else ask_provider provider roles canonical_role cookie_name app_id
