-- ===== src/Identity/Stub/Granted.antt =====
-- What a request is granted under the stub provider.
use termin_server.Base.{
  false, [], ◌∷◌, Option, some, Text, codes, text_eq, one_of, Dict, lookup, is_empty, ◌≡◌, ◌∙◌,
  refl, arith,
}
use termin_server.Identity.{
  RolesToScopes, Principal, or_text, scopes_of, resolve_role_key, resolve_principal_and_scopes,
}
use termin_server.Identity.Roles.{IsRole}
use termin_server.Identity.Bypass.{resolve-granted}
use termin_server.Identity.Stub.{stub_principal, authenticate, roles_for, stub_identity_provider}

resolve_role_key-exact :
    (lower : Text → Text) (roles : RolesToScopes) (role : Text)
    → IsRole roles role
    → resolve_role_key lower roles (some role) ≡ role
unfolding resolve_role_key lookup
resolve_role_key-exact lower [] role (s, e) = cc
resolve_role_key-exact lower ((k, scopes) ∷ roles) role (s, e) = rw (e, resolve_role_key) refl

module _ (strip hexdigest : Text → Text)
    (human_principal : (id display_name : Text) → Dict Text → Principal) where
  roles_for-stub_principal :
      (role user_name app_id : Text)
      → ((id name : Text) (claims : Dict Text) → (human_principal id name claims).claims ≡ claims)
      → ((id name : Text) (claims : Dict Text)
          → (human_principal id name claims).is_anonymous ≡ false)
      → is_empty role ≡ false
      → roles_for strip hexdigest human_principal
          (stub_principal strip hexdigest human_principal role user_name)
          app_id
        ≡ some (role ∷ [])
  unfolding roles_for stub_principal lookup
  roles_for-stub_principal [] user_name app_id c a n = cc
  roles_for-stub_principal (x ∷ xs) user_name app_id c a n = rw (a _ _ _, c _ _ _) refl

  authenticate-strip :
      (role user_name : Text)
      → strip role ≡ role
      → is_empty role ≡ false
      → authenticate strip hexdigest human_principal role user_name
        ≡ some (
            stub_principal strip hexdigest human_principal role
              (or_text (some (strip user_name)) (codes "User")))
  unfolding authenticate
  authenticate-strip role user_name s n = rw (s, n) refl

-- Under the stub provider a request whose role resolves to a declared role that is not the anonymous
-- one, and that `strip` leaves as it is, gets the scopes of exactly that role. The parameters are
-- assumed to build a principal that has the claims it is given and is not anonymous.
pub resolve-stub_identity_provider :
    (lower strip hexdigest : Text → Text)
    (human_principal : (id display_name : Text) → Dict Text → Principal)
    (make_anonymous_principal : Option Text → Principal) (roles : RolesToScopes)
    (cookie_role cookie_name : Option Text) (app_id role s : Text)
    → ((id name : Text) (claims : Dict Text) → (human_principal id name claims).claims ≡ claims)
    → ((id name : Text) (claims : Dict Text)
        → (human_principal id name claims).is_anonymous ≡ false)
    → resolve_role_key lower roles cookie_role ≡ role
    → IsRole roles role
    → text_eq (lower role) (codes "anonymous") ≡ false
    → strip role ≡ role
    → is_empty role ≡ false
    → one_of s
        (resolve_principal_and_scopes lower make_anonymous_principal cookie_role cookie_name roles
          (stub_identity_provider strip hexdigest human_principal)
          app_id).2
      ≡ one_of s (scopes_of roles role)
unfolding stub_identity_provider
resolve-stub_identity_provider lower strip hexdigest human make roles cookie_role cookie_name app_id
      role s c a r i n t e =
    (resolve-granted lower roles make cookie_role cookie_name
      (stub_identity_provider strip hexdigest human) app_id
      (stub_principal strip hexdigest human role
        (or_text (some (strip (or_text cookie_name (codes "User")))) (codes "User")))
      (role ∷ []) s (rw r n)
      (rw r
        (authenticate-strip strip hexdigest human role (or_text cookie_name (codes "User")) t e))
      (roles_for-stub_principal strip hexdigest human role _ app_id c a e)).1
    ∙ (rw (resolve_role_key-exact lower roles role i) (ground arith))
