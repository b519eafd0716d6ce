-- ===== src/Identity/Failure.antt =====
-- What a request is granted when the identity provider fails.
use termin_server.Base.{
  false, [], ◌∷◌, Option, none, some, Text, codes, text_eq, text_eq_refl, List, lookup, ◌≡◌, refl,
}
use termin_server.Identity.{
  RolesToScopes, Principal, Provider, or_text, scopes_of, match_lower, resolve_role_key,
  fail_closed, ask_provider, resolve_principal_and_scopes,
}
use termin_server.Identity.Roles.{NoMatch}

module _ (lower : Text → Text) where
  match_lower-first :
      (roles : RolesToScopes) (candidate first : Text)
      → NoMatch lower roles candidate
      → match_lower lower roles candidate first ≡ first
  unfolding match_lower
  match_lower-first [] candidate first h = refl
  match_lower-first ((k, scopes) ∷ roles) candidate first h =
      rw h.0 (match_lower-first roles candidate first h.1)

  anonymous_key :
      (k : Text) (scopes : List Text) (roles : RolesToScopes)
      → NoMatch lower ((k, scopes) ∷ roles) (codes "anonymous")
      → lookup (codes "anonymous") ((k, scopes) ∷ roles) ≡ none
      → resolve_role_key lower ((k, scopes) ∷ roles) (some (codes "anonymous")) ≡ k
  unfolding resolve_role_key
  anonymous_key k scopes roles n l =
      rw (l, resolve_role_key) (match_lower-first ((k, scopes) ∷ roles) (codes "anonymous") k n)

  scopes_of-head :
      (k : Text) (scopes : List Text) (roles : RolesToScopes)
      → scopes_of ((k, scopes) ∷ roles) k ≡ scopes
  unfolding scopes_of lookup
  scopes_of-head k scopes roles = rw (text_eq_refl k, scopes_of) refl

  -- Where no declared role is the anonymous one, a failing provider gives the request the first
  -- declared role and all of its scopes, whichever role the cookie named.
  pub fail_closed-first :
      (make_anonymous_principal : Option Text → Principal) (cookie_role cookie_name : Option Text)
      (k : Text) (scopes : List Text) (roles : RolesToScopes) (provider : Provider) (app_id : Text)
      → NoMatch lower ((k, scopes) ∷ roles) (codes "anonymous")
      → lookup (codes "anonymous") ((k, scopes) ∷ roles) ≡ none
      → text_eq
          (lower (resolve_role_key lower ((k, scopes) ∷ roles) cookie_role))
          (codes "anonymous")
        ≡ false
      → ((role name : Text) → provider.authenticate role name ≡ none)
      → resolve_principal_and_scopes lower make_anonymous_principal cookie_role cookie_name
          ((k, scopes) ∷ roles)
          provider
          app_id
        ≡ (make_anonymous_principal cookie_name, k, scopes)
  unfolding resolve_principal_and_scopes ask_provider fail_closed
  fail_closed-first make cookie_role cookie_name k scopes roles provider app_id n l c p =
      rw
        (
          c,
          ask_provider,
          p (resolve_role_key lower ((k, scopes) ∷ roles) cookie_role)
              (or_text cookie_name (codes "User")),
        )
        (rw (anonymous_key k scopes roles n l) (rw (scopes_of-head k scopes roles) refl))
