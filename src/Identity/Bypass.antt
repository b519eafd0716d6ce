-- ===== src/Identity/Bypass.antt =====
-- Requests that never reach the identity provider, and what a provider can grant.
use termin_server.Base.{
  Bool, true, false, [], ◌∷◌, ◌++◌, Option, some, Text, codes, text_eq, text_eq_iff, one_of, List,
  ◌≡◌, refl, arith, Bool-cases, inl, inr, if◌then◌else◌, Option-cases, any, ◌∙◌, sym,
}
use termin_server.Identity.{
  RolesToScopes, Principal, Provider, or_text, scopes_of, set_update, resolve_role_key, gather,
  fail_closed, accept, ask_provider, resolve_principal_and_scopes,
}

-- A scope that some declared role holds.
abbrev pub IsDeclared : RolesToScopes → Text → Type 0
IsDeclared roles scope = (k : Text) × (one_of scope (scopes_of roles k) ≡ true)

-- Every one of the scopes is declared.
abbrev pub AllDeclared : RolesToScopes → List Text → Type 0
AllDeclared roles scopes = (s : Text) → one_of s scopes ≡ true → IsDeclared roles s

one_of-append :
    (s : Text) (xs ys : List Text)
    → one_of s (xs ++ ys) ≡ (if one_of s xs then true else one_of s ys)
one_of-append s [] ys = refl
one_of-append s (x ∷ xs) ys = ground (arith, one_of-append s xs ys)

one_of-same :
    (s x : Text) (set : List Text) → one_of x set ≡ true → text_eq s x ≡ true → one_of s set ≡ true
one_of-same s x set e h = rw ((text_eq_iff s x).0 h) e

-- Membership in the union.
pub one_of-set_update :
    (s : Text) (set xs : List Text)
    → one_of s (set_update set xs) ≡ (if one_of s set then true else one_of s xs)
unfolding set_update
one_of-set_update s set [] = ground arith
one_of-set_update s set (x ∷ xs) = elim (Bool-cases (one_of x set)) [
  | inl e ↦ rw e (one_of-set_update s set xs ∙ ground (arith, one_of-same s x set e))
  | inr n ↦
      rw n (one_of-set_update s (set ++ x ∷ []) xs ∙ ground (arith, one_of-append s set (x ∷ [])))
]

module _ (lower : Text → Text) (roles : RolesToScopes) where
  -- Some of the provider's roles holds the scope, as the source declares it.
  abbrev pub granted : Text → List Text → Bool
  granted s = any (λ r. one_of s (scopes_of roles (resolve_role_key lower roles (some r))))

  one_of-gather :
      (s canonical_role : Text) (rs effective : List Text) (chosen : Text)
      → one_of s (gather lower roles canonical_role rs effective chosen).0
        ≡ (if one_of s effective then true else granted s rs)
  unfolding gather
  one_of-gather s canonical_role [] effective chosen = ground arith
  one_of-gather s canonical_role (r ∷ rs) effective chosen =
      one_of-gather s canonical_role rs _ _
      ∙ ground (
        arith,
        one_of-set_update s effective (scopes_of roles (resolve_role_key lower roles (some r))),
      )

  module _ (make_anonymous_principal : Option Text → Principal) where
    -- Where the cookie's role is not the anonymous one and the provider answers, the principal is the
    -- provider's, and a scope is granted exactly if one of the provider's roles holds it.
    pub resolve-granted :
        (cookie_role cookie_name : Option Text) (provider : Provider) (app_id : Text)
        (principal : Principal) (provider_roles : List Text) (s : Text)
        → text_eq (lower (resolve_role_key lower roles cookie_role)) (codes "anonymous") ≡ false
        → provider.authenticate
            (resolve_role_key lower roles cookie_role)
            (or_text cookie_name (codes "User"))
          ≡ some principal
        → provider.roles_for principal app_id ≡ some provider_roles
        → ((resolve_principal_and_scopes lower make_anonymous_principal cookie_role cookie_name
              roles provider app_id).0
            ≡ principal)
          × (one_of s
                (resolve_principal_and_scopes lower make_anonymous_principal cookie_role cookie_name
                  roles provider app_id).2
              ≡ granted s provider_roles)
    unfolding resolve_principal_and_scopes
    resolve-granted cookie_role cookie_name provider app_id principal provider_roles s a p r =
        rw (a, ask_provider, p, accept, r)
          (
            refl,
            one_of-gather s (resolve_role_key lower roles cookie_role) provider_roles []
                (resolve_role_key lower roles cookie_role),
          )

    AllDeclared-scopes_of : (k : Text) → AllDeclared roles (scopes_of roles k)
    AllDeclared-scopes_of k s h = (k, h)

    AllDeclared-granted : (s : Text) (rs : List Text) → granted s rs ≡ true → IsDeclared roles s
    AllDeclared-granted s [] h = cc
    AllDeclared-granted s (r ∷ rs) h =
        elim (Bool-cases (one_of s (scopes_of roles (resolve_role_key lower roles (some r))))) [
          | inl e ↦ (resolve_role_key lower roles (some r), e)
          | inr n ↦ AllDeclared-granted s rs (ground arith)
        ]

    AllDeclared-accept :
        (canonical_role : Text) (principal : Principal) (rs : List Text)
        → AllDeclared roles
            (accept lower make_anonymous_principal roles canonical_role principal rs).2
    unfolding accept
    AllDeclared-accept canonical_role principal rs s h =
        AllDeclared-granted s rs (sym (one_of-gather s canonical_role rs [] canonical_role) ∙ h)

    AllDeclared-ask_provider :
        (canonical_role : Text) (cookie_name : Option Text) (provider : Provider) (app_id : Text)
        → AllDeclared roles
            (ask_provider lower make_anonymous_principal provider roles canonical_role cookie_name
              app_id).2
    unfolding ask_provider fail_closed
    AllDeclared-ask_provider canonical_role cookie_name provider app_id =
        elim (Option-cases
          (provider.authenticate canonical_role (or_text cookie_name (codes "User")))) [
            | inl f ↦ rw (f, ask_provider) (AllDeclared-scopes_of _)
            | inr (principal, e) ↦ elim (Option-cases (provider.roles_for principal app_id)) [
              | inl f ↦ rw (e, ask_provider, f) (AllDeclared-scopes_of _)
              | inr (rs, g) ↦
                  rw (e, ask_provider, g) (AllDeclared-accept canonical_role principal rs)
            ]
          ]

    -- No request is ever granted a scope that the source declares for no role, whatever its cookies
    -- say and whatever the provider answers, an exception included.
    pub resolve-AllDeclared :
        (cookie_role cookie_name : Option Text) (provider : Provider) (app_id : Text)
        → AllDeclared roles
            (resolve_principal_and_scopes lower make_anonymous_principal cookie_role cookie_name
              roles provider app_id).2
    unfolding resolve_principal_and_scopes
    resolve-AllDeclared cookie_role cookie_name provider app_id =
        elim (Bool-cases
          (text_eq (lower (resolve_role_key lower roles cookie_role)) (codes "anonymous"))) [
            | inl e ↦ rw e (AllDeclared-scopes_of _)
            | inr n ↦ rw n (
                AllDeclared-ask_provider (resolve_role_key lower roles cookie_role) cookie_name
                  provider app_id)
          ]
