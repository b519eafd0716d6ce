-- ===== src/Identity/Roles.antt =====
-- The role that a cookie names.
use termin_server.Base.{
  false, [], ◌∷◌, none, some, Text, text_eq, text_eq_iff, text_eq_refl, List, lookup, ◌≡◌, refl,
  arith, Bool-cases, inl, inr, Option-cases, All, ◌⊎◌,
}
use termin_server.Identity.{RolesToScopes, match_lower, resolve_role_key}

-- A declared role.
abbrev pub IsRole : RolesToScopes → Text → Type 0
IsRole roles k = (scopes : List Text) × (lookup k roles ≡ some scopes)

-- No role's name is equal to the candidate, cases aside.
abbrev pub NoMatch : (Text → Text) → RolesToScopes → Text → Type 0
NoMatch lower roles candidate =
    All (λ (e : Text × List Text). text_eq (lower e.0) (lower candidate) ≡ false) roles

module _ (lower : Text → Text) where
  IsRole-cons :
      (k j : Text) (scopes : List Text) (roles : RolesToScopes)
      → IsRole roles k
      → IsRole ((j, scopes) ∷ roles) k
  unfolding lookup
  IsRole-cons k j scopes roles (s, e) = elim (Bool-cases (text_eq j k)) [
    | inl y ↦ (scopes, ground arith)
    | inr n ↦ (s, ground arith)
  ]

  IsRole-head :
      (k : Text) (scopes : List Text) (roles : RolesToScopes) → IsRole ((k, scopes) ∷ roles) k
  unfolding lookup
  IsRole-head k scopes roles = (scopes, rw (text_eq_refl k) refl)

  match_lower_cases :
      (roles : RolesToScopes) (candidate first : Text)
      → ((match_lower lower roles candidate first ≡ first) × NoMatch lower roles candidate)
        ⊎ (IsRole roles (match_lower lower roles candidate first)
            × (lower (match_lower lower roles candidate first) ≡ lower candidate))
  unfolding match_lower
  match_lower_cases [] candidate first = inl (refl, tt)
  match_lower_cases ((k, scopes) ∷ roles) candidate first =
      elim (Bool-cases (text_eq (lower k) (lower candidate))) [
        | inl e ↦ inr (rw e (IsRole-head k scopes roles, (text_eq_iff _ _).0 e))
        | inr n ↦ elim (match_lower_cases roles candidate first) [
          | inl (f, a) ↦ inl (rw n f, (n, a))
          | inr (r, l) ↦ inr (rw n (IsRole-cons _ k scopes roles r, l))
        ]
      ]

  -- How a role name is found: the role of that name, or if there is none a role equal to it without
  -- regard to case, or if there is no such role either the first one.
  pub data Found (roles : RolesToScopes) (candidate first r : Text) : Type 0 where
    exact : r ≡ candidate → Found roles candidate first r
    folded :
        lookup candidate roles ≡ none → lower r ≡ lower candidate → Found roles candidate first r
    default :
        lookup candidate roles ≡ none
        → NoMatch lower roles candidate
        → r ≡ first
        → Found roles candidate first r

  -- Whatever role name a cookie holds, it resolves to a declared role, found as `Found` says.
  pub resolve_role_key-IsRole :
      (k : Text) (scopes : List Text) (roles : RolesToScopes) (candidate : Text)
      → IsRole ((k, scopes) ∷ roles) (resolve_role_key lower ((k, scopes) ∷ roles) (some candidate))
        × Found
            ((k, scopes) ∷ roles)
            candidate
            k
            (resolve_role_key lower ((k, scopes) ∷ roles) (some candidate))
  unfolding resolve_role_key
  resolve_role_key-IsRole k scopes roles candidate =
      elim (Option-cases (lookup candidate ((k, scopes) ∷ roles))) [
        | inr (s, e) ↦ rw (e, resolve_role_key) ((s, e), exact refl)
        | inl n ↦ elim (match_lower_cases ((k, scopes) ∷ roles) candidate k) [
          | inl (f, a) ↦ rw (n, resolve_role_key, f) (IsRole-head k scopes roles, default n a refl)
          | inr (r, l) ↦ rw (n, resolve_role_key) (r, folded n l)
        ]
      ]
