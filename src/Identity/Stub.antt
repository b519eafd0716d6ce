-- ===== src/Identity/Stub.antt =====
-- termin_server/providers/builtins/identity_stub.py. `str.strip`, the digest of SHA-256 and the
-- constructor of a human principal are parameters.
pub mod Granted
use termin_server.Base.{
  List, [], ◌∷◌, ◌++◌, Option, none, some, Text, codes, Dict, lookup, is_empty, take, if◌then◌else◌,
}
use termin_server.Identity.{Principal, Provider, or_text}

module _ (strip hexdigest : Text → Text)
    (human_principal : (id display_name : Text) → Dict Text → Principal) where
  unfoldable pub stub_principal : Text → Text → Principal
  stub_principal role user_name =
      human_principal (codes "stub:" ++ take 16 (hexdigest (role ++ codes "|" ++ user_name)))
        user_name ((codes "stub_role", role) ∷ (codes "stub_user_name", user_name) ∷ [])

  -- `authenticate`; `none` is its ValueError.
  unfoldable pub authenticate : Text → Text → Option Principal
  unfolding stub_principal
  authenticate role user_name =
      if is_empty (strip role)
      then none
      else some (stub_principal (strip role) (or_text (some (strip user_name)) (codes "User")))

  -- `roles_for`
  unfoldable pub roles_for : Principal → Text → Option (List Text)
  roles_for principal app_id =
      let role = or_text (lookup (codes "stub_role") principal.claims) [] in
      if principal.is_anonymous then none else if is_empty role then some [] else some (role ∷ [])

  unfoldable pub stub_identity_provider : Provider
  unfolding authenticate roles_for
  stub_identity_provider = record { authenticate = authenticate; roles_for = roles_for }
