-- ===== src/ConfigHash.antt =====
-- The hash of a provider's configuration: termin_server/providers/builtins/_provider_hash.py.
-- `str.lower`, the decimal text of an index, `json.dumps` with sorted keys and the digest are parameters.
pub mod Same
mod Tests
use termin_server.Base.{
  ℕ, suc, Bool, List, [], ◌∷◌, ◌++◌, ◌||◌, Text, codes, is_empty, is_within, Json, j_null, j_bool,
  j_num, j_str, j_arr, j_obj, Jsons, nil, cons, Members, empty, member, if◌then◌else◌,
}

-- `_SECRET_KEY_SUBSTRINGS`
abbrev pub secret_key_substrings : List Text
secret_key_substrings =
    codes "key"
    ∷ codes "secret"
    ∷ codes "token"
    ∷ codes "password"
    ∷ codes "credential"
    ∷ codes "private"
    ∷ []

abbrev pub any_within : List Text → Text → Bool
any_within [] key = Bool.false
any_within (sub ∷ subs) key = is_within sub key || any_within subs key

module _ (lower : Text → Text) (decimal : ℕ → Text) where
  pub is_secret_key : Text → Bool
  is_secret_key key = any_within secret_key_substrings (lower key)

  pub sub_path : Text → Text → Text
  sub_path path key = if is_empty path then key else path ++ (codes "." ++ key)

  pub item_path : Text → ℕ → Text
  item_path path i = path ++ (codes "[" ++ (decimal i ++ codes "]"))

  -- What stands for a secret
  abbrev pub placeholder_of : Text → Text → Json
  placeholder_of path key = j_str (codes "<" ++ (sub_path path key ++ codes ">"))

  -- `_redact`
  mutual
    unfolding is_secret_key sub_path item_path

    pub redact : Json → Text → Json
    redact (j_obj d) path = j_obj (redact_members d path)
    redact (j_arr xs) path = j_arr (redact_items xs 0 path)
    redact j_null path = j_null
    redact (j_bool b) path = j_bool b
    redact (j_num t) path = j_num t
    redact (j_str s) path = j_str s

    pub redact_members : Members → Text → Members
    redact_members empty path = empty
    redact_members (member k v d) path =
        let value = redact v (sub_path path k) in
        let rest = redact_members d path in
        if is_secret_key k then member k (placeholder_of path k) rest else member k value rest

    pub redact_items : Jsons → ℕ → Text → Jsons
    redact_items nil i path = nil
    redact_items (cons x xs) i path =
        cons (redact x (item_path path i)) (redact_items xs (suc i) path)

  module _ (canonical : Json → Text) (sha256 : Text → Text) where
    pub hash_provider_config : Members → Text
    unfolding redact
    hash_provider_config config = codes "sha256:" ++ sha256 (canonical (redact (j_obj config) []))
