-- ===== src/ConfigHash/Tests.antt =====
-- Two configurations of a model service.
use termin_server.Base.{
  ℕ, true, [], ◌∷◌, Text, codes, Json, j_num, j_str, Members, empty, member, ◌≡◌, refl,
}
use termin_server.ConfigHash.{is_secret_key, hash_provider_config}
use termin_server.ConfigHash.Same.{
  SameMembers, secret, shown, same_str, no_members, hash_provider_config-SameMembers,
}

abbrev same : Text → Text
same t = t

abbrev index_text : ℕ → Text
index_text i = i ∷ []

abbrev of_model : Json → Text
of_model j = codes "canonical"

abbrev config : Text → Text → Members
config key tokens =
    member (codes "model") (j_str (codes "m"))
      (member (codes "api_key") (j_str key) (member (codes "max_tokens") (j_num tokens) empty))

-- A limit of tokens counts as a secret.
max_tokens-secret : is_secret_key same index_text (codes "max_tokens") ≡ true
unfolding is_secret_key
max_tokens-secret = refl

config-Same :
    SameMembers same index_text
      (config (codes "k1") (codes "100"))
      (config (codes "k2") (codes "9"))
unfolding is_secret_key
config-Same = shown (codes "model") (same_str (codes "m")) (
    secret (codes "api_key") (j_str (codes "k1")) (j_str (codes "k2")) refl
      (secret (codes "max_tokens") (j_num (codes "100")) (j_num (codes "9")) refl no_members))

hash_provider_config-SameMembers_example :
    hash_provider_config same index_text of_model same (config (codes "k1") (codes "100"))
    ≡ hash_provider_config same index_text of_model same (config (codes "k2") (codes "9"))
hash_provider_config-SameMembers_example =
    hash_provider_config-SameMembers same index_text of_model same config-Same
