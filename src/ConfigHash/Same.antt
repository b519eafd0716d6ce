-- ===== src/ConfigHash/Same.antt =====
-- What the hash of a configuration does not depend on.
use termin_server.Base.{
  ℕ, suc, Bool, true, [], ◌++◌, Text, codes, Json, j_null, j_bool, j_num, j_str, j_arr, j_obj,
  Jsons, nil, cons, Members, empty, member, Bool-cases, inl, inr, ◌≡◌, refl, ap, ap₂,
}
use termin_server.ConfigHash.{
  is_secret_key, sub_path, item_path, placeholder_of, redact, redact_members, redact_items,
  hash_provider_config,
}

module _ (lower : Text → Text) (decimal : ℕ → Text) where
  -- Values that differ only in what stands under secret keys.
  mutual
    pub data SameBut : Json → Json → Type 0 where
      same_null : SameBut j_null j_null
      same_bool : (b : Bool) → SameBut (j_bool b) (j_bool b)
      same_num : (t : Text) → SameBut (j_num t) (j_num t)
      same_str : (s : Text) → SameBut (j_str s) (j_str s)
      same_arr : {xs ys : Jsons} → SameItems xs ys → SameBut (j_arr xs) (j_arr ys)
      same_obj : {d e : Members} → SameMembers d e → SameBut (j_obj d) (j_obj e)

    pub data SameItems : Jsons → Jsons → Type 0 where
      no_items : SameItems nil nil
      item :
          {x y : Json} {xs ys : Jsons}
          → SameBut x y
          → SameItems xs ys
          → SameItems (cons x xs) (cons y ys)

    pub data SameMembers : Members → Members → Type 0 where
      no_members : SameMembers empty empty
      secret :
          (k : Text) (v w : Json) {d e : Members}
          → is_secret_key lower decimal k ≡ true
          → SameMembers d e
          → SameMembers (member k v d) (member k w e)
      shown :
          (k : Text) {v w : Json} {d e : Members}
          → SameBut v w
          → SameMembers d e
          → SameMembers (member k v d) (member k w e)

  mutual
    unfolding redact

    redact-SameBut :
        (path : Text) {v w : Json}
        → SameBut v w
        → redact lower decimal v path ≡ redact lower decimal w path
    redact-SameBut path same_null = refl
    redact-SameBut path (same_bool b) = refl
    redact-SameBut path (same_num t) = refl
    redact-SameBut path (same_str s) = refl
    redact-SameBut path (same_arr h) = ap j_arr (redact_items-SameItems path 0 h)
    redact-SameBut path (same_obj h) = ap j_obj (redact_members-SameMembers path h)

    redact_items-SameItems :
        (path : Text) (i : ℕ) {xs ys : Jsons}
        → SameItems xs ys
        → redact_items lower decimal xs i path ≡ redact_items lower decimal ys i path
    redact_items-SameItems path i no_items = refl
    redact_items-SameItems path i (item h k) =
        ap₂ cons (redact-SameBut (item_path lower decimal path i) h)
          (redact_items-SameItems path (suc i) k)

    redact_members-SameMembers :
        (path : Text) {d e : Members}
        → SameMembers d e
        → redact_members lower decimal d path ≡ redact_members lower decimal e path
    redact_members-SameMembers path no_members = refl
    redact_members-SameMembers path (secret k v w s h) =
        rw s
          (ap (member k (placeholder_of lower decimal path k)) (redact_members-SameMembers path h))
    redact_members-SameMembers path (shown k h g) =
        elim (Bool-cases (is_secret_key lower decimal k)) [
          | inl s ↦ rw s (
              ap (member k (placeholder_of lower decimal path k))
                (redact_members-SameMembers path g))
          | inr n ↦ rw n (
              ap₂ (member k) (redact-SameBut (sub_path lower decimal path k) h)
                (redact_members-SameMembers path g))
        ]

  -- Configurations that differ only in the values under keys that look secret, at any depth, have the
  -- same hash.
  pub hash_provider_config-SameMembers :
      (canonical : Json → Text) (sha256 : Text → Text) {c d : Members}
      → SameMembers c d
      → hash_provider_config lower decimal canonical sha256 c
        ≡ hash_provider_config lower decimal canonical sha256 d
  unfolding hash_provider_config
  hash_provider_config-SameMembers canonical sha256 h =
      ap (λ (j : Json). codes "sha256:" ++ sha256 (canonical j)) (redact-SameBut [] (same_obj h))
