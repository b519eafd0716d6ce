-- ===== src/Storage/Keyset/Tests.antt =====
-- Runs of the keyset filter, and its theorems at concrete cursors.
use termin_server.Base.{List, [], ◌∷◌, Text, Value, null, int, pos, codes, Bool, ◌≡◌, ◌≢◌, refl}
use termin_server.Storage.Identifiers.{ok, q}
use termin_server.Storage.Keyset.{asc, desc, SortKey, zip, build_keyset_filter}
use termin_server.Storage.Keyset.Meaning.{
  Condition, condition_text, condition_values, condition_truth, holds, as_truth, is_after,
  HasNoNull, build_keyset_filter-after,
}
use termin_server.Storage.Keyset.Nulls.{build_keyset_filter-null}

abbrev sample_keys : List SortKey
sample_keys =
    record { field = codes "p"; direction = desc }
    ∷ record { field = codes "id"; direction = asc }
    ∷ []

filter_sample :
    build_keyset_filter sample_keys (int (pos 5) ∷ int (pos 7) ∷ [])
    ≡ ok (
      codes "((\"p\" < ?) OR (\"p\" = ? AND \"id\" > ?))",
      int (pos 5) ∷ int (pos 5) ∷ int (pos 7) ∷ [],
    )
unfolding build_keyset_filter q
filter_sample = refl

build_keyset_filter-after_example :
    (c : Condition) × (build_keyset_filter sample_keys (int (pos 5) ∷ int (pos 7) ∷ [])
      ≡ ok (condition_text c, condition_values c))
    × ((less same : Value → Value → Bool) (row : Text → Value)
        → HasNoNull less same row (zip sample_keys (int (pos 5) ∷ int (pos 7) ∷ []))
        → condition_truth less same row c
          ≡ as_truth (is_after less same row (zip sample_keys (int (pos 5) ∷ int (pos 7) ∷ []))))
build_keyset_filter-after_example =
    build_keyset_filter-after sample_keys (int (pos 5) ∷ int (pos 7) ∷ []) refl

build_keyset_filter-null_example :
    (c : Condition) × (build_keyset_filter sample_keys (null ∷ int (pos 7) ∷ [])
      ≡ ok (condition_text c, condition_values c))
    × ((less same : Value → Value → Bool) (row : Text → Value)
        → condition_truth less same row c ≢ holds)
build_keyset_filter-null_example =
    build_keyset_filter-null (record { field = codes "p"; direction = desc })
      (record { field = codes "id"; direction = asc } ∷ []) (int (pos 7) ∷ []) refl
