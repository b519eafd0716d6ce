-- ===== src/Storage/Keyset/Nulls.antt =====
-- The keyset filter at a cursor that holds NULL.
use termin_server.Base.{
  Bool, List, [], ◌∷◌, ◌++◌, Text, Value, null, is_none, length, ◌≡◌, ◌≢◌, refl, ap, suc,
  Bool-cases, inl, inr,
}
use termin_server.Storage.Identifiers.{ok}
use termin_server.Storage.Keyset.{SortKey, Bound, zip, build_keyset_filter}
use termin_server.Storage.Keyset.Meaning.{
  Comparison, Condition, condition_text, condition_values, Truth, holds, fails, unknown, and3, or3,
  compare_truth, condition_truth, equal_comparison, strict_comparison, keyset_condition,
  build_keyset_filter_lem,
}

or3-ne_holds : (s t : Truth) → s ≢ holds → t ≢ holds → or3 s t ≢ holds
or3-ne_holds holds t h k = absurd (h refl)
or3-ne_holds fails t h k = k
or3-ne_holds unknown holds h k = absurd (k refl)
or3-ne_holds unknown t h k = cc

and3-ne_holds : (s t : Truth) → s ≢ holds → and3 s t ≢ holds
and3-ne_holds holds t h = absurd (h refl)
and3-ne_holds fails t h = h
and3-ne_holds unknown fails h = cc
and3-ne_holds unknown t h = cc

module _ (less : Value → Value → Bool) (same : Value → Value → Bool) (row : Text → Value) where
  compare_truth-null : (c : Comparison) → c.value ≡ null → compare_truth less same row c ≢ holds
  compare_truth-null c e = elim (Bool-cases (is_none (row c.column))) [
    | inl n ↦ rw n (cc)
    | inr n ↦ rw (n, e) (cc)
  ]

  condition_truth-null :
      (k : SortKey) (earlier bounds : List Bound)
      → condition_truth less same row (keyset_condition ((k, null) ∷ earlier) bounds) ≢ holds
  unfolding keyset_condition equal_comparison
  condition_truth-null k earlier [] = cc
  condition_truth-null k earlier (b ∷ bounds) =
      or3-ne_holds _ _ (and3-ne_holds _ _ (compare_truth-null (equal_comparison (k, null)) refl))
        (condition_truth-null k (earlier ++ b ∷ []) bounds)

-- If the cursor's value for the first sort key is NULL, the filter is the text of a condition that
-- is true of no row at all.
pub build_keyset_filter-null :
    (k : SortKey) (keys : List SortKey) (cursor : List Value)
    → length cursor ≡ length keys
    → (c : Condition) × (build_keyset_filter (k ∷ keys) (null ∷ cursor)
        ≡ ok (condition_text c, condition_values c))
      × ((less same : Value → Value → Bool) (row : Text → Value)
          → condition_truth less same row c ≢ holds)
unfolding keyset_condition strict_comparison
build_keyset_filter-null k keys cursor h = (
  keyset_condition [] ((k, null) ∷ zip keys cursor),
  build_keyset_filter_lem (k ∷ keys) (null ∷ cursor) (ap suc h),
  λ less same row.
      or3-ne_holds _ _
        (and3-ne_holds _ _ (compare_truth-null less same row (strict_comparison (k, null)) refl))
        (condition_truth-null less same row k [] (zip keys cursor)),
)
