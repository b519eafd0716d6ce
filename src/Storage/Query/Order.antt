-- ===== src/Storage/Query/Order.antt =====
-- The rows behind a row, in the order of the sort keys.
use termin_server.Base.{
  Bool, true, false, List, [], ◌∷◌, ◌++◌, map, keep, All, Value, is_none, ◌≡◌, refl, ap, arith,
}
use termin_server.Storage.Keyset.{SortKey, Bound, zip}
use termin_server.Storage.Keyset.Meaning.{
  Truth, holds, condition_truth, keyset_condition, is_after, HasNoNull, condition_truth-after,
}
use termin_server.Storage.Query.{Row, column}

-- The values of a row's sort keys: the cursor behind it.
abbrev pub cursor_of : List SortKey → Row → List Value
cursor_of keys r = map (λ (k : SortKey). column r k.field) keys

abbrev pub bounds_of : List SortKey → Row → List Bound
bounds_of keys r = zip keys (cursor_of keys r)

abbrev pub is_holds : Truth → Bool
is_holds holds = true
is_holds t = false

module _ (less same : Value → Value → Bool) (keys : List SortKey) where
  -- Row `s` stands behind row `r`.
  abbrev pub behind : Row → Row → Bool
  behind r s = is_after less same (column s) (bounds_of keys r)

  -- The rows stand in the strict order of the keys.
  abbrev pub IsOrdered : List Row → Type 0
  IsOrdered [] = Unit
  IsOrdered (r ∷ rows) =
      (behind r r ≡ false)
      × All (λ s. (behind r s ≡ true) × (behind s r ≡ false)) rows
      × IsOrdered rows

  -- The rows at which SQL finds the keyset condition of `r` true.
  abbrev pub selected : Row → List Row → List Row
  selected r = keep (λ s.
      is_holds (condition_truth less same (column s) (keyset_condition [] (bounds_of keys r))))

  -- No sort key of a row is NULL.
  abbrev pub NoNulls : List Row → Type 0
  NoNulls = All (λ r. All (λ (k : SortKey). is_none (column r k.field) ≡ false) keys)

pub All-middle {ℓ} :
    (P : Row → Type ℓ) (xs : List Row) (r : Row) (ws : List Row)
    → All P (xs ++ r ∷ ws)
    → P r × All P ws
All-middle P [] r ws h = h
All-middle P (x ∷ xs) r ws h = All-middle P xs r ws h.1

module _ (less same : Value → Value → Bool) where
  HasNoNull-bounds :
      (ks : List SortKey) (r s : Row)
      → All (λ (k : SortKey). is_none (column r k.field) ≡ false) ks
      → All (λ (k : SortKey). is_none (column s k.field) ≡ false) ks
      → HasNoNull less same (column s) (bounds_of ks r)
  HasNoNull-bounds [] r s h g = tt
  HasNoNull-bounds (k ∷ ks) r s h g = ((g.0, h.0), HasNoNull-bounds ks r s h.1 g.1)

  module _ (keys : List SortKey) where
    is_holds-behind :
        (r s : Row)
        → All (λ (k : SortKey). is_none (column r k.field) ≡ false) keys
        → All (λ (k : SortKey). is_none (column s k.field) ≡ false) keys
        → is_holds (condition_truth less same (column s) (keyset_condition [] (bounds_of keys r)))
          ≡ behind less same keys r s
    is_holds-behind r s h g =
        rw
          (condition_truth-after less same (column s) (bounds_of keys r)
            (HasNoNull-bounds keys r s h g))
          (ground arith)

    selected-All :
        (r : Row) (ws : List Row)
        → All (λ (k : SortKey). is_none (column r k.field) ≡ false) keys
        → NoNulls less same keys ws
        → All (λ s. (behind less same keys r s ≡ true) × (behind less same keys s r ≡ false)) ws
        → selected less same keys r ws ≡ ws
    selected-All r [] h g a = refl
    selected-All r (s ∷ ws) h g a =
        rw (is_holds-behind r s h g.0, a.0.0)
          (ap (λ (t : List Row). s ∷ t) (selected-All r ws h g.1 a.1))

    -- In an ordered table the condition of a row selects just what stands behind it.
    pub selected-middle :
        (xs : List Row) (r : Row) (ws : List Row)
        → NoNulls less same keys (xs ++ r ∷ ws)
        → IsOrdered less same keys (xs ++ r ∷ ws)
        → selected less same keys r (xs ++ r ∷ ws) ≡ ws
    selected-middle [] r ws n o =
        rw (is_holds-behind r r n.0 n.0, o.0) (selected-All r ws n.0 n.1 o.1)
    selected-middle (x ∷ xs) r ws n o =
        let here = All-middle _ xs r ws n.1 in
        let there = All-middle _ xs r ws o.1 in
        rw (is_holds-behind r x here.0 n.0, there.0.1) (selected-middle xs r ws n.1 o.2)
