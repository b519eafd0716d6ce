-- ===== src/Storage/Query/Pages.antt =====
-- How a page is cut from the rows that a statement returns.
use termin_server.Base.{
  ℕ, zero, suc, ◌+◌, ◌≤◌, ◌<◌, List, [], ◌∷◌, ◌++◌, some, none, map, take, length, ◌≡◌, ◌⊎◌, inl,
  inr, refl, ap, arith,
}
use termin_server.Storage.Keyset.{SortKey}
use termin_server.Storage.Query.{Row, column, last, Driver, next_cursor}

module _ {ℓ} {A : Type ℓ} where
  pub take-take-suc : (n : ℕ) (xs : List A) → take n (take (suc n) xs) ≡ take n xs
  take-take-suc zero xs = refl
  take-take-suc (suc n) [] = refl
  take-take-suc (suc n) (x ∷ xs) = ap (λ (t : List A). x ∷ t) (take-take-suc n xs)

  pub take-all : (n : ℕ) (xs : List A) → length xs ≤ n → take n xs ≡ xs
  take-all zero [] h = refl
  take-all zero (x ∷ xs) h = absurd (omega arith)
  take-all (suc n) [] h = refl
  take-all (suc n) (x ∷ xs) h = ap (λ (t : List A). x ∷ t) (take-all n xs (omega arith))

  -- A list fits on a page, or the page ends at an element that others follow.
  unfoldable pub Overflows : ℕ → List A → Type ℓ
  Overflows n xs =
      (zs : List A) × (r : A) × (ws : List A) × (xs ≡ zs ++ r ∷ ws)
      × (take n xs ≡ zs ++ r ∷ [])
      × (length xs ≡ n + length ws)
      × (0 < length ws)

  Overflows-cons : (n : ℕ) (x : A) (xs : List A) → Overflows n xs → Overflows (suc n) (x ∷ xs)
  unfolding Overflows
  Overflows-cons n x xs (zs, r, ws, e, t, l, p) =
      (x ∷ zs, r, ws, ap (λ (t : List A). x ∷ t) e, ap (λ (t : List A). x ∷ t) t, omega arith, p)

  pub page_cases : (n : ℕ) (xs : List A) → 0 < n → (length xs ≤ n) ⊎ Overflows n xs
  unfolding Overflows
  page_cases zero xs h = absurd (omega arith)
  page_cases (suc n) [] h = inl (omega arith)
  page_cases (suc zero) (x ∷ []) h = inl (omega arith)
  page_cases (suc zero) (x ∷ y ∷ xs) h = inr ([], x, y ∷ xs, refl, refl, omega arith, omega arith)
  page_cases (suc (suc n)) (x ∷ xs) h = elim (page_cases (suc n) xs (omega arith)) [
    | inl k ↦ inl (omega arith)
    | inr o ↦ inr (Overflows-cons (suc n) x xs o)
  ]

  pub lt-length-take-suc : (n : ℕ) (xs : List A) → n < length xs → n < length (take (suc n) xs)
  lt-length-take-suc n [] h = absurd (omega arith)
  lt-length-take-suc zero (x ∷ xs) h = omega arith
  lt-length-take-suc (suc n) (x ∷ xs) h = omega (arith, lt-length-take-suc n xs)

last-concat : (s r : Row) (zs : List Row) → last s (zs ++ r ∷ []) ≡ r
unfolding last
last-concat s r [] = refl
last-concat s r (z ∷ zs) = last-concat z r zs

module _ (d : Driver) (limit : ℕ) (keys : List SortKey) (rows : List Row) where
  pub next_cursor-some :
      (r : Row) (zs : List Row)
      → take limit rows ≡ zs ++ r ∷ []
      → limit < length rows
      → next_cursor d limit keys rows
        ≡ some (d.encode_cursor (map (λ (k : SortKey). column r k.field) keys))
  unfolding next_cursor
  next_cursor-some r [] e h = rw (e, next_cursor) (ground arith)
  next_cursor-some r (z ∷ zs) e h = rw (e, next_cursor, last-concat) (ground arith)

  pub next_cursor-none : length rows ≤ limit → next_cursor d limit keys rows ≡ none
  unfolding next_cursor
  next_cursor-none h = ground arith
