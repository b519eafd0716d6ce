-- ===== src/Storage/Listing/Bound.antt =====
-- What a listing puts into its statement: fields of the schema, and a placeholder for each value. The
-- model is of `list_records` in termin_server/storage.py.
use termin_server.Base.{
  if◌then◌else◌, ℕ, ℤ, pos, negsuc, true, List, [], ◌∷◌, ◌++◌, Option, none, some, Text, codes,
  one_of, text_eq, is_empty, join, map, flat_map, length, length-append, Value, int, Dict, All,
  arith, Bool-cases, inl, inr, count, count-append, count-join, ◌≡◌, ◌⊎◌, refl,
}
use termin_server.Storage.Identifiers.{
  StorageError, missing_schema, unknown_field, unsafe_name, Checked, ok, raise, ◌>>=◌, assert_safe,
  validate_identifier, q,
}
use termin_server.Storage.Identifiers.Characters.{count-q}
use termin_server.Storage.Predicates.{Fragment}
use termin_server.Storage.Predicates.Placeholders.{mark, Binds, AllBind, count_all-parts}
use termin_server.Storage.Listing.{
  Listing, columns_of, check_field, where_clauses, where_part, direction_of, order_part,
  offset_part, page_part, list_statement,
}

-- A name that a schema knows
abbrev pub Known : Option (List Text) → Text → Type 0
Known schema field = one_of field (columns_of schema) ≡ true

-- A check that passes gives the name, which the schema knows and which is safe.
check_field-cases :
    (schema : Option (List Text)) (field : Text)
    → ((e : StorageError) × (check_field schema field ≡ raise e))
      ⊎ ((check_field schema field ≡ ok field)
          × Known schema field
          × (validate_identifier field ≡ true))
unfolding check_field assert_safe
check_field-cases none field = inl (missing_schema, refl)
check_field-cases (some fields) field =
    elim (Bool-cases (one_of field (columns_of (some fields)))) [
      | inr f ↦ inl (unknown_field, rw f refl)
      | inl t ↦ elim (Bool-cases (validate_identifier field)) [
        | inl v ↦ inr (rw (t, v) refl, t, v)
        | inr n ↦ inl (unsafe_name field, rw (t, n) refl)
      ]
    ]

abbrev Clauses : Option (List Text) → Dict Value → Checked (List Fragment) → Type 0
Clauses schema filters (ok cs) = AllBind cs × All (λ f. Known schema f.0) filters
Clauses schema filters (raise e) = Unit

clause-Clauses :
    (schema : Option (List Text)) (field : Text) (v : Value) (filters : Dict Value)
    (rest : Checked (List Fragment))
    → Known schema field
    → validate_identifier field ≡ true
    → Clauses schema filters rest
    → Clauses schema
        ((field, v) ∷ filters)
        (rest >>= λ r. ok ((q field ++ codes " = ?", v ∷ []) ∷ r))
unfolding count
clause-Clauses schema field v filters (ok r) k i h = (
  (
    omega
        (arith, count-append mark (q field) (codes " = ?"), count-q mark field (refl, refl) refl i),
    h.0,
  ),
  (k, h.1),
)
clause-Clauses schema field v filters (raise e) k i h = tt

where_clauses-Clauses :
    (schema : Option (List Text)) (filters : Dict Value)
    → Clauses schema filters (where_clauses schema filters)
unfolding where_clauses
where_clauses-Clauses schema [] = (tt, tt)
where_clauses-Clauses schema ((field, v) ∷ filters) = elim (check_field-cases schema field) [
  | inl (e, r) ↦ rw r tt
  | inr (o, k, i) ↦ rw o (
      clause-Clauses schema field v filters (where_clauses schema filters) k i
        (where_clauses-Clauses schema filters))
]

abbrev Filtered : Option (List Text) → Dict Value → Checked Fragment → Type 0
Filtered schema filters (ok f) = Binds f × All (λ g. Known schema g.0) filters
Filtered schema filters (raise e) = Unit

join-Filtered :
    (schema : Option (List Text)) (filters : Dict Value) (r : Checked (List Fragment))
    → Clauses schema filters r
    → Filtered schema filters (
        r >>= λ clauses. ok (
          codes " WHERE " ++ join (codes " AND ") (map (λ (c : Fragment). c.0) clauses),
          flat_map (λ (c : Fragment). c.1) clauses,
        ))
unfolding count
join-Filtered schema filters (ok cs) h = (
  (omega (
    arith,
    count_all-parts cs h.0,
    count-join mark (codes " AND ") (map (λ (c : Fragment). c.0) cs) refl,
  )),
  h.1,
)
join-Filtered schema filters (raise e) h = tt

where_part-Filtered :
    (schema : Option (List Text)) (filters : Dict Value)
    → Filtered schema filters (where_part schema filters)
unfolding where_part count
where_part-Filtered schema [] = (refl, tt)
where_part-Filtered schema (f ∷ filters) =
    join-Filtered schema (f ∷ filters) (where_clauses schema (f ∷ filters))
      (where_clauses-Clauses schema (f ∷ filters))

abbrev Ordered : Option (List Text) → Text → Checked Text → Type 0
Ordered schema field (ok o) = (count mark o ≡ 0) × ((field ≡ []) ⊎ Known schema field)
Ordered schema field (raise e) = Unit

abbrev Unmarked : Checked Text → Type 0
Unmarked (ok t) = count mark t ≡ 0
Unmarked (raise e) = Unit

direction_of-Unmarked : (lower : Text → Text) (dir : Text) → Unmarked (direction_of lower dir)
unfolding direction_of count
direction_of-Unmarked lower dir =
    let d = lower (if is_empty dir then codes "asc" else dir) in
    elim (Bool-cases (text_eq d (codes "asc"))) [
      | inl t ↦ rw t refl
      | inr f ↦
          rw f
            (elim (Bool-cases (text_eq d (codes "desc"))) [ inl t ↦ rw t refl | inr g ↦ rw g tt ])
    ]

directed-Ordered :
    (schema : Option (List Text)) (field : Text) (r : Checked Text)
    → Unmarked r
    → Known schema field
    → validate_identifier field ≡ true
    → Ordered schema field (r >>= λ d. ok (codes " ORDER BY " ++ (q field ++ b' ' ∷ d)))
unfolding count
directed-Ordered schema field (ok d) u k i = (
  omega (arith, count-append mark (q field) (b' ' ∷ d), count-q mark field (refl, refl) refl i),
  inr k,
)
directed-Ordered schema field (raise e) u k i = tt

order_part-Ordered :
    (lower : Text → Text) (schema : Option (List Text)) (field dir : Text)
    → Ordered schema field (order_part lower schema field dir)
unfolding order_part
order_part-Ordered lower schema [] dir = unfold count in (refl, inl refl)
order_part-Ordered lower schema (c ∷ field) dir = elim (check_field-cases schema (c ∷ field)) [
  | inl (e, r) ↦ rw r tt
  | inr (o, k, i) ↦ rw o (
      directed-Ordered schema (c ∷ field) (direction_of lower dir) (direction_of-Unmarked lower dir)
        k i)
]

abbrev Paged : Checked Fragment → Type 0
Paged (ok f) = Binds f
Paged (raise e) = Unit

offset_part-Paged :
    (before : Text) (offset : Option ℤ) → count mark before ≡ 0 → Paged (offset_part before offset)
unfolding offset_part count
offset_part-Paged before none h = refl
offset_part-Paged before (some (negsuc n)) h = tt
offset_part-Paged before (some (pos n)) h =
    omega (arith, count-append mark before (codes " OFFSET ?"))

limited-Paged :
    (n : ℕ) (r : Checked Fragment)
    → Paged r
    → Paged (r >>= λ o. ok (codes " LIMIT ?" ++ o.0, int (pos n) ∷ o.1))
unfolding count
limited-Paged n (ok o) h = omega arith
limited-Paged n (raise e) h = tt

page_part-Paged : (limit offset : Option ℤ) → Paged (page_part limit offset)
unfolding page_part count
page_part-Paged none offset = offset_part-Paged (codes " LIMIT -1") offset refl
page_part-Paged (some (negsuc n)) offset = tt
page_part-Paged (some (pos n)) offset =
    limited-Paged n (offset_part [] offset) (offset_part-Paged [] offset refl)

-- What a statement binds, and the names in it
abbrev pub Bound : Listing → Checked Fragment → Type 0
Bound l (ok s) =
    Binds s
    × All (λ f. Known l.schema f.0) l.filters
    × ((l.sort_by ≡ []) ⊎ Known l.schema l.sort_by)
Bound l (raise e) = Unit

parts-Bound :
    (content_name : Text) (l : Listing) (filter : Checked Fragment) (order : Checked Text)
    (page : Checked Fragment)
    → validate_identifier content_name ≡ true
    → Filtered l.schema l.filters filter
    → Ordered l.schema l.sort_by order
    → Paged page
    → Bound l (
        filter >>= λ f. order >>= λ o. page >>= λ p.
        ok (codes "SELECT * FROM " ++ (q content_name ++ (f.0 ++ (o ++ p.0))), f.1 ++ p.1))
unfolding count
parts-Bound content_name l (raise e) order page v f o p = tt
parts-Bound content_name l (ok w) (raise e) page v f o p = tt
parts-Bound content_name l (ok w) (ok d) (raise e) v f o p = tt
parts-Bound content_name l (ok w) (ok d) (ok g) v f o p = (
  (omega (
    arith,
    count-append mark (q content_name) (w.0 ++ (d ++ g.0)),
    count-append mark w.0 (d ++ g.0),
    count-append mark d g.0,
    length-append w.1 g.1,
    count-q mark content_name (refl, refl) refl v,
    f.0,
    o.0,
    p,
  )),
  f.1,
  o.1,
)

-- A statement of a listing of a content with a safe name has as many placeholders as it has values to
-- bind, each of its filters is on a field that the schema knows, and so is its order, if it has one.
pub list_statement-Bound :
    (lower : Text → Text) (content_name : Text) (l : Listing) (s : Fragment)
    → validate_identifier content_name ≡ true
    → list_statement lower content_name l ≡ ok s
    → (count mark s.0 ≡ length s.1)
      × All (λ f. Known l.schema f.0) l.filters
      × ((l.sort_by ≡ []) ⊎ Known l.schema l.sort_by)
unfolding list_statement
list_statement-Bound lower content_name l s v h = rw h at (
    parts-Bound content_name l (where_part l.schema l.filters)
      (order_part lower l.schema l.sort_by l.sort_dir) (page_part l.limit l.offset) v
      (where_part-Filtered l.schema l.filters)
      (order_part-Ordered lower l.schema l.sort_by l.sort_dir) (page_part-Paged l.limit l.offset))
