-- ===== src/Storage/Creation/Columns.antt =====
-- Which values a new record has. The model is of `create_record` in termin_server/storage.py.
use termin_server.Base.{
  arith, sym, not, List, [], ◌∷◌, ◌&&◌, ◌||◌, Option, Text, text_eq, text_eq_iff, text_eq_refl,
  one_of, is_empty, if◌then◌else◌, Bool-cases, Value, str, is_blank, Dict, lookup, insert,
  lookup-insert, IsDict, insert-IsDict, inl, inr, ◌≡◌, refl, subst, ap, ◌∙◌,
}
use termin_server.Storage.Creation.{is_missing, state_columns, seed, keep_values, create_values}
use termin_server.Storage.Creation.States.{seeded, kept, Turn, Becomes, turned-Becomes}

lookup-seed :
    (machines : List (Text × Text)) (d : Dict Value) (k : Text)
    → lookup k (seed machines d) ≡ seeded machines k (lookup k d)
unfolding seed
lookup-seed [] d k = refl
lookup-seed ((column, initial) ∷ machines) d k =
    lookup-seed machines
      (if not (is_empty column) && is_missing (lookup column d)
        then insert column (str initial) d
        else d)
      k
    ∙ ap (seeded machines k)
        (ground (arith, lookup-insert column k (str initial) d, text_eq_iff column k))

seed-IsDict : (machines : List (Text × Text)) (d : Dict Value) → IsDict d → IsDict (seed machines d)
unfolding seed
seed-IsDict [] d h = h
seed-IsDict ((column, initial) ∷ machines) d h =
    elim (Bool-cases (not (is_empty column) && is_missing (lookup column d))) [
      | inl t ↦
          rw (seed, t)
            (seed-IsDict machines (insert column (str initial) d)
              (insert-IsDict column (str initial) d h))
      | inr f ↦ rw (seed, f) (seed-IsDict machines d h)
    ]

-- The blank values leave no key behind.
lookup-keep_values :
    (columns : List Text) (d : Dict Value) (k : Text)
    → IsDict d
    → lookup k (keep_values columns d) ≡ kept columns k (lookup k d)
unfolding keep_values lookup
lookup-keep_values columns [] k h = refl
lookup-keep_values columns ((j, v) ∷ d) k h = elim (Bool-cases (text_eq j k)) [
  | inl t ↦
      subst
        (λ i. lookup i (keep_values columns ((j, v) ∷ d)) ≡ kept columns i (lookup i ((j, v) ∷ d)))
        ((text_eq_iff j k).0 t)
        (elim (Bool-cases (not (is_blank v) || one_of j columns)) [
          | inl b ↦ rw (b, text_eq_refl j, b) refl
          | inr b ↦
              rw (b, text_eq_refl j, b)
                (lookup-keep_values columns d j h.1 ∙ ap (kept columns j) h.0)
        ])
  | inr n ↦ elim (Bool-cases (not (is_blank v) || one_of j columns)) [
    | inl b ↦ rw (b, n) (lookup-keep_values columns d k h.1)
    | inr b ↦ rw (b, n) (lookup-keep_values columns d k h.1)
  ]
]

-- The columns of a new record. The column of a state machine, if the machine is the only one of the
-- column and has a name, has the value that is given, but the initial state where none or a value that
-- Python holds for false is given. A column of no machine has the value that is given, and is left out
-- where that is the empty text.
pub lookup-create_values :
    (machines : List (Text × Text)) (data_ : Dict Value) (k : Text) (initial : Option Text)
    → Turn k machines initial
    → IsDict data_
    → Becomes initial (lookup k data_) (lookup k (create_values machines data_))
unfolding create_values
lookup-create_values machines data_ k initial turn h =
    subst (Becomes initial (lookup k data_))
      (sym (
        lookup-keep_values (state_columns machines) (seed machines data_) k
          (seed-IsDict machines data_ h)
        ∙ ap (kept (state_columns machines) k) (lookup-seed machines data_ k)))
      (turned-Becomes machines k initial (lookup k data_) turn)
