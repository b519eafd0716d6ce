-- ===== src/Storage/Identifiers/Accepted.antt =====
-- Which names `validate_identifier` accepts.
use termin_server.Base.{
  true, [], ◌∷◌, ◌++◌, Text, ◌≡◌, refl, ap, ◌↔◌, ◌⊎◌, inl, inr, arith, All, ◌==◌, Bool-cases,
}
use termin_server.Storage.Identifiers.{
  is_lower, is_ident_char, newline, ident_tail, validate_identifier,
}

-- Lowercase snake_case: a lowercase letter, then lowercase letters, digits and underscores.
abbrev pub IsSnakeCase : Text → Type 0
IsSnakeCase [] = ⊥
IsSnakeCase (c ∷ s) = (is_lower c ≡ true) × All (λ d. is_ident_char d ≡ true) s

abbrev IsTail : Text → Type 0
IsTail = All (λ d. is_ident_char d ≡ true)

ident_tail_sound :
    (s : Text) → ident_tail s ≡ true → (m : Text) × IsTail m × ((s ≡ m) ⊎ (s ≡ m ++ newline ∷ []))
unfolding ident_tail
ident_tail_sound [] h = ([], tt, inl refl)
ident_tail_sound (c ∷ []) h = elim (Bool-cases (c == newline)) [
  | inl e ↦ ([], tt, inr (ground arith))
  | inr n ↦ (c ∷ [], (ground arith, tt), inl refl)
]
ident_tail_sound (c ∷ d ∷ s) h =
    let (m, tail, shape) = ident_tail_sound (d ∷ s) (ground arith) in
    (
      c ∷ m,
      (ground arith, tail),
      elim shape [
        | inl e ↦ inl (ap (λ (t : Text). c ∷ t) e)
        | inr e ↦ inr (ap (λ (t : Text). c ∷ t) e)
      ],
    )

ident_tail_plain : (m : Text) → IsTail m → ident_tail m ≡ true
unfolding ident_tail
ident_tail_plain [] h = refl
ident_tail_plain (c ∷ m) h = ground (arith, ident_tail_plain m h.1)

ident_tail-newline : (m : Text) → IsTail m → ident_tail (m ++ newline ∷ []) ≡ true
unfolding ident_tail
ident_tail-newline [] h = refl
ident_tail-newline (c ∷ m) h = ground (arith, ident_tail-newline m h.1)

validate_sound :
    (n : Text)
    → validate_identifier n ≡ true
    → (m : Text) × IsSnakeCase m × ((n ≡ m) ⊎ (n ≡ m ++ newline ∷ []))
unfolding validate_identifier
validate_sound [] h = cc
validate_sound (c ∷ s) h =
    let (m, tail, shape) = ident_tail_sound s (ground arith) in
    (
      c ∷ m,
      (ground arith, tail),
      elim shape [
        | inl e ↦ inl (ap (λ (t : Text). c ∷ t) e)
        | inr e ↦ inr (ap (λ (t : Text). c ∷ t) e)
      ],
    )

pub validate-snake : (m : Text) → IsSnakeCase m → validate_identifier m ≡ true
unfolding validate_identifier
validate-snake [] h = elim h [ ]
validate-snake (c ∷ m) h = ground (arith, ident_tail_plain m h.1)

pub validate-snake_newline :
    (m : Text) → IsSnakeCase m → validate_identifier (m ++ newline ∷ []) ≡ true
unfolding validate_identifier
validate-snake_newline [] h = elim h [ ]
validate-snake_newline (c ∷ m) h = ground (arith, ident_tail-newline m h.1)

validate_complete :
    (n m : Text) → IsSnakeCase m → (n ≡ m) ⊎ (n ≡ m ++ newline ∷ []) → validate_identifier n ≡ true
validate_complete n m snake (inl e) = rw e (validate-snake m snake)
validate_complete n m snake (inr e) = rw e (validate-snake_newline m snake)

-- `validate_identifier` accepts a name exactly when it is lowercase snake_case, or such a name with
-- one newline behind it.
pub validate_identifier_iff :
    (n : Text)
    → (validate_identifier n ≡ true)
      ↔ ((m : Text) × IsSnakeCase m × ((n ≡ m) ⊎ (n ≡ m ++ newline ∷ [])))
validate_identifier_iff n =
    (validate_sound n, λ (m, snake, shape). validate_complete n m snake shape)
