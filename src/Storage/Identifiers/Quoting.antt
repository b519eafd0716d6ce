-- ===== src/Storage/Identifiers/Quoting.antt =====
-- A quoted identifier reads back as the name that was quoted.
use termin_server.Base.{
  ℕ, Bool, true, false, [], ◌∷◌, ◌++◌, Text, ◌≡◌, refl, arith, Option, none, some, ◌==◌,
  append_assoc, Bool-cases, inl, inr,
}
use termin_server.Storage.Identifiers.{quote, replace, q}

abbrev put : ℕ → Option (Text × Text) → Option (Text × Text)
put c none = none
put c (some (name, rest)) = some (c ∷ name, rest)

-- The reading of a quoted identifier in SQL: a doubled quote is a quote of the name, and a single
-- one ends it. The flag tells that the last character was a quote still to be judged.
read_quoted : Bool → Text → Option (Text × Text)
read_quoted false [] = none
read_quoted true [] = some ([], [])
read_quoted false (c ∷ s) = elim (c == quote) [
  | true ↦ read_quoted true s
  | false ↦ put c (read_quoted false s)
]
read_quoted true (c ∷ s) = elim (c == quote) [
  | true ↦ put quote (read_quoted false s)
  | false ↦ some ([], c ∷ s)
]

unfoldable pub read_identifier : Text → Option (Text × Text)
unfolding read_quoted
read_identifier [] = none
read_identifier (c ∷ s) = elim (c == quote) [ true ↦ read_quoted false s | false ↦ none ]

abbrev pub starts_quoted : Text → Bool
starts_quoted [] = false
starts_quoted (c ∷ s) = c == quote

read_quoted-end :
    (rest : Text) → starts_quoted rest ≡ false → read_quoted true rest ≡ some ([], rest)
unfolding read_quoted
read_quoted-end [] h = refl
read_quoted-end (d ∷ rest) h = ground arith

read_quoted-replace :
    (name rest : Text)
    → starts_quoted rest ≡ false
    → read_quoted false (replace quote (quote ∷ quote ∷ []) name ++ quote ∷ rest)
      ≡ some (name, rest)
unfolding read_quoted replace
read_quoted-replace [] rest h = read_quoted-end rest h
read_quoted-replace (c ∷ name) rest h = elim (Bool-cases (c == quote)) [
  | inl e ↦ ground (arith, read_quoted-replace name rest h)
  | inr n ↦ ground (arith, read_quoted-replace name rest h)
]

-- What `q` writes for any name, quotes in it included, is read as that name and no more of the
-- text, whatever follows it but another quote.
pub read_identifier-q :
    (name rest : Text)
    → starts_quoted rest ≡ false
    → read_identifier (q name ++ rest) ≡ some (name, rest)
unfolding read_identifier q
read_identifier-q name rest h = rw append_assoc (read_quoted-replace name rest h)
