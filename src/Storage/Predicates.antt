-- ===== src/Storage/Predicates.antt =====
-- `_compile_predicate` of termin_server/providers/builtins/storage_sqlite.py: a predicate becomes a
-- WHERE fragment with `?` placeholders and the list of their values.
pub mod Placeholders
pub mod Fields
pub mod Globs
mod Tests
use termin_server.Base.{
  ℕ, List, [], ◌∷◌, ◌++◌, Text, codes, join, map, Value, str, is_none, flat_map, if◌then◌else◌,
}
use termin_server.Storage.Identifiers.{Checked, ok, ◌>>=◌, ◌>>◌, assert_safe, q, replace}

-- The predicates of the storage contract; a tuple of predicates is the second type.
mutual
  pub data Predicate : Type 0 where
    eq ne gt gte lt lte : Text → Value → Predicate
    in_ : Text → List Value → Predicate
    contains : Text → Text → Predicate
    and or : Predicates → Predicate
    not : Predicate → Predicate

  pub data Predicates : Type 0 where
    nil : Predicates
    cons : Predicate → Predicates → Predicates

abbrev pub Fragment : Type 0
Fragment = Text × List Value

-- A fragment about one column, its name checked first.
pub column : Text → Text → List Value → Checked Fragment
column field rest params = do assert_safe field; ok (q field ++ rest, params)

placeholder : Value → Text
placeholder v = codes "?"

-- `IN ()` is no SQL.
membership : Text → List Value → Checked Fragment
unfolding column placeholder
membership field [] = do assert_safe field; ok (codes "1 = 0", [])
membership field (v ∷ vs) =
    column field (codes " IN (" ++ (join (codes ", ") (map placeholder (v ∷ vs)) ++ codes ")"))
      (v ∷ vs)

-- The metacharacters of GLOB, each in brackets of its own.
pub escape_glob : Text → Text
escape_glob s =
    replace b'*' (codes "[*]") (replace b'?' (codes "[?]") (replace b'[' (codes "[[]") s))

pub glob_pattern : Text → Text
unfolding escape_glob
glob_pattern s = codes "*" ++ (escape_glob s ++ codes "*")

pub conjoin : Text → List Fragment → Fragment
conjoin op parts = (
  codes "(" ++ (join op (map (λ (f : Fragment). f.0) parts) ++ codes ")"),
  flat_map (λ (f : Fragment). f.1) parts,
)

unfoldable mutual
  unfolding column membership conjoin glob_pattern

  pub compile_predicate : Predicate → Checked Fragment
  compile_predicate (eq field v) =
      if is_none v then column field (codes " IS NULL") [] else column field (codes " = ?") (v ∷ [])
  compile_predicate (ne field v) =
      if is_none v
      then column field (codes " IS NOT NULL") []
      else column field (codes " != ?") (v ∷ [])
  compile_predicate (gt field v) = column field (codes " > ?") (v ∷ [])
  compile_predicate (gte field v) = column field (codes " >= ?") (v ∷ [])
  compile_predicate (lt field v) = column field (codes " < ?") (v ∷ [])
  compile_predicate (lte field v) = column field (codes " <= ?") (v ∷ [])
  compile_predicate (in_ field vs) = membership field vs
  compile_predicate (contains field s) = column field (codes " GLOB ?") (str (glob_pattern s) ∷ [])
  compile_predicate (and ps) = do parts ← compile_each ps; ok (conjoin (codes " AND ") parts)
  compile_predicate (or ps) = do parts ← compile_each ps; ok (conjoin (codes " OR ") parts)
  compile_predicate (not p) = do
    part ← compile_predicate p
    ok (codes "NOT (" ++ (part.0 ++ codes ")"), part.1)

  pub compile_each : Predicates → Checked (List Fragment)
  compile_each nil = ok []
  compile_each (cons p ps) = do
    part ← compile_predicate p
    parts ← compile_each ps
    ok (part ∷ parts)
