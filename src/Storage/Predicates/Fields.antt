-- ===== src/Storage/Predicates/Fields.antt =====
-- Which predicates compile.
use termin_server.Base.{
  ◌∙◌, List, [], ◌∷◌, ◌++◌, Text, ◌≡◌, refl, arith, Value, is_none, Bool-cases, inl, inr,
}
use termin_server.Storage.Identifiers.{Checked, ok, raise, ◌>>=◌, assert_safe, validate_identifier}
use termin_server.Storage.Predicates.{
  Predicate, eq, ne, gt, gte, lt, lte, in_, contains, and, or, not, Predicates, nil, cons, column,
  membership, compile_predicate, compile_each,
}

-- The column names of a predicate, in the order of its text.
mutual
  pub fields : Predicate → List Text
  fields (eq field v) = field ∷ []
  fields (ne field v) = field ∷ []
  fields (gt field v) = field ∷ []
  fields (gte field v) = field ∷ []
  fields (lt field v) = field ∷ []
  fields (lte field v) = field ∷ []
  fields (in_ field vs) = field ∷ []
  fields (contains field s) = field ∷ []
  fields (and ps) = fields_each ps
  fields (or ps) = fields_each ps
  fields (not p) = fields p

  pub fields_each : Predicates → List Text
  fields_each nil = []
  fields_each (cons p ps) = fields p ++ fields_each ps

-- The first name that is refused, if any: its error, or else the given result.
abbrev pub check_all : List Text → Checked (Unit {0})
check_all [] = ok tt
check_all (n ∷ ns) = assert_safe n >>= λ _. check_all ns

-- Whether a result is an error, and for which name.
abbrev pub verdict {ℓ} : {A : Type ℓ} → Checked A → Checked (Unit {0})
verdict (ok a) = ok tt
verdict (raise e) = raise e

verdict-bind {ℓ κ} :
    {A : Type ℓ} {B : Type κ} (r : Checked A) (f : A → B)
    → verdict (r >>= λ a. ok (f a)) ≡ verdict r
verdict-bind (ok a) f = refl
verdict-bind (raise e) f = refl

check_all-append : (ms ns : List Text) → check_all (ms ++ ns) ≡ (check_all ms >>= λ _. check_all ns)
unfolding assert_safe
check_all-append [] ns = refl
check_all-append (m ∷ ms) ns = elim (Bool-cases (validate_identifier m)) [
  | inl e ↦ rw e (check_all-append ms ns)
  | inr e ↦ rw e refl
]

verdict-pair {ℓ κ} :
    {A : Type ℓ} {B : Type κ} (r : Checked A) (s : Checked B) (ms ns : List Text) (f : A → B → B)
    → verdict r ≡ check_all ms
    → verdict s ≡ check_all ns
    → verdict (r >>= λ a. s >>= λ b. ok (f a b)) ≡ check_all (ms ++ ns)
verdict-pair (ok a) s ms ns f h k = rw (check_all-append, ← h) (verdict-bind s (f a) ∙ k)
verdict-pair (raise e) s ms ns f h k = rw (check_all-append, ← h) refl

verdict-column :
    (field rest : Text) (params : List Value)
    → verdict (column field rest params) ≡ check_all (field ∷ [])
unfolding column assert_safe
verdict-column field rest params = ground arith

verdict-membership :
    (field : Text) (vs : List Value) → verdict (membership field vs) ≡ check_all (field ∷ [])
unfolding membership column assert_safe
verdict-membership field [] = ground arith
verdict-membership field (v ∷ vs) = ground arith

mutual
  unfolding compile_predicate fields

  verdict-compile : (p : Predicate) → verdict (compile_predicate p) ≡ check_all (fields p)
  verdict-compile (eq field v) = elim (Bool-cases (is_none v)) [
    | inl e ↦ rw e (verdict-column field _ _)
    | inr n ↦ rw n (verdict-column field _ _)
  ]
  verdict-compile (ne field v) = elim (Bool-cases (is_none v)) [
    | inl e ↦ rw e (verdict-column field _ _)
    | inr n ↦ rw n (verdict-column field _ _)
  ]
  verdict-compile (gt field v) = verdict-column field _ _
  verdict-compile (gte field v) = verdict-column field _ _
  verdict-compile (lt field v) = verdict-column field _ _
  verdict-compile (lte field v) = verdict-column field _ _
  verdict-compile (in_ field vs) = verdict-membership field vs
  verdict-compile (contains field s) = verdict-column field _ _
  verdict-compile (and ps) = verdict-bind (compile_each ps) _ ∙ verdict-compile_each ps
  verdict-compile (or ps) = verdict-bind (compile_each ps) _ ∙ verdict-compile_each ps
  verdict-compile (not p) = verdict-bind (compile_predicate p) _ ∙ verdict-compile p

  verdict-compile_each : (ps : Predicates) → verdict (compile_each ps) ≡ check_all (fields_each ps)
  verdict-compile_each nil = refl
  verdict-compile_each (cons p ps) =
      verdict-pair (compile_predicate p) (compile_each ps) (fields p) (fields_each ps) ◌∷◌
        (verdict-compile p) (verdict-compile_each ps)

-- Compiling a predicate fails exactly if one of its column names is refused, and with the first of
-- them; the values and the shape of the predicate never make it fail.
pub verdict-compile_predicate :
    (p : Predicate) → verdict (compile_predicate p) ≡ check_all (fields p)
verdict-compile_predicate p = verdict-compile p
