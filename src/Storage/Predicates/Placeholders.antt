-- ===== src/Storage/Predicates/Placeholders.antt =====
-- Every compiled fragment has as many placeholders as it has values to bind.
use termin_server.Base.{
  ℕ, List, [], ◌∷◌, ◌++◌, Text, codes, ◌≡◌, refl, arith, Bool-cases, inl, inr, length,
  length-append, count, count_all, count-append, count-join, flat_map, map, Value, is_none, join,
}
use termin_server.Storage.Identifiers.{
  Checked, ok, raise, ◌>>=◌, assert_safe, validate_identifier, q,
}
use termin_server.Storage.Identifiers.Characters.{count-q}
use termin_server.Storage.Predicates.{
  Predicate, eq, ne, gt, gte, lt, lte, in_, contains, and, or, not, Predicates, nil, cons, Fragment,
  column, placeholder, membership, conjoin, compile_predicate, compile_each,
}

abbrev pub mark : ℕ
mark = b'?'

abbrev pub Binds : Fragment → Type 0
Binds f = count mark f.0 ≡ length f.1

abbrev pub Balanced : Checked Fragment → Type 0
Balanced (ok f) = Binds f
Balanced (raise e) = Unit

abbrev pub AllBind : List Fragment → Type 0
AllBind [] = Unit
AllBind (f ∷ fs) = Binds f × AllBind fs

abbrev AllBalanced : Checked (List Fragment) → Type 0
AllBalanced (ok fs) = AllBind fs
AllBalanced (raise e) = Unit

column-Balanced :
    (field rest : Text) (params : List Value)
    → count mark rest ≡ length params
    → Balanced (column field rest params)
unfolding column assert_safe
column-Balanced field rest params h = elim (Bool-cases (validate_identifier field)) [
  | inl e ↦
      rw e (omega (arith, count-append mark (q field) rest, count-q mark field (refl, refl) refl e))
  | inr n ↦ rw n tt
]

count_all-placeholder : (vs : List Value) → count_all mark (map placeholder vs) ≡ length vs
unfolding count_all placeholder count
count_all-placeholder [] = refl
count_all-placeholder (v ∷ vs) = omega (arith, count_all-placeholder vs)

count-membership :
    (vs : List Value)
    → count mark (codes " IN (" ++ (join (codes ", ") (map placeholder vs) ++ codes ")"))
      ≡ length vs
unfolding count
count-membership vs = omega (
  arith,
  count_all-placeholder vs,
  count-join mark (codes ", ") (map placeholder vs) refl,
  count-append mark (join (codes ", ") (map placeholder vs)) (codes ")"),
)

membership-Balanced : (field : Text) (vs : List Value) → Balanced (membership field vs)
unfolding membership
membership-Balanced field [] = elim (Bool-cases (validate_identifier field)) [
  | inl e ↦ unfold assert_safe count in rw e refl
  | inr n ↦ unfold assert_safe in rw n tt
]
membership-Balanced field (v ∷ vs) = column-Balanced field _ (v ∷ vs) (count-membership (v ∷ vs))

pub count_all-parts :
    (parts : List Fragment)
    → AllBind parts
    → count_all mark (map (λ (f : Fragment). f.0) parts)
      ≡ length (flat_map (λ (f : Fragment). f.1) parts)
unfolding count_all
count_all-parts [] h = refl
count_all-parts (f ∷ parts) h =
    omega
      (arith, count_all-parts parts h.1, length-append f.1 (flat_map (λ (f : Fragment). f.1) parts))

conjoin-Binds :
    (op : Text) (parts : List Fragment)
    → count mark op ≡ 0
    → AllBind parts
    → Binds (conjoin op parts)
unfolding conjoin count
conjoin-Binds op parts h b = omega (
  arith,
  count_all-parts parts b,
  count-join mark op (map (λ (f : Fragment). f.0) parts) h,
  count-append mark (join op (map (λ (f : Fragment). f.0) parts)) (codes ")"),
)

conjoin-Balanced :
    (op : Text) (r : Checked (List Fragment))
    → count mark op ≡ 0
    → AllBalanced r
    → Balanced (r >>= λ parts. ok (conjoin op parts))
conjoin-Balanced op (ok parts) h b = conjoin-Binds op parts h b
conjoin-Balanced op (raise e) h b = tt

not-Balanced :
    (r : Checked Fragment)
    → Balanced r
    → Balanced (r >>= λ part. ok (codes "NOT (" ++ (part.0 ++ codes ")"), part.1))
unfolding count
not-Balanced (ok part) b = omega (arith, count-append mark part.0 (codes ")"))
not-Balanced (raise e) b = tt

cons-Balanced :
    (r : Checked Fragment) (rs : Checked (List Fragment))
    → Balanced r
    → AllBalanced rs
    → AllBalanced (r >>= λ part. rs >>= λ parts. ok (part ∷ parts))
cons-Balanced (ok part) (ok parts) b bs = (b, bs)
cons-Balanced (ok part) (raise e) b bs = tt
cons-Balanced (raise e) rs b bs = tt

mutual
  unfolding compile_predicate count

  compile_predicate-Balanced : (p : Predicate) → Balanced (compile_predicate p)
  compile_predicate-Balanced (eq field v) = elim (Bool-cases (is_none v)) [
    | inl e ↦ rw e (column-Balanced field (codes " IS NULL") [] refl)
    | inr n ↦ rw n (column-Balanced field (codes " = ?") (v ∷ []) refl)
  ]
  compile_predicate-Balanced (ne field v) = elim (Bool-cases (is_none v)) [
    | inl e ↦ rw e (column-Balanced field (codes " IS NOT NULL") [] refl)
    | inr n ↦ rw n (column-Balanced field (codes " != ?") (v ∷ []) refl)
  ]
  compile_predicate-Balanced (gt field v) = column-Balanced field (codes " > ?") (v ∷ []) refl
  compile_predicate-Balanced (gte field v) = column-Balanced field (codes " >= ?") (v ∷ []) refl
  compile_predicate-Balanced (lt field v) = column-Balanced field (codes " < ?") (v ∷ []) refl
  compile_predicate-Balanced (lte field v) = column-Balanced field (codes " <= ?") (v ∷ []) refl
  compile_predicate-Balanced (in_ field vs) = membership-Balanced field vs
  compile_predicate-Balanced (contains field s) =
      column-Balanced field (codes " GLOB ?") (_ ∷ []) refl
  compile_predicate-Balanced (and ps) =
      conjoin-Balanced (codes " AND ") (compile_each ps) refl (compile_each-AllBalanced ps)
  compile_predicate-Balanced (or ps) =
      conjoin-Balanced (codes " OR ") (compile_each ps) refl (compile_each-AllBalanced ps)
  compile_predicate-Balanced (not p) =
      not-Balanced (compile_predicate p) (compile_predicate-Balanced p)

  compile_each-AllBalanced : (ps : Predicates) → AllBalanced (compile_each ps)
  compile_each-AllBalanced nil = tt
  compile_each-AllBalanced (cons p ps) =
      cons-Balanced (compile_predicate p) (compile_each ps) (compile_predicate-Balanced p)
        (compile_each-AllBalanced ps)

-- A predicate that compiles has in its text as many `?` as it has values to bind, whatever its
-- field names and values hold.
pub placeholders-eq-values :
    (p : Predicate) (sql : Text) (params : List Value)
    → compile_predicate p ≡ ok (sql, params)
    → count mark sql ≡ length params
placeholders-eq-values p sql params h = rw h at (compile_predicate-Balanced p)
