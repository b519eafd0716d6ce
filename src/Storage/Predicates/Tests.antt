-- ===== src/Storage/Predicates/Tests.antt =====
-- Runs of the predicate compiler, and its theorems at concrete predicates.
use termin_server.Base.{
  ℕ, Bool, true, false, [], ◌∷◌, ◌++◌, Text, codes, null, int, pos, ◌≡◌, ◌↔◌, refl, count, is_empty,
  ◌==◌, ◌||◌, arith, ap, Bool-cases, inl, inr,
}
use termin_server.Storage.Identifiers.{ok, replace, q, assert_safe, validate_identifier}
use termin_server.Storage.Predicates.{
  Predicate, eq, in_, and, not, nil, cons, conjoin, compile_predicate, glob_pattern, escape_glob,
}
use termin_server.Storage.Predicates.Placeholders.{mark, placeholders-eq-values}
use termin_server.Storage.Predicates.Globs.{Glob, eat, glob_pattern_iff}

abbrev sample : Predicate
sample =
    and (
      cons (eq (codes "a") null)
        (cons (not (in_ (codes "b") (int (pos 1) ∷ int (pos 2) ∷ []))) nil))

compile_sample :
    compile_predicate sample
    ≡ ok (codes "(\"a\" IS NULL AND NOT (\"b\" IN (?, ?)))", int (pos 1) ∷ int (pos 2) ∷ [])
unfolding compile_predicate conjoin assert_safe validate_identifier q
compile_sample = refl

placeholders-eq-values_example : count mark (codes "(\"a\" IS NULL AND NOT (\"b\" IN (?, ?)))") ≡ 2
placeholders-eq-values_example =
    placeholders-eq-values sample (codes "(\"a\" IS NULL AND NOT (\"b\" IN (?, ?)))")
      (int (pos 1) ∷ int (pos 2) ∷ []) compile_sample

-- A GLOB matcher for patterns of stars, single characters and characters in brackets.
data Mode : Type 0 where
  plain open_bracket : Mode
  close_bracket : ℕ → Mode

abbrev some_suffix : (Text → Bool) → Text → Bool
some_suffix f [] = f []
some_suffix f (c ∷ s) = f (c ∷ s) || some_suffix f s

run_glob : Mode → Text → Text → Bool
run_glob plain [] s = is_empty s
run_glob open_bracket [] s = false
run_glob (close_bracket c) [] s = false
run_glob plain (c ∷ p) s = elim (c == b'*') [
  | true ↦ some_suffix (run_glob plain p) s
  | false ↦ elim (c == b'[') [
    | true ↦ run_glob open_bracket p s
    | false ↦ eat c (run_glob plain p) s
  ]
]
run_glob open_bracket (c ∷ p) s = run_glob (close_bracket c) p s
run_glob (close_bracket k) (c ∷ p) s = elim (c == b']') [
  | true ↦ eat k (run_glob plain p) s
  | false ↦ false
]

suffix_sound :
    (f : Text → Bool) (s : Text)
    → some_suffix f s ≡ true
    → (u v : Text) × (s ≡ u ++ v) × (f v ≡ true)
suffix_sound f [] h = ([], [], refl, h)
suffix_sound f (c ∷ s) h = elim (Bool-cases (f (c ∷ s))) [
  | inl e ↦ ([], c ∷ s, refl, e)
  | inr n ↦
      let (u, v, e, k) = suffix_sound f s (ground arith) in
      (c ∷ u, v, ap (λ (t : Text). c ∷ t) e, k)
]

suffix_here : (f : Text → Bool) (s : Text) → f s ≡ true → some_suffix f s ≡ true
suffix_here f [] h = h
suffix_here f (c ∷ s) h = rw h refl

suffix_complete : (f : Text → Bool) (u v : Text) → f v ≡ true → some_suffix f (u ++ v) ≡ true
suffix_complete f [] v h = suffix_here f v h
suffix_complete f (c ∷ u) v h = ground (arith, suffix_complete f u v)

glob_star :
    (p s : Text)
    → (run_glob plain (b'*' ∷ p) s ≡ true)
      ↔ ((u v : Text) × (s ≡ u ++ v) × (run_glob plain p v ≡ true))
unfolding run_glob
glob_star p s = (
  suffix_sound (run_glob plain p) s,
  λ (u, v, e, h). rw e (suffix_complete (run_glob plain p) u v h),
)

glob_plain :
    (c : ℕ) (p s : Text)
    → (c == b'*' || (c == b'?' || c == b'[')) ≡ false
    → run_glob plain (c ∷ p) s ≡ eat c (run_glob plain p) s
unfolding run_glob
glob_plain c p s h = ground arith

glob_bracket :
    (c : ℕ) (p s : Text) → run_glob plain (b'[' ∷ c ∷ b']' ∷ p) s ≡ eat c (run_glob plain p) s
unfolding run_glob
glob_bracket c p s = refl

abbrev small_glob : Glob
small_glob = record {
  matches = run_glob plain;
  matches_end = λ s. unfold run_glob in refl;
  matches_star = glob_star;
  matches_plain = glob_plain;
  matches_bracket = λ c p s _. glob_bracket c p s;
}

glob_pattern_test : glob_pattern (codes "a*[") ≡ codes "*a[*][[]*"
unfolding glob_pattern escape_glob replace
glob_pattern_test = refl

glob_pattern_iff_example :
    (run_glob plain (glob_pattern (codes "a*")) (codes "ba*c") ≡ true)
    ↔ ((u v : Text) × (codes "ba*c" ≡ u ++ (codes "a*" ++ v)))
glob_pattern_iff_example = glob_pattern_iff small_glob (codes "a*") (codes "ba*c")
