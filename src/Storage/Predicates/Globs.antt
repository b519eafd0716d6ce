-- ===== src/Storage/Predicates/Globs.antt =====
-- The GLOB pattern that `_compile_predicate` writes for `Contains`. SQLite's GLOB is a parameter: an
-- operator with the laws of its documentation, as far as such a pattern uses them.
use termin_server.Base.{
  ℕ, Bool, true, false, [], ◌∷◌, ◌++◌, Text, codes, ◌≡◌, ◌↔◌, refl, ap, arith, ◌==◌, ◌&&◌, ◌||◌,
  Bool-cases, inl, inr, append_assoc, is_empty, ◌∙◌, sym, append-nil,
}
use termin_server.Storage.Identifiers.{replace}
use termin_server.Storage.Predicates.{escape_glob, glob_pattern}

abbrev is_special : ℕ → Bool
is_special c = c == b'*' || (c == b'?' || c == b'[')

-- A character of the pattern that stands for itself, against a text.
abbrev pub eat : ℕ → (Text → Bool) → Text → Bool
eat c rest [] = false
eat c rest (d ∷ s) = c == d && rest s

pub record Glob : Type 0 where
  pub matches : Text → Text → Bool
  -- The empty pattern matches the empty text.
  pub matches_end : (s : Text) → matches [] s ≡ is_empty s
  -- `*` matches any run of characters.
  pub matches_star :
      (p s : Text)
      → (matches (b'*' ∷ p) s ≡ true) ↔ ((u v : Text) × (s ≡ u ++ v) × (matches p v ≡ true))
  -- A character that is not special matches itself.
  pub matches_plain :
      (c : ℕ) (p s : Text) → is_special c ≡ false → matches (c ∷ p) s ≡ eat c (matches p) s
  -- A special character in brackets matches itself.
  pub matches_bracket :
      (c : ℕ) (p s : Text)
      → is_special c ≡ true
      → matches (b'[' ∷ c ∷ b']' ∷ p) s ≡ eat c (matches p) s

replace-append :
    (c : ℕ) (new s t : Text) → replace c new (s ++ t) ≡ replace c new s ++ replace c new t
unfolding replace
replace-append c new [] t = refl
replace-append c new (d ∷ s) t = simp (replace-append c new s t, append_assoc)

escape_glob-append : (s t : Text) → escape_glob (s ++ t) ≡ escape_glob s ++ escape_glob t
unfolding escape_glob
escape_glob-append s t = simp replace-append

escape_glob-special : (c : ℕ) → is_special c ≡ true → escape_glob (c ∷ []) ≡ b'[' ∷ c ∷ b']' ∷ []
unfolding escape_glob replace
escape_glob-special c h = elim (Bool-cases (c == b'*')) [
  | inl e ↦ let same : c ≡ b'*' = ground arith in rw same refl
  | inr m ↦ elim (Bool-cases (c == b'?')) [
    | inl e ↦ let same : c ≡ b'?' = ground arith in rw same refl
    | inr n ↦ let same : c ≡ b'[' = ground arith in rw same refl
  ]
]

escape_glob-plain : (c : ℕ) → is_special c ≡ false → escape_glob (c ∷ []) ≡ c ∷ []
unfolding escape_glob replace
escape_glob-plain c h = ground arith

-- `s` begins with `sub`.
abbrev pub Begins : Text → Text → Type 0
Begins sub s = (v : Text) × (s ≡ sub ++ v)

eat_sound :
    (c : ℕ) (rest : Text → Bool) (s : Text)
    → eat c rest s ≡ true
    → (t : Text) × (s ≡ c ∷ t) × (rest t ≡ true)
eat_sound c rest [] h = cc
eat_sound c rest (d ∷ s) h = (s, ground arith, ground arith)

eat_complete : (c : ℕ) (rest : Text → Bool) (t : Text) → rest t ≡ true → eat c rest (c ∷ t) ≡ true
eat_complete c rest t h = ground arith

module _ (g : Glob) where
  open g use {matches, matches_end, matches_star, matches_plain, matches_bracket}

  -- An escaped character matches itself.
  matches-escaped :
      (c : ℕ) (p s : Text) → matches (escape_glob (c ∷ []) ++ p) s ≡ eat c (matches p) s
  matches-escaped c p s = elim (Bool-cases (is_special c)) [
    | inl e ↦ rw (escape_glob-special c e) (matches_bracket c p s e)
    | inr n ↦ rw (escape_glob-plain c n) (matches_plain c p s n)
  ]

  matches-cons :
      (c : ℕ) (sub s : Text)
      → matches (escape_glob (c ∷ sub) ++ codes "*") s
        ≡ eat c (matches (escape_glob sub ++ codes "*")) s
  matches-cons c sub s =
      rw (escape_glob-append (c ∷ []) sub, append_assoc)
        (matches-escaped c (escape_glob sub ++ codes "*") s)

  matches-prefix_sound :
      (sub s : Text) → matches (escape_glob sub ++ codes "*") s ≡ true → Begins sub s
  matches-prefix_sound [] s h = (s, refl)
  matches-prefix_sound (c ∷ sub) s h =
      let (t, e, k) = eat_sound c _ s (rw matches-cons at h) in
      let (v, f) = matches-prefix_sound sub t k in (v, e ∙ ap (λ (t : Text). c ∷ t) f)

  matches-prefix_complete :
      (sub v : Text) → matches (escape_glob sub ++ codes "*") (sub ++ v) ≡ true
  unfolding escape_glob replace
  matches-prefix_complete [] v = (matches_star [] v).1 (v, [], sym (append-nil v), matches_end [])
  matches-prefix_complete (c ∷ sub) v = rw matches-cons (
      eat_complete c (matches (escape_glob sub ++ codes "*")) (sub ++ v)
        (matches-prefix_complete sub v))

-- The pattern of a `Contains` matches a text exactly when the substring stands somewhere in it, also
-- where the substring holds characters that GLOB reads as operators.
pub glob_pattern_iff :
    (g : Glob) (sub s : Text)
    → (g.matches (glob_pattern sub) s ≡ true) ↔ ((u v : Text) × (s ≡ u ++ (sub ++ v)))
unfolding glob_pattern
glob_pattern_iff g sub s = (
  λ h.
      let (u, t, e, k) = (g.matches_star _ s).0 h in
      let (v, f) = matches-prefix_sound g sub t k in (u, v, e ∙ ap (λ (t : Text). u ++ t) f),
  λ (u, v, e). (g.matches_star _ s).1 (u, sub ++ v, e, matches-prefix_complete g sub v),
)
