-- ===== src/Storage/Creation/States.antt =====
-- What becomes of the value that is given for a column of a new record. The model is of `create_record`
-- in termin_server/storage.py.
use termin_server.Base.{
  arith, ◌==◌, sym, ℕ, pos, negsuc, true, false, null, bool, int, float, json, codes, All, ◌++◌,
  ◌⊎◌, ◌≢◌, not, List, [], ◌∷◌, ◌&&◌, ◌||◌, Option, none, some, Text, text_eq, text_eq_iff,
  text_eq_refl, one_of, is_empty, if◌then◌else◌, Bool-cases, Value, str, is_blank, inl, inr, ◌≡◌,
  refl, subst,
}
use termin_server.Storage.Creation.{is_falsy, is_missing, state_columns}

-- The value of a column, once its machines have had their turn
abbrev pub seeded : List (Text × Text) → Text → Option Value → Option Value
seeded [] k v = v
seeded ((column, initial) ∷ machines) k v =
    seeded machines k (
      if (not (is_empty column) && text_eq column k) && is_missing v then some (str initial) else v)

-- A value that is inserted: a blank one only where it is a state
abbrev pub kept : List Text → Text → Option Value → Option Value
kept columns k none = none
kept columns k (some v) = if not (is_blank v) || one_of k columns then some v else none

-- The machine that has a column, with its initial state: none has it, or exactly one.
pub data Turn (k : Text) : List (Text × Text) → Option Text → Type 0 where
  nowhere :
      (machines : List (Text × Text))
      → All (λ m. text_eq m.0 k ≡ false) machines
      → Turn k machines none
  once :
      (before after : List (Text × Text)) (initial : Text)
      → is_empty k ≡ false
      → All (λ m. text_eq m.0 k ≡ false) before
      → All (λ m. text_eq m.0 k ≡ false) after
      → Turn k (before ++ (k, initial) ∷ after) (some initial)

-- What becomes of the value that is given for a column: first for that of a machine, by the cases of
-- what Python holds for false, then for another column.
pub data Becomes : Option Text → Option Value → Option Value → Type 0 where
  absent : (i : Text) → Becomes (some i) none (some (str i))
  null_state : (i : Text) → Becomes (some i) (some null) (some (str i))
  false_state : (i : Text) → Becomes (some i) (some (bool false)) (some (str i))
  true_state : (i : Text) → Becomes (some i) (some (bool true)) (some (bool true))
  zero_state : (i : Text) (n : ℕ) → n ≡ 0 → Becomes (some i) (some (int (pos n))) (some (str i))
  positive_state :
      (i : Text) (n : ℕ) → n ≢ 0 → Becomes (some i) (some (int (pos n))) (some (int (pos n)))
  negative_state :
      (i : Text) (n : ℕ) → Becomes (some i) (some (int (negsuc n))) (some (int (negsuc n)))
  -- The patterns of 0.0 and -0.0.
  float_zero_state :
      (i : Text) (f : ℕ)
      → (f ≡ 0) ⊎ (f ≡ 0x8000000000000000)
      → Becomes (some i) (some (float f)) (some (str i))
  float_state :
      (i : Text) (f : ℕ)
      → f ≢ 0
      → f ≢ 0x8000000000000000
      → Becomes (some i) (some (float f)) (some (float f))
  blank_state : (i : Text) → Becomes (some i) (some (str [])) (some (str i))
  text_state : (i s : Text) (c : ℕ) → Becomes (some i) (some (str (c ∷ s))) (some (str (c ∷ s)))
  -- An empty list, and an empty dict.
  no_items_state :
      (i t : Text)
      → (t ≡ codes "[]") ⊎ (t ≡ codes "{}")
      → Becomes (some i) (some (json t)) (some (str i))
  items_state :
      (i t : Text)
      → t ≢ codes "[]"
      → t ≢ codes "{}"
      → Becomes (some i) (some (json t)) (some (json t))
  no_value : Becomes none none none
  blank_value : Becomes none (some (str [])) none
  value : (v : Value) → v ≢ str [] → Becomes none (some v) (some v)

seeded-nowhere :
    (machines : List (Text × Text)) (k : Text) (v : Option Value)
    → All (λ m. text_eq m.0 k ≡ false) machines
    → seeded machines k v ≡ v
seeded-nowhere [] k v h = refl
seeded-nowhere ((column, initial) ∷ machines) k v h = elim (Bool-cases (is_empty column)) [
  | inl t ↦ rw t (seeded-nowhere machines k v h.1)
  | inr f ↦ rw (f, h.0) (seeded-nowhere machines k v h.1)
]

seeded-once :
    (before after : List (Text × Text)) (k initial : Text) (v : Option Value)
    → is_empty k ≡ false
    → All (λ m. text_eq m.0 k ≡ false) before
    → All (λ m. text_eq m.0 k ≡ false) after
    → seeded (before ++ (k, initial) ∷ after) k v ≡ (if is_missing v then some (str initial) else v)
seeded-once [] after k initial v e h h' =
    rw (seeded, e, text_eq_refl k)
      (seeded-nowhere after k (if is_missing v then some (str initial) else v) h')
seeded-once ((column, i) ∷ before) after k initial v e h h' = elim (Bool-cases (is_empty column)) [
  | inl t ↦ rw (seeded, t) (seeded-once before after k initial v e h.1 h')
  | inr f ↦ rw (seeded, f, h.0) (seeded-once before after k initial v e h.1 h')
]

one_of-nowhere :
    (machines : List (Text × Text)) (k : Text)
    → All (λ m. text_eq m.0 k ≡ false) machines
    → one_of k (state_columns machines) ≡ false
unfolding state_columns
one_of-nowhere [] k h = refl
one_of-nowhere ((column, i) ∷ machines) k h = elim (Bool-cases (is_empty column)) [
  | inl t ↦ rw (state_columns, t) (one_of-nowhere machines k h.1)
  | inr f ↦
      rw (state_columns, f)
        (let rest = one_of-nowhere machines k h.1 in
          let n = h.0 in ground (arith, text_eq_iff k column, text_eq_iff column k))
]

one_of-once :
    (before after : List (Text × Text)) (k initial : Text)
    → is_empty k ≡ false
    → one_of k (state_columns (before ++ (k, initial) ∷ after)) ≡ true
unfolding state_columns
one_of-once [] after k initial e = rw (state_columns, e, text_eq_refl k) refl
one_of-once ((column, i) ∷ before) after k initial e = elim (Bool-cases (is_empty column)) [
  | inl t ↦ rw (state_columns, t) (one_of-once before after k initial e)
  | inr f ↦
      rw (state_columns, f) (let rest = one_of-once before after k initial e in ground (arith))
]

kept-state :
    (columns : List Text) (k : Text) (v : Value)
    → one_of k columns ≡ true
    → kept columns k (some v) ≡ some v
kept-state columns k v h = ground (arith)

kept-value :
    (columns : List Text) (k : Text) (v : Value)
    → one_of k columns ≡ false
    → kept columns k (some v) ≡ (if is_blank v then none else some v)
kept-value columns k v h = ground (arith)

blank-Becomes : (v : Value) → Becomes none (some v) (if is_blank v then none else some v)
blank-Becomes null = value null (λ e. absurd cc)
blank-Becomes (str []) = blank_value
blank-Becomes (str (c ∷ s)) = value (str (c ∷ s)) (λ e. absurd cc)
blank-Becomes (bool b) = value (bool b) (λ e. absurd cc)
blank-Becomes (int n) = value (int n) (λ e. absurd cc)
blank-Becomes (float f) = value (float f) (λ e. absurd cc)
blank-Becomes (json t) = value (json t) (λ e. absurd cc)

kept-other :
    (columns : List Text) (k : Text) (v : Option Value)
    → one_of k columns ≡ false
    → Becomes none v (kept columns k v)
kept-other columns k none h = no_value
kept-other columns k (some v) h =
    subst (Becomes none (some v)) (sym (kept-value columns k v h)) (blank-Becomes v)

filled-Becomes :
    (i : Text) (v : Option Value) → Becomes (some i) v (if is_missing v then some (str i) else v)
unfolding is_missing is_falsy
filled-Becomes i none = absent i
filled-Becomes i (some null) = null_state i
filled-Becomes i (some (bool false)) = false_state i
filled-Becomes i (some (bool true)) = true_state i
filled-Becomes i (some (int (pos n))) = elim (Bool-cases (n == 0)) [
  | inl z ↦ rw z (zero_state i n (ground arith))
  | inr m ↦ rw m (positive_state i n (λ e. absurd (ground arith)))
]
filled-Becomes i (some (int (negsuc n))) = negative_state i n
filled-Becomes i (some (float f)) = elim (Bool-cases (f == 0)) [
  | inl z ↦ rw z (float_zero_state i f (inl (ground arith)))
  | inr n ↦ elim (Bool-cases (f == 0x8000000000000000)) [
    | inl z ↦ rw (n, z) (float_zero_state i f (inr (ground arith)))
    | inr m ↦ rw (n, m) (float_state i f (λ e. absurd (ground arith)) (λ e. absurd (ground arith)))
  ]
]
filled-Becomes i (some (str [])) = blank_state i
filled-Becomes i (some (str (c ∷ s))) = text_state i s c
filled-Becomes i (some (json t)) = elim (Bool-cases (text_eq t (codes "[]"))) [
  | inl z ↦ rw z (no_items_state i t (inl ((text_eq_iff t (codes "[]")).0 z)))
  | inr n ↦ elim (Bool-cases (text_eq t (codes "{}"))) [
    | inl z ↦ rw (n, z) (no_items_state i t (inr ((text_eq_iff t (codes "{}")).0 z)))
    | inr m ↦
        rw (n, m)
          (items_state i t (λ e. absurd (let y = (text_eq_iff t (codes "[]")).1 e in ground arith))
            (λ e. absurd (let y = (text_eq_iff t (codes "{}")).1 e in ground arith)))
  ]
]

kept-filled :
    (columns : List Text) (k i : Text) (v : Option Value)
    → one_of k columns ≡ true
    → kept columns k (if is_missing v then some (str i) else v)
      ≡ (if is_missing v then some (str i) else v)
unfolding is_missing
kept-filled columns k i none h = kept-state columns k (str i) h
kept-filled columns k i (some v) h = elim (Bool-cases (is_falsy v)) [
  | inl t ↦ rw t (kept-state columns k (str i) h)
  | inr f ↦ rw f (kept-state columns k v h)
]

pub turned-Becomes :
    (machines : List (Text × Text)) (k : Text) (initial : Option Text) (v : Option Value)
    → Turn k machines initial
    → Becomes initial v (kept (state_columns machines) k (seeded machines k v))
turned-Becomes machines k initial v (nowhere _ h) =
    rw (seeded-nowhere machines k v h)
      (kept-other (state_columns machines) k v (one_of-nowhere machines k h))
turned-Becomes _ k _ v (once before after i e h h') =
    rw
      (
        seeded-once before after k i v e h h',
        kept-filled (state_columns (before ++ (k, i) ∷ after)) k i v
            (one_of-once before after k i e),
      )
      (filled-Becomes i v)
