-- ===== src/Streaming/Fields.antt =====
-- A flat object of string fields comes out of the extractor field by field.
use termin_server.Base.{
  ℕ, List, [], ◌∷◌, ◌++◌, Text, false, ◌==◌, ◌||◌, ◌≡◌, refl, arith, ap, sym, subst, codes,
  if◌then◌else◌, Bool-cases, ==_iff, inl, inr, append_assoc, append-nil, is_space, flat_map, map,
}
use termin_server.Streaming.{
  Extractor, Event, field_delta, field_done, State, seek_key, in_key, seek_colon, in_string_value,
  done, initial, backslash, quote, decode_escape,
}
use termin_server.Streaming.Chunks.{feed_all, feed_all-flatten, feed-scan_rest, with_text}
use termin_server.Streaming.Runs.{Mode, mode, run, run-mode}

-- A character of a string, where control characters that have a letter are written by it.
unfoldable pub escape_char : ℕ → Text
escape_char c =
    if c == quote || c == backslash
    then backslash ∷ c ∷ []
    else if c == 10
    then backslash ∷ b'n' ∷ []
    else if c == 9
    then backslash ∷ b't' ∷ []
    else if c == 13
    then backslash ∷ b'r' ∷ []
    else if c == 8
    then backslash ∷ b'b' ∷ []
    else if c == 12
    then backslash ∷ b'f' ∷ []
    else c ∷ []

-- In a key only quotes and backslashes are escaped.
unfoldable pub escape_key : ℕ → Text
escape_key c = if c == quote || c == backslash then backslash ∷ c ∷ [] else c ∷ []

abbrev pub Field : Type 0
Field = Text × Text

unfoldable pub print_field : Field → Text
unfolding escape_char escape_key
print_field (k, v) =
    quote
    ∷ (flat_map escape_key k
        ++ (quote ∷ b':' ∷ b' ' ∷ quote ∷ (flat_map escape_char v ++ quote ∷ [])))

unfoldable pub print_fields : List Field → Text
print_fields [] = []
print_fields (f ∷ []) = print_field f
print_fields (f ∷ g ∷ fs) = print_field f ++ (codes ", " ++ print_fields (g ∷ fs))

-- `{"k": "v", …}`
unfoldable pub print_object : List Field → Text
print_object fs = b'{' ∷ (print_fields fs ++ b'}' ∷ [])

-- What the extractor should emit for a field: its characters one by one, then the whole.
unfoldable pub field_events : Field → List Event
field_events (k, v) = map (λ (c : ℕ). field_delta k (c ∷ [])) v ++ field_done k v ∷ []

abbrev pub at : State → Text → Text → ℕ → Mode
at st key chars depth = record {
  state = st;
  key = key;
  chars = chars;
  escape = false;
  depth = depth;
}

abbrev pub emit : List Event → List Event × Mode → List Event × Mode
emit events (more, m) = (events ++ more, m)

run-escape_key :
    (c : ℕ) (rest key chars : Text) (d : ℕ)
    → run (escape_key c ++ rest) (at in_key key chars d)
      ≡ run rest (at in_key (key ++ c ∷ []) chars d)
unfolding run escape_key
run-escape_key c rest key chars d = elim (Bool-cases (c == quote || c == backslash)) [
  | inl e ↦ rw e refl
  | inr n ↦ ground arith
]

pub run_key :
    (k rest key chars : Text) (d : ℕ)
    → run (flat_map escape_key k ++ quote ∷ rest) (at in_key key chars d)
      ≡ run rest (at seek_colon (key ++ k) chars d)
run_key [] rest key chars d = rw append-nil (unfold run in refl)
run_key (c ∷ k) rest key chars d =
    rw (append_assoc, run-escape_key, run_key k rest, append_assoc) refl

run-escape_char :
    (c : ℕ) (rest key chars : Text) (d : ℕ)
    → run (escape_char c ++ rest) (at in_string_value key chars d)
      ≡ emit (field_delta key (c ∷ []) ∷ []) (run rest (at in_string_value key (chars ++ c ∷ []) d))
unfolding run escape_char decode_escape
run-escape_char c rest key chars d = elim (Bool-cases (c == quote)) [
  | inl e ↦ rw ((==_iff c quote).0 e) refl
  | inr n0 ↦ elim (Bool-cases (c == backslash)) [
    | inl e ↦ rw ((==_iff c backslash).0 e) refl
    | inr n1 ↦ elim (Bool-cases (c == 10)) [
      | inl e ↦ rw ((==_iff c 10).0 e) refl
      | inr n2 ↦ elim (Bool-cases (c == 9)) [
        | inl e ↦ rw ((==_iff c 9).0 e) refl
        | inr n3 ↦ elim (Bool-cases (c == 13)) [
          | inl e ↦ rw ((==_iff c 13).0 e) refl
          | inr n4 ↦ elim (Bool-cases (c == 8)) [
            | inl e ↦ rw ((==_iff c 8).0 e) refl
            | inr n5 ↦ elim (Bool-cases (c == 12)) [
              | inl e ↦ rw ((==_iff c 12).0 e) refl
              | inr n6 ↦ ground arith
            ]
          ]
        ]
      ]
    ]
  ]
]

pub run_value :
    (v rest key chars : Text) (d : ℕ)
    → run (flat_map escape_char v ++ quote ∷ rest) (at in_string_value key chars d)
      ≡ emit
          (map (λ (c : ℕ). field_delta key (c ∷ [])) v ++ field_done key (chars ++ v) ∷ [])
          (run rest (at seek_key [] [] d))
run_value [] rest key chars d = rw append-nil (unfold run in refl)
run_value (c ∷ v) rest key chars d =
    rw (append_assoc, run-escape_char, run_value v rest, append_assoc chars (c ∷ []) v) refl

pub run_open :
    (rest key chars : Text) (d : ℕ)
    → run (quote ∷ rest) (at seek_key key chars d) ≡ run rest (at in_key [] chars d)
unfolding run
run_open rest key chars d = refl

pub run_colon :
    (rest key chars : Text) (d : ℕ)
    → run (b':' ∷ b' ' ∷ quote ∷ rest) (at seek_colon key chars d)
      ≡ run rest (at in_string_value key [] d)
unfolding run is_space
run_colon rest key chars d = refl

pub run_field :
    (f : Field) (rest chars : Text) (d : ℕ)
    → run (print_field f ++ rest) (at seek_key [] chars d)
      ≡ emit (field_events f) (run rest (at seek_key [] [] d))
unfolding print_field field_events
run_field (k, v) rest chars d =
    simp append_assoc (rw (run_open, run_key, run_colon, run_value) (simp append_assoc))

run_comma :
    (rest key chars : Text) (d : ℕ)
    → run (b',' ∷ b' ' ∷ rest) (at seek_key key chars d) ≡ run rest (at seek_key key chars d)
unfolding run
run_comma rest key chars d = refl

abbrev pub Ends : List Event → List Event × Mode → Type 0
Ends events (more, m) = (more ≡ events) × (m.state ≡ done)

Ends-emit :
    (events more : List Event) (r : List Event × Mode)
    → Ends more r
    → Ends (events ++ more) (emit events r)
Ends-emit events more r e = (ap (λ (t : List Event). events ++ t) e.0, e.1)

pub run_close : Ends [] (run (b'}' ∷ []) (at seek_key [] [] 1))
unfolding run
run_close = (refl, refl)

-- The fields behind an opening brace, up to the closing one.
run_fields :
    (fs : List Field) (chars : Text)
    → Ends (flat_map field_events fs) (run (print_fields fs ++ b'}' ∷ []) (at seek_key [] chars 1))
unfolding print_fields
run_fields [] chars = unfold run in (refl, refl)
run_fields (f ∷ []) chars =
    rw (run_field f (b'}' ∷ []) chars 1)
      (Ends-emit (field_events f) [] (run (b'}' ∷ []) (at seek_key [] [] 1)) run_close)
run_fields (f ∷ g ∷ fs) chars = simp append_assoc (
    rw
      (
        run_field f (b',' ∷ b' ' ∷ (print_fields (g ∷ fs) ++ b'}' ∷ [])) chars 1,
        run_comma (print_fields (g ∷ fs) ++ b'}' ∷ []) [] [] 1,
      )
      (Ends-emit (field_events f) (flat_map field_events (g ∷ fs))
        (run (print_fields (g ∷ fs) ++ b'}' ∷ []) (at seek_key [] [] 1)) (run_fields (g ∷ fs) [])))

run_object :
    (fs : List Field) → Ends (flat_map field_events fs) (run (print_object fs) (mode initial))
unfolding print_object run
run_object fs = run_fields fs []

abbrev pub Finishes : List Event → List Event × Extractor → Type 0
Finishes events (more, s) = (more ≡ events) × (s.state ≡ done)

-- A printed object makes a new extractor emit exactly its fields in order, each one character by
-- character and then whole, and ends the object, however it is cut into chunks.
pub feed_all-print_object :
    (fs : List Field) (chunks : List Text)
    → flat_map (λ (t : Text). t) chunks ≡ print_object fs
    → Finishes (flat_map field_events fs) (feed_all chunks initial)
feed_all-print_object fs chunks h =
    rw (feed_all-flatten chunks initial refl, h, feed-scan_rest (print_object fs) initial refl)
      (subst (λ (r : List Event × Mode). Ends (flat_map field_events fs) r)
        (sym (run-mode (print_object fs) (with_text (print_object fs) initial))) (run_object fs))
