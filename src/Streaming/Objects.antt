-- ===== src/Streaming/Objects.antt =====
-- The extractor on a flat object of string fields as a JSON writer spells it.
use termin_server.Base.{
  ℕ, Bool, true, List, [], ◌∷◌, ◌++◌, ◌||◌, ◌==◌, leb, ltb, All, Text, ◌≡◌, refl, arith, ◌+◌, ap,
  ◌∙◌, codes, if◌then◌else◌, Bool-cases, inl, inr, flat_map, append_assoc,
}
use Prim.Native.Nat.{◌%◌}
use termin_server.Streaming.{initial, backslash, quote}
use termin_server.Streaming.Chunks.{feed_all}
use termin_server.Streaming.Fields.{
  Field, escape_char, escape_key, print_field, print_fields, print_object, field_events, Finishes,
  feed_all-print_object,
}

abbrev hex_digit : ℕ → ℕ
hex_digit n = if ltb n 10 then 48 + n else 87 + n

-- How JSON writes a character of a string: quotes, backslashes and five control characters by a letter,
-- the other control characters by their number, and the rest, also above 127, as it is.
unfoldable pub json_char : ℕ → Text
json_char c =
    if c == quote || c == backslash
    then backslash ∷ c ∷ []
    else if c == 10
    then backslash ∷ b'n' ∷ []
    else if c == 9
    then backslash ∷ b't' ∷ []
    else if c == 13
    then backslash ∷ b'r' ∷ []
    else if c == 8
    then backslash ∷ b'b' ∷ []
    else if c == 12
    then backslash ∷ b'f' ∷ []
    else if leb 32 c
    then c ∷ []
    else backslash
      ∷ b'u'
      ∷ b'0'
      ∷ b'0'
      ∷ (if ltb c 16 then b'0' else b'1')
      ∷ hex_digit (c % 16)
      ∷ []

-- A string of JSON
unfoldable pub json_string : Text → Text
unfolding json_char
json_string s = quote ∷ (flat_map json_char s ++ quote ∷ [])

unfoldable pub json_fields : List Field → Text
unfolding json_string
json_fields [] = []
json_fields ((k, v) ∷ []) = json_string k ++ (codes ": " ++ json_string v)
json_fields ((k, v) ∷ g ∷ fs) =
    json_string k ++ (codes ": " ++ (json_string v ++ (codes ", " ++ json_fields (g ∷ fs))))

-- `{"k": "v", …}`
unfoldable pub json_object : List Field → Text
unfolding json_fields
json_object fs = b'{' ∷ (json_fields fs ++ b'}' ∷ [])

-- No control character
abbrev pub IsPlain : Text → Type 0
IsPlain s = All (λ c. leb 32 c ≡ true) s

-- A control character that JSON writes by a letter
abbrev pub has_letter : ℕ → Bool
has_letter c = c == 8 || (c == 9 || (c == 10 || (c == 12 || c == 13)))

-- A field whose key has no control character, and whose value only such that have a letter
abbrev pub IsSpelled : Field → Type 0
IsSpelled (k, v) = IsPlain k × All (λ c. leb 32 c || has_letter c ≡ true) v

json_char-plain : (c : ℕ) → leb 32 c ≡ true → json_char c ≡ escape_key c
unfolding json_char escape_key
json_char-plain c h = elim (Bool-cases (c == quote || c == backslash)) [
  | inl t ↦ rw t refl
  | inr f ↦ ground arith
]

json_char-value : (c : ℕ) → (leb 32 c || has_letter c) ≡ true → json_char c ≡ escape_char c
unfolding json_char escape_char
json_char-value c h = elim (Bool-cases (leb 32 c)) [ inl t ↦ rw t refl | inr f ↦ ground arith ]

flat_map-plain : (s : Text) → IsPlain s → flat_map json_char s ≡ flat_map escape_key s
flat_map-plain [] h = refl
flat_map-plain (c ∷ s) h = rw (json_char-plain c h.0, flat_map-plain s h.1) refl

flat_map-value :
    (s : Text)
    → All (λ c. leb 32 c || has_letter c ≡ true) s
    → flat_map json_char s ≡ flat_map escape_char s
flat_map-value [] h = refl
flat_map-value (c ∷ s) h = rw (json_char-value c h.0, flat_map-value s h.1) refl

json_fields-print_fields : (fs : List Field) → All IsSpelled fs → json_fields fs ≡ print_fields fs
unfolding json_fields json_string print_fields print_field
json_fields-print_fields [] h = refl
json_fields-print_fields ((k, v) ∷ []) h =
    rw (flat_map-plain k h.0.0, flat_map-value v h.0.1) (simp append_assoc)
json_fields-print_fields ((k, v) ∷ g ∷ fs) h =
    rw (flat_map-plain k h.0.0, flat_map-value v h.0.1, json_fields-print_fields (g ∷ fs) h.1)
      (simp append_assoc)

-- A flat object of string fields, as a JSON writer spells it that leaves the characters above 127 as
-- they are, makes a new extractor emit exactly its fields in order, each one character by character and
-- then whole, and ends the object, however it is cut into chunks; the keys hold no control character,
-- and the values only such that JSON writes by a letter.
pub feed_all-json_object :
    (fs : List Field) (chunks : List Text)
    → All IsSpelled fs
    → flat_map (λ (t : Text). t) chunks ≡ json_object fs
    → Finishes (flat_map field_events fs) (feed_all chunks initial)
unfolding json_object print_object
feed_all-json_object fs chunks h e =
    feed_all-print_object fs chunks
      (e ∙ ap (λ t. b'{' ∷ (t ++ b'}' ∷ [])) (json_fields-print_fields fs h))
