-- ===== src/Storage/Identifiers.antt =====
-- The SQL identifiers of termin_server/storage.py: `_SAFE_IDENTIFIER`, `validate_identifier`,
-- `_assert_safe` and `_q`.
pub mod Accepted
pub mod Characters
pub mod Quoting
mod Tests
use termin_server.Base.{
  ℕ, Bool, true, false, List, [], ◌∷◌, ◌++◌, ◌&&◌, ◌||◌, ◌==◌, Text, between, is_empty, not,
  flat_map, if◌then◌else◌,
}

-- What an exception of the storage layer is about.
pub data StorageError : Type 0 where
  unsafe_name : Text → StorageError
  bad_cursor not_supported bad_cascade missing_schema unknown_field bad_direction bad_limit
        bad_offset :
      StorageError

-- The result of code that may raise.
pub data Checked {ℓ} (A : Type ℓ) : Type ℓ where
  ok : A → Checked A
  raise : StorageError → Checked A

infixl 5 ◌>>=◌ ◌>>◌
abbrev pub ◌>>=◌ {ℓ κ} : {A : Type ℓ} {B : Type κ} → Checked A → (A → Checked B) → Checked B
ok a >>= f = f a
raise e >>= f = raise e

abbrev pub ◌>>◌ {ℓ κ} : {A : Type ℓ} {B : Type κ} → Checked A → Checked B → Checked B
m >> k = m >>= λ _. k

abbrev pub is_lower : ℕ → Bool
is_lower c = between b'a' b'z' c

abbrev pub is_digit : ℕ → Bool
is_digit c = between b'0' b'9' c

abbrev pub is_ident_char : ℕ → Bool
is_ident_char c = is_lower c || is_digit c || c == b'_'

-- Python's `$` matches at the end of a text, and before a newline that ends it.
abbrev pub newline : ℕ
newline = 10

ends_here : ℕ → Text → Bool
ends_here c [] = c == newline
ends_here c (d ∷ s) = false

-- `[a-z0-9_]*$`
ident_tail : Text → Bool
unfolding ends_here
ident_tail [] = true
ident_tail (c ∷ s) = ends_here c s || (is_ident_char c && ident_tail s)

-- `_SAFE_IDENTIFIER.match`, for `^[a-z][a-z0-9_]*$`
safe_identifier : Text → Bool
unfolding ident_tail
safe_identifier [] = false
safe_identifier (c ∷ s) = is_lower c && ident_tail s

unfoldable pub validate_identifier : Text → Bool
unfolding safe_identifier
validate_identifier name = not (is_empty name) && safe_identifier name

-- `_assert_safe` returns the name, or raises.
unfoldable pub assert_safe : Text → Checked Text
assert_safe name = if validate_identifier name then ok name else raise (unsafe_name name)

abbrev pub quote : ℕ
quote = b'"'

-- `str.replace` of one character by a text
unfoldable pub replace : ℕ → Text → Text → Text
replace c new [] = []
replace c new (d ∷ s) = (if d == c then new else d ∷ []) ++ replace c new s

-- `_q`
unfoldable pub q : Text → Text
unfolding replace
q name = quote ∷ (replace quote (quote ∷ quote ∷ []) name ++ (quote ∷ []))
