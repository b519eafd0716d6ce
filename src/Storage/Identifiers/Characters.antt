-- ===== src/Storage/Identifiers/Characters.antt =====
-- The characters of an accepted name.
use termin_server.Base.{ℕ, true, false, [], ◌∷◌, Text, ◌≡◌, refl, arith, ◌==◌, count, count-append}
use termin_server.Storage.Identifiers.{
  is_ident_char, newline, ident_tail, validate_identifier, quote, replace, q,
}

-- A character that no accepted name holds.
abbrev pub IsForeign : ℕ → Type 0
IsForeign c = (is_ident_char c ≡ false) × ((c == newline) ≡ false)

count-ident_tail : (c : ℕ) (s : Text) → IsForeign c → ident_tail s ≡ true → count c s ≡ 0
unfolding count ident_tail
count-ident_tail c [] f h = refl
count-ident_tail c (d ∷ []) f h = ground arith
count-ident_tail c (d ∷ e ∷ s) f h = ground (arith, count-ident_tail c (e ∷ s) f)

pub count-accepted : (c : ℕ) (s : Text) → IsForeign c → validate_identifier s ≡ true → count c s ≡ 0
unfolding count validate_identifier
count-accepted c [] f h = refl
count-accepted c (d ∷ s) f h = ground (arith, count-ident_tail c s f)

count-replace :
    (c d : ℕ) (new s : Text) → count c new ≡ 0 → count c s ≡ 0 → count c (replace d new s) ≡ 0
unfolding count replace
count-replace c d new [] h k = refl
count-replace c d new (e ∷ s) h k =
    ground (arith, count-append c new (replace d new s), count-replace c d new s h)

-- Such a character stands nowhere in the quoted name, the quote itself left out.
pub count-q :
    (c : ℕ) (s : Text)
    → IsForeign c
    → (c == quote) ≡ false
    → validate_identifier s ≡ true
    → count c (q s) ≡ 0
unfolding count q
count-q c s f k h =
    let twice : count c (quote ∷ quote ∷ []) ≡ 0 = ground arith in
    ground (
      arith,
      count-append c (replace quote (quote ∷ quote ∷ []) s) (quote ∷ []),
      count-replace c quote (quote ∷ quote ∷ []) s twice (count-accepted c s f h),
    )
