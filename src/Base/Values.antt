-- ===== src/Base/Values.antt =====
-- The values that Python hands to the database driver, and gets back from it.
use Prim.Native.Nat.{ℕ}
use mathlib.Core.Bool.{Bool, true, false}
use termin_server.Base.Texts.{Text}
use mathlib.Core.List.{[]}

-- `negsuc n` is -(n + 1).
pub data ℤ : Type 0 where
  pos : ℕ → ℤ
  negsuc : ℕ → ℤ

-- A float stands as its 64-bit pattern. A list or a dict stands as its JSON text.
pub data Value : Type 0 where
  null : Value
  bool : Bool → Value
  int : ℤ → Value
  float : ℕ → Value
  str : Text → Value
  json : Text → Value

-- `v is None`
abbrev pub is_none : Value → Bool
is_none null = true
is_none v = false

-- `v == ""`
abbrev pub is_blank : Value → Bool
is_blank (str []) = true
is_blank v = false
