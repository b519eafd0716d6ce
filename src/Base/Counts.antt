-- ===== src/Base/Counts.antt =====
-- How often a character stands in a text.
use Prim.Native.Nat.{ℕ, suc, ◌+◌}
use mathlib.Core.Path.{◌≡◌, refl}
use mathlib.Core.List.{List, [], ◌∷◌, ◌++◌}
use native.Mathlib.Omega.{arith}
use termin_server.Base.Tests.{◌==◌, if◌then◌else◌}
use termin_server.Base.Texts.{Text, join}

unfoldable pub count : ℕ → Text → ℕ
count c [] = 0
count c (d ∷ s) = let rest = count c s in if d == c then suc rest else rest

unfoldable pub count_all : ℕ → List Text → ℕ
count_all c [] = 0
count_all c (s ∷ ss) = count c s + count_all c ss

pub count-append : (c : ℕ) (s t : Text) → count c (s ++ t) ≡ count c s + count c t
unfolding count
count-append c [] t = omega arith
count-append c (d ∷ s) t = ground (arith, count-append c s t)

pub count-join :
    (c : ℕ) (sep : Text) (ss : List Text) → count c sep ≡ 0 → count c (join sep ss) ≡ count_all c ss
unfolding count_all
count-join c sep [] h = unfold count in refl
count-join c sep (s ∷ []) h = omega arith
count-join c sep (s ∷ t ∷ ts) h = omega (
  arith,
  count-append c s (sep ++ join sep (t ∷ ts)),
  count-append c sep (join sep (t ∷ ts)),
  count-join c sep (t ∷ ts) h,
)
