-- ===== src/Storage/Results.antt =====
-- Code that may raise, as the other modules reason about it.
use termin_server.Base.{◌≡◌, refl}
use termin_server.Storage.Identifiers.{Checked, ok, raise, ◌>>=◌}

-- A chain that is ok, taken apart.
pub bind-ok :
    {A B : Type 0} (m : Checked A) (f : A → Checked B) (b : B)
    → (m >>= f) ≡ ok b
    → (a : A) × (m ≡ ok a) × (f a ≡ ok b)
bind-ok (ok a) f b h = (a, refl, h)
bind-ok (raise x) f b h = cc

pub ok-injective : {A : Type 0} {a b : A} → ok a ≡ ok b → a ≡ b
ok-injective h = cc
