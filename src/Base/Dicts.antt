-- ===== src/Base/Dicts.antt =====
-- Python's `dict` with string keys, in insertion order.
use mathlib.Core.Path.{◌≡◌, refl, ◌∙◌}
use mathlib.Core.Logic.{inl, inr}
use mathlib.Core.Option.{Option, none, some}
use mathlib.Core.List.{List, [], ◌∷◌}
use native.Mathlib.Omega.{arith}
use termin_server.Base.Tests.{Bool-cases, Option-cases, if◌then◌else◌}
use termin_server.Base.Texts.{Text, text_eq, text_eq_iff, text_eq_refl}

abbrev pub Dict {ℓ} : Type ℓ → Type ℓ
Dict V = List (Text × V)

module _ {ℓ} {V : Type ℓ} where
  -- d.get(k)
  unfoldable pub lookup : Text → Dict V → Option V
  lookup k [] = none
  lookup k ((j, v) ∷ d) = if text_eq j k then some v else lookup k d

  -- d[k] = v keeps the place of a key that is there
  unfoldable pub insert : Text → V → Dict V → Dict V
  insert k v [] = (k, v) ∷ []
  insert k v ((j, w) ∷ d) = if text_eq j k then (j, v) ∷ d else (j, w) ∷ insert k v d

  -- del d[k]
  unfoldable pub erase : Text → Dict V → Dict V
  erase k [] = []
  erase k ((j, v) ∷ d) = let rest = erase k d in if text_eq j k then rest else (j, v) ∷ rest

  -- d.update(e)
  unfoldable pub update : Dict V → Dict V → Dict V
  update d [] = d
  update d ((k, v) ∷ e) = update (insert k v d) e

  pub lookup-insert :
      (k j : Text) (v : V) (d : Dict V)
      → lookup j (insert k v d) ≡ (if text_eq k j then some v else lookup j d)
  unfolding lookup insert
  lookup-insert k j v [] = refl
  lookup-insert k j v ((i, w) ∷ d) =
      ground (arith, text_eq_iff k j, text_eq_iff i k, text_eq_iff i j, lookup-insert k j v d)

  pub lookup-erase :
      (k j : Text) (d : Dict V) → lookup j (erase k d) ≡ (if text_eq k j then none else lookup j d)
  unfolding lookup erase
  lookup-erase k j [] = ground arith
  lookup-erase k j ((i, w) ∷ d) =
      ground (arith, text_eq_iff k j, text_eq_iff i k, text_eq_iff i j, lookup-erase k j d)

  -- No key twice.
  abbrev pub IsDict : Dict V → Type ℓ
  IsDict [] = Unit
  IsDict ((k, v) ∷ d) = (lookup k d ≡ none) × IsDict d

  pub insert-IsDict : (k : Text) (v : V) (d : Dict V) → IsDict d → IsDict (insert k v d)
  unfolding insert lookup
  insert-IsDict k v [] h = (refl, tt)
  insert-IsDict k v ((j, w) ∷ d) h = elim (Bool-cases (text_eq j k)) [
    | inl e ↦ rw e h
    | inr n ↦ rw n (
      ground (arith, lookup-insert k j v d, text_eq_iff k j, text_eq_iff j k, h.0),
      insert-IsDict k v d h.1,
    )
  ]

  abbrev pub or_lookup : Option V → Text → Dict V → Option V
  or_lookup none j d = lookup j d
  or_lookup (some v) j d = some v

  or_lookup-insert :
      (k j : Text) (v : V) (d e : Dict V)
      → lookup k e ≡ none
      → or_lookup (lookup j e) j (insert k v d) ≡ or_lookup (lookup j ((k, v) ∷ e)) j d
  unfolding lookup
  or_lookup-insert k j v d e h = elim (Bool-cases (text_eq k j)) [
    | inl t ↦ rw (← (text_eq_iff k j).0 t, h, lookup-insert k k v d) (rw (text_eq_refl k) refl)
    | inr n ↦ rw n (elim (Option-cases (lookup j e)) [
      | inl f ↦ rw f (lookup-insert k j v d ∙ rw n refl)
      | inr (w, f) ↦ rw f refl
    ])
  ]

  pub lookup-update :
      (j : Text) (d e : Dict V) → IsDict e → lookup j (update d e) ≡ or_lookup (lookup j e) j d
  unfolding update lookup
  lookup-update j d [] h = refl
  lookup-update j d ((k, v) ∷ e) h =
      rw (lookup-update j (insert k v d) e h.1) (or_lookup-insert k j v d e h.0)
