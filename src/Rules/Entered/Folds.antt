-- ===== src/Rules/Entered/Folds.antt =====
-- The run of a list of actions, `run_all`, by what each of them does. The model is of the loops over
-- the actions of a rule in termin_server/app.py.
use termin_server.Base.{List, [], ◌∷◌, All, ◌≡◌, refl, ap, ◌∙◌, fun_ext}
use termin_server.Rules.{End, finished, raised}
use termin_server.Rules.Handlers.{run_all}

-- What every action keeps, all of them keep.
pub run_all-keeps :
    {A B : Type 0} (P : B → Type 0) (f : A → B → End × B) (actions : List A) (b : B)
    → All (λ a. (c : B) → P c → P (f a c).1) actions
    → P b
    → P (run_all f actions b).1
unfolding run_all
run_all-keeps P f [] b h p = p
run_all-keeps {A} {B} P f (a ∷ more) b h p =
    elim (f a b).0
      as (λ x.
        P (elim x as (λ y. End × B) [ raised ↦ f a b | finished ↦ run_all f more (f a b).1 ]).1) [
          | raised ↦ h.0 b p
          | finished ↦ run_all-keeps P f more (f a b).1 h.1 (h.0 b p)
        ]

pub run_all-same :
    {A B : Type 0} (f g : A → B → End × B) (actions : List A) (b : B)
    → All (λ a. (c : B) → f a c ≡ g a c) actions
    → run_all f actions b ≡ run_all g actions b
unfolding run_all
run_all-same f g [] b h = refl
run_all-same {A} {B} f g (a ∷ more) b h =
    ap (λ z. elim z.0 as (λ y. End × B) [ raised ↦ z | finished ↦ run_all f more z.1 ]) (h.0 b)
    ∙ ap
        (λ (rest : B → End × B). elim (g a b).0 as (λ y. End × B) [
          | raised ↦ g a b
          | finished ↦ rest (g a b).1
        ])
        (fun_ext (λ c. run_all-same f g more c h.1))
