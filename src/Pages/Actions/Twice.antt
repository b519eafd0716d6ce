-- ===== src/Pages/Actions/Twice.antt =====
-- Actions that are attached a second time.
use termin_server.Base.{
  false, List, [], ◌∷◌, Option, none, some, Text, text_eq, text_eq_iff, text_eq_refl, is_empty,
  Bool-cases, Option-cases, inl, inr, Dict, insert, Json, j_arr, Members, empty, member, get, put,
  All, subst, ◌≡◌, refl, sym, ap, ◌∙◌,
}
use termin_server.Pages.{Action}
use termin_server.Pages.Actions.{
  Machine, actions_key, labels, shows, find_machine, machine_for, state_in, set_actions,
  visible_actions_for_row, attach_rows,
}
use termin_server.Pages.Actions.Kept.{some-injective, none-some}

put-put : (k : Text) (v w : Json) (d : Members) → put k w (put k v d) ≡ put k w d
put-put k v w empty = rw (text_eq_refl k) refl
put-put k v w (member j u d) = elim (Bool-cases (text_eq j k)) [
  | inl t ↦ rw t (rw t refl)
  | inr f ↦ rw f (rw f (ap (member j u) (put-put k v w d)))
]

get-put : (k c : Text) (v : Json) (d : Members) → text_eq k c ≡ false → get c (put k v d) ≡ get c d
get-put k c v empty h = rw h refl
get-put k c v (member j u d) h = elim (Bool-cases (text_eq j k)) [
  | inl t ↦
      rw t (rw (subst (λ (x : Text). text_eq x c ≡ false) (sym ((text_eq_iff j k).0 t)) h) refl)
  | inr f ↦ rw f (rw (get-put k c v d h) refl)
]

pub insert-insert {ℓ} :
    {V : Type ℓ} (k : Text) (v w : V) (d : Dict V) → insert k w (insert k v d) ≡ insert k w d
unfolding insert
insert-insert k v w [] = rw (text_eq_refl k) refl
insert-insert k v w ((j, u) ∷ d) = elim (Bool-cases (text_eq j k)) [
  | inl t ↦ rw t (rw t refl)
  | inr f ↦ rw f (rw f (ap (λ (e : Dict _). (j, u) ∷ e) (insert-insert k v w d)))
]

set_actions-some :
    (row : Members) (o : Option (List Text)) (rest : Option (List Members)) (shown : List Members)
    → set_actions row o rest ≡ some shown
    → (ls : List Text) × (rs : List Members) × (o ≡ some ls)
      × (rest ≡ some rs)
      × (put actions_key (j_arr (labels ls)) row ∷ rs ≡ shown)
set_actions-some row none rest shown h = cc
set_actions-some row (some ls) none shown h = cc
set_actions-some row (some ls) (some rs) shown h = (ls, rs, refl, refl, some-injective h)

set_actions-put :
    (row : Members) (v : Json) (o : Option (List Text)) (rest : Option (List Members))
    → set_actions (put actions_key v row) o rest ≡ set_actions row o rest
set_actions-put row v none rest = refl
set_actions-put row v (some ls) none = refl
set_actions-put row v (some ls) (some rs) =
    ap (λ (r : Members). some (r ∷ rs)) (put-put actions_key v (j_arr (labels ls)) row)

-- No machine keeps its state under the key of the actions.
abbrev pub Apart : List Machine → Type 0
Apart = All (λ (m : Machine). text_eq actions_key m.column ≡ false)

find_machine-Apart :
    (name : Text) (ms : List Machine) (m : Machine)
    → Apart ms
    → find_machine name ms ≡ some m
    → text_eq actions_key m.column ≡ false
unfolding find_machine
find_machine-Apart name [] m a h = cc
find_machine-Apart name (n ∷ ms) m a h = elim (Bool-cases (text_eq n.machine_name name)) [
  | inl t ↦
      subst (λ (x : Machine). text_eq actions_key x.column ≡ false)
        (some-injective (rw (t, find_machine) at h)) a.0
  | inr f ↦ find_machine-Apart name ms m a.1 (rw (f, find_machine) at h)
]

machine_for-Apart :
    (name : Text) (ms : List Machine) (m : Machine)
    → Apart ms
    → machine_for name ms ≡ some m
    → text_eq actions_key m.column ≡ false
unfolding machine_for
machine_for-Apart name [] m a h = cc
machine_for-Apart name (n ∷ ms) m a h = elim (Option-cases (find_machine name (n ∷ ms))) [
  | inl e ↦ elim (Bool-cases (is_empty name)) [
    | inl t ↦
        subst (λ (x : Machine). text_eq actions_key x.column ≡ false)
          (some-injective (rw t at (rw (e, machine_for) at h))) a.0
    | inr f ↦ absurd (none-some (rw f at (rw (e, machine_for) at h)))
  ]
  | inr (x, e) ↦
      find_machine-Apart name (n ∷ ms) m a (e ∙ ap some (some-injective (rw (e, machine_for) at h)))
]

module _ (scopes : List Text) (ms : List Machine) (apart : Apart ms) where
  state_in-put :
      (v : Json) (row : Members) (m : Machine)
      → text_eq actions_key m.column ≡ false
      → state_in m (put actions_key v row) ≡ state_in m row
  state_in-put v row m h = rw (get-put actions_key m.column v row h, state_in) refl

  shows-put :
      (v : Json) (row : Members) (x : Action)
      → shows scopes ms (put actions_key v row) x ≡ shows scopes ms row x
  unfolding shows
  shows-put v row x = elim (Option-cases (machine_for x.machine_name ms)) [
    | inl e ↦ rw e refl
    | inr (m, e) ↦
        rw e (rw (state_in-put v row m (machine_for-Apart x.machine_name ms m apart e)) refl)
  ]

  visible-put :
      (v : Json) (xs : List Action) (row : Members)
      → visible_actions_for_row scopes ms xs (put actions_key v row)
        ≡ visible_actions_for_row scopes ms xs row
  unfolding visible_actions_for_row
  visible-put v [] row = refl
  visible-put v (x ∷ xs) row = rw (shows-put v row x, visible-put v xs row) refl

  -- The second actions replace the first.
  pub attach_rows-twice :
      (xs ys : List Action) (rows shown : List Members)
      → attach_rows scopes ms xs rows ≡ some shown
      → attach_rows scopes ms ys shown ≡ attach_rows scopes ms ys rows
  unfolding attach_rows
  attach_rows-twice xs ys [] shown h =
      subst (λ (rows : List Members). attach_rows scopes ms ys rows ≡ some []) (some-injective h)
        refl
  attach_rows-twice xs ys (row ∷ rows) shown h =
      let (ls, rs, e, f, i) =
        set_actions-some row (visible_actions_for_row scopes ms xs row)
          (attach_rows scopes ms xs rows) shown h in
      subst
        (λ (s : List Members). attach_rows scopes ms ys s ≡ attach_rows scopes ms ys (row ∷ rows)) i
        (rw (visible-put (j_arr (labels ls)) ys row, attach_rows-twice xs ys rows rs f)
          (set_actions-put row (j_arr (labels ls)) (visible_actions_for_row scopes ms ys row)
            (attach_rows scopes ms ys rows)))
