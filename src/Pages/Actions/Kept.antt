-- ===== src/Pages/Actions/Kept.antt =====
-- The actions that are attached leave every row of the data in place.
use mathlib.Core.Option as Option
use termin_server.Base.{
  true, List, [], ◌∷◌, Option, none, some, Text, codes, text_eq, text_eq_iff, text_eq_refl,
  is_empty, Bool-cases, Option-cases, inl, inr, Members, Json, j_arr, empty, member, get, put,
  false, lookup, insert, lookup-insert, subst, ◌≡◌, refl, sym, ◌∙◌,
}
use termin_server.Pages.{Action, Node, Nodes, no_dict, node, no_nodes, child, Props}
use termin_server.Pages.Actions.{
  actions_key, labels, visible_actions_for_row, Machine, BoundData, attach_rows, attach_source,
  attach_table, attach_here, attach, attach_all,
}

-- A row with all its values, but for the actions that are attached to it
abbrev pub SameRow : Members → Members → Type 0
SameRow row shown = (k : Text) → text_eq actions_key k ≡ false → get k shown ≡ get k row

-- As many rows, each with its values
abbrev pub Showing : List Members → List Members → Type 0
Showing [] [] = Unit
Showing (row ∷ rows) (shown ∷ more) = SameRow row shown × Showing rows more
Showing base rows = ⊥

-- A key whose rows show some rows
abbrev pub Bound : List Members → Text → BoundData → Type 0
Bound base x bound = (rows : List Members) × (lookup x bound ≡ some rows) × Showing base rows

pub Showing-refl : (rows : List Members) → Showing rows rows
Showing-refl [] = tt
Showing-refl (row ∷ rows) = (λ k h. refl, Showing-refl rows)

pub insert-Bound :
    (base : List Members) (x k : Text) (rows : List Members) (bound : BoundData)
    → Bound base x bound
    → (text_eq k x ≡ true → Showing base rows)
    → Bound base x (insert k rows bound)
insert-Bound base x k rows bound (old, h, s) same = elim (Bool-cases (text_eq k x)) [
  | inl t ↦ (rows, lookup-insert k x rows bound ∙ rw t refl, same t)
  | inr f ↦ (old, lookup-insert k x rows bound ∙ rw f h, s)
]

pub insert-Bound-self :
    (base : List Members) (x k : Text) (rows : List Members) (bound : BoundData)
    → text_eq x k ≡ true
    → Showing base rows
    → Bound base x (insert k rows bound)
insert-Bound-self base x k rows bound t s =
    (rows, lookup-insert k x rows bound ∙ rw (sym ((text_eq_iff x k).0 t), text_eq_refl x) refl, s)

pub some-injective {ℓ} : {A : Type ℓ} {a b : A} → some a ≡ some b → a ≡ b
some-injective h = cc

pub none-some {ℓ} : {A : Type ℓ} {a : A} → none ≡ some a → ⊥
none-some h = cc

get-put-other :
    (j k : Text) (v : Json) (d : Members) → text_eq j k ≡ false → get k (put j v d) ≡ get k d
get-put-other j k v empty f = rw f refl
get-put-other j k v (member i u d) f = elim (Bool-cases (text_eq i j)) [
  | inl t ↦
      let e = subst (λ y. text_eq y k ≡ false) (sym ((text_eq_iff i j).0 t)) f in rw t (rw e refl)
  | inr n ↦ elim (Bool-cases (text_eq i k)) [
    | inl a ↦ rw n (rw a refl)
    | inr b ↦ rw n (rw b (get-put-other j k v d f))
  ]
]

attach_rows-Showing :
    (scopes : List Text) (machines : List Machine) (actions : List Action)
    (base rows shown : List Members)
    → attach_rows scopes machines actions rows ≡ some shown
    → Showing base rows
    → Showing base shown
unfolding attach_rows
attach_rows-Showing scopes machines actions [] [] shown h s =
    subst (Showing []) (some-injective h) tt
attach_rows-Showing scopes machines actions [] (row ∷ rows) shown h s = absurd s
attach_rows-Showing scopes machines actions (b ∷ base) [] shown h s = absurd s
attach_rows-Showing scopes machines actions (b ∷ base) (row ∷ rows) shown h s =
    elim (Option-cases (visible_actions_for_row scopes machines actions row)) [
      | inl n ↦ absurd (none-some (rw (n, attach_rows) at h))
      | inr (ls, e) ↦ elim (Option-cases (attach_rows scopes machines actions rows)) [
        | inl n ↦ absurd (none-some (rw (e, n, attach_rows) at h))
        | inr (more, m) ↦
            subst (Showing (b ∷ base)) (some-injective (rw (e, m, attach_rows) at h)) (
              λ k f. get-put-other actions_key k (j_arr (labels ls)) row f ∙ s.0 k f,
              attach_rows-Showing scopes machines actions base rows more m s.1,
            )
      ]
    ]

module _ (scopes : List Text) (sm_lookup : Text → List Machine) where
  attach_source-Bound :
      (base : List Members) (x source : Text) (actions : List Action) (bound out : BoundData)
      → attach_source scopes sm_lookup source actions bound ≡ some out
      → Bound base x bound
      → Bound base x out
  unfolding attach_source
  attach_source-Bound base x source [] bound out h b = subst (Bound base x) (some-injective h) b
  attach_source-Bound base x source (a ∷ actions) bound out h b =
      elim (Option-cases (lookup source bound)) [
        | inl n ↦ subst (Bound base x) (some-injective (rw (n, attach_source) at h)) b
        | inr (rows, e) ↦
            let (shown, k, i) =
              (Option.bind-eq-some_iff (attach_rows scopes (sm_lookup source) (a ∷ actions) rows)
                  _).0
                (rw (e, attach_source) at h) in
            subst (Bound base x) (some-injective i) (
              insert-Bound base x source shown bound b (λ t.
                let (old, f, s) = b in
                attach_rows-Showing scopes (sm_lookup source) (a ∷ actions) base rows shown k (
                  subst (Showing base)
                    (some-injective (
                      sym f
                      ∙ subst (λ y. lookup y bound ≡ some rows) ((text_eq_iff source x).0 t) e))
                    s)))
      ]

  attach_table-Bound :
      (base : List Members) (x : Text) (source : Option Text) (actions : List Action)
      (bound out : BoundData)
      → attach_table scopes sm_lookup source actions bound ≡ some out
      → Bound base x bound
      → Bound base x out
  unfolding attach_table
  attach_table-Bound base x none actions bound out h b = subst (Bound base x) (some-injective h) b
  attach_table-Bound base x (some source) actions bound out h b =
      elim (Bool-cases (is_empty source)) [
        | inl t ↦ subst (Bound base x) (some-injective (rw (t, attach_table) at h)) b
        | inr f ↦ attach_source-Bound base x source actions bound out (rw (f, attach_table) at h) b
      ]

  attach_here-Bound :
      (base : List Members) (x kind : Text) (p : Props) (bound out : BoundData)
      → attach_here scopes sm_lookup kind p bound ≡ some out
      → Bound base x bound
      → Bound base x out
  unfolding attach_here
  attach_here-Bound base x kind p bound out h b =
      elim (Bool-cases (text_eq kind (codes "data_table"))) [
        | inl t ↦
            attach_table-Bound base x p.source p.row_actions bound out (rw (t, attach_here) at h) b
        | inr f ↦ subst (Bound base x) (some-injective (rw (f, attach_here) at h)) b
      ]

  mutual
    unfolding attach

    attach-Bound :
        (base : List Members) (x : Text) (c : Node) (bound out : BoundData)
        → attach scopes sm_lookup c bound ≡ some out
        → Bound base x bound
        → Bound base x out
    attach-Bound base x no_dict bound out h b = subst (Bound base x) (some-injective h) b
    attach-Bound base x (node kind p children) bound out h b =
        let (next, e, i) =
          (Option.bind-eq-some_iff (attach_here scopes sm_lookup kind p bound) _).0 h in
        attach_all-Bound base x children next out i (attach_here-Bound base x kind p bound next e b)

    pub attach_all-Bound :
        (base : List Members) (x : Text) (cs : Nodes) (bound out : BoundData)
        → attach_all scopes sm_lookup cs bound ≡ some out
        → Bound base x bound
        → Bound base x out
    attach_all-Bound base x no_nodes bound out h b = subst (Bound base x) (some-injective h) b
    attach_all-Bound base x (child c cs) bound out h b =
        let (next, e, i) = (Option.bind-eq-some_iff (attach scopes sm_lookup c bound) _).0 h in
        attach_all-Bound base x cs next out i (attach-Bound base x c bound next e b)
