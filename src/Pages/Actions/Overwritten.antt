-- ===== src/Pages/Actions/Overwritten.antt =====
-- Two tables of a page that show the same source.
use mathlib.Core.Option as Option
use termin_server.Base.{
  false, List, ◌∷◌, Option, none, some, Text, codes, text_eq_refl, is_empty, Option-cases, inl, inr,
  lookup, insert, lookup-insert, Members, subst, ◌≡◌, refl, sym, ap, ◌∙◌,
}
use termin_server.Pages.{Action, Node, node, no_nodes, child}
use termin_server.Pages.Actions.{
  Machine, BoundData, attach_rows, attach_source, attach_table, attach_here, attach, attach_all,
}
use termin_server.Pages.Actions.Kept.{some-injective}
use termin_server.Pages.Actions.Twice.{Apart, attach_rows-twice, insert-insert}

-- A table, alone on its place
abbrev pub table : Text → List Action → Node
table source actions =
    node (codes "data_table")
      (record { source = some source; reference_content = none; row_actions = actions }) no_nodes

bind-insert :
    (source : Text) (shown : List Members) (bound : BoundData) (o : Option (List Members))
    → Option.bind o (λ z. some (insert source z (insert source shown bound)))
      ≡ Option.bind o (λ z. some (insert source z bound))
unfolding Option.bind
bind-insert source shown bound none = refl
bind-insert source shown bound (some z) = ap some (insert-insert source shown z bound)

bind-some : (o : Option BoundData) → Option.bind o (λ d. some d) ≡ o
unfolding Option.bind
bind-some none = refl
bind-some (some d) = refl

module _ (scopes : List Text) (sm_lookup : Text → List Machine) where
  attach_source-insert :
      (source : Text) (y : Action) (ys : List Action) (rows shown : List Members)
      (bound : BoundData)
      → lookup source bound ≡ some rows
      → attach_rows scopes (sm_lookup source) (y ∷ ys) shown
        ≡ attach_rows scopes (sm_lookup source) (y ∷ ys) rows
      → attach_source scopes sm_lookup source (y ∷ ys) (insert source shown bound)
        ≡ attach_source scopes sm_lookup source (y ∷ ys) bound
  unfolding attach_source
  attach_source-insert source y ys rows shown bound e t =
      rw (lookup-insert source source shown bound, attach_source)
        (rw (text_eq_refl source) (
          rw (e, attach_source)
            (rw t (
              bind-insert source shown bound
                (attach_rows scopes (sm_lookup source) (y ∷ ys) rows)))))

  attach_source-twice :
      (source : Text) (x y : Action) (xs ys : List Action) (bound next : BoundData)
      → Apart (sm_lookup source)
      → attach_source scopes sm_lookup source (x ∷ xs) bound ≡ some next
      → attach_source scopes sm_lookup source (y ∷ ys) next
        ≡ attach_source scopes sm_lookup source (y ∷ ys) bound
  unfolding attach_source
  attach_source-twice source x y xs ys bound next a h = elim (Option-cases (lookup source bound)) [
    | inl n ↦
        ap (attach_source scopes sm_lookup source (y ∷ ys))
          (sym (some-injective (rw (n, attach_source) at h)))
    | inr (rows, e) ↦
        let (shown, f, i) =
          (Option.bind-eq-some_iff (attach_rows scopes (sm_lookup source) (x ∷ xs) rows) _).0
            (rw (e, attach_source) at h) in
        subst
          (λ (d : BoundData).
            attach_source scopes sm_lookup source (y ∷ ys) d
            ≡ attach_source scopes sm_lookup source (y ∷ ys) bound)
          (some-injective i)
          (attach_source-insert source y ys rows shown bound e
            (attach_rows-twice scopes (sm_lookup source) a (x ∷ xs) (y ∷ ys) rows shown f))
  ]

  attach-table :
      (source : Text) (x : Action) (xs : List Action) (bound : BoundData)
      → is_empty source ≡ false
      → attach scopes sm_lookup (table source (x ∷ xs)) bound
        ≡ attach_source scopes sm_lookup source (x ∷ xs) bound
  unfolding attach attach_here attach_table
  attach-table source x xs bound n = bind-some _ ∙ rw n refl

  -- Where two tables of a page show the same source, and no state is kept under the key of the
  -- actions, the page's data is that of a page with the second table alone: the actions of the first
  -- one's rows are gone.
  pub attach_all-Overwritten :
      (source : Text) (x y : Action) (xs ys : List Action) (bound next : BoundData)
      → is_empty source ≡ false
      → Apart (sm_lookup source)
      → attach scopes sm_lookup (table source (x ∷ xs)) bound ≡ some next
      → attach_all scopes sm_lookup
          (child (table source (x ∷ xs)) (child (table source (y ∷ ys)) no_nodes))
          bound
        ≡ attach scopes sm_lookup (table source (y ∷ ys)) bound
  unfolding attach Option.bind
  attach_all-Overwritten source x y xs ys bound next n a h =
      rw (h, attach_all)
        (bind-some (attach scopes sm_lookup (table source (y ∷ ys)) next)
          ∙ (attach-table source y ys next n
              ∙ (attach_source-twice source x y xs ys bound next a
                    (sym (attach-table source x xs bound n) ∙ h)
                  ∙ sym (attach-table source y ys bound n))))
