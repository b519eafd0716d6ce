-- ===== src/Rules/Actions/Owners.antt =====
-- What an owner-keyed update of a rule may write: the row of its principal, or a new one that is the
-- principal's. The model is of `_execute_owner_keyed_update` in termin_server/app.py.
use termin_server.Base.{
  false, List, [], ◌∷◌, ◌||◌, none, some, Text, codes, text_eq, text_eq_refl, is_empty, Json,
  j_null, j_str, Members, empty, member, get, put, without, or_json, Bool-cases, Option-cases, ap,
  ◌∙◌, ◌⊎◌, ◌≡◌, ◌≢◌, subst, refl, inl, inr,
}
use termin_server.Rules.{Action, updated, created, World, note, Host}
use termin_server.Rules.Contexts.{find_content, build_default_record, put_all}
use termin_server.Rules.Actions.{
  is_no_record, is_anonymous, principal_of, existing_of, fresh_of, patch_of, assigned, bind_target,
  update_existing, create_fresh, upsert, owner_keyed_update,
}

-- The identifier of a row
abbrev id_of : Members → Json
id_of row = or_json (get (codes "id") row) j_null

-- A principal that can own a record
abbrev pub IsNamed : Text → Type 0
IsNamed principal = (principal ≢ []) × (principal ≢ codes "anonymous")

-- What becomes of a world for a principal: nothing; or, for one that can own a record, an update of the first row that the query for the
-- principal gives, or a creation, the query giving no row, of a record of the principal under a patch.
pub data Owned {S : Type 0} (host : Host S) (a : Action) (principal : Text) (w : World S)
    : World S → Type 0 where
  untouched : Owned host a principal w w
  row_updated :
      (row : Members) (rows : List Members) (patch : Members)
      → IsNamed principal
      → host.query a.update_content a.update_target_owner principal w.store ≡ some (row ∷ rows)
      → is_no_record patch ≡ false
      → Owned host a principal w (
          note
            (updated a.update_content (id_of row) patch)
            (host.update a.update_content (id_of row) patch w.store)
            w)
  row_created :
      (rows : List Members) (target patch : Members)
      → IsNamed principal
      → host.query a.update_content a.update_target_owner principal w.store ≡ some rows
      → existing_of rows ≡ none
      → get a.update_target_owner target ≡ some (j_str principal)
      → is_no_record patch ≡ false
      → Owned host a principal w (
          note
            (created a.update_content (without (codes "id") (put_all patch target)))
            (host.create a.update_content (without (codes "id") (put_all patch target)) w.store)
            w)

is_anonymous-IsNamed : (principal : Text) → is_anonymous principal ≡ false → IsNamed principal
unfolding is_anonymous
is_anonymous-IsNamed principal h = (
  (λ e. let k = subst (λ p. is_anonymous p ≡ false) e h in absurd (cc)),
  λ e. let k = subst (λ p. is_anonymous p ≡ false) e h in absurd (cc),
)

get-put : (k : Text) (v : Json) (d : Members) → get k (put k v d) ≡ some v
get-put k v empty = rw (text_eq_refl k) refl
get-put k v (member j u d) = elim (Bool-cases (text_eq j k)) [
  | inl t ↦ rw t (rw t refl)
  | inr f ↦ rw f (rw f (get-put k v d))
]

existing-cases :
    (rows : List Members)
    → (existing_of rows ≡ none)
      ⊎ ((row : Members) × (more : List Members) × (rows ≡ row ∷ more)
          × (existing_of rows ≡ some row))
unfolding existing_of
existing-cases [] = inl refl
existing-cases (row ∷ more) = elim (Bool-cases (is_no_record row)) [
  | inl t ↦ inl (rw t refl)
  | inr f ↦ inr (row, more, refl, rw f refl)
]

module _ {S : Type 0} (host : Host S) where
  patch-cases :
      (a : Action) (ctx : Members)
      → (patch_of host a ctx ≡ none)
        ⊎ ((patch : Members) × (patch_of host a ctx ≡ some patch) × (is_no_record patch ≡ false))
  unfolding patch_of
  patch-cases a ctx = elim (Option-cases (assigned host a.update_assignments ctx empty)) [
    | inl n ↦ inl (rw (n, patch_of) refl)
    | inr (patch, e) ↦ elim (Bool-cases (is_no_record patch)) [
      | inl t ↦ inl (rw (e, patch_of, t) refl)
      | inr f ↦ inr (patch, rw (e, patch_of, f) refl, f)
    ]
  ]

  fresh-cases :
      (a : Action) (principal : Text)
      → (fresh_of host a principal ≡ none)
        ⊎ ((target : Members) × (fresh_of host a principal ≡ some target)
            × (get a.update_target_owner target ≡ some (j_str principal)))
  unfolding fresh_of
  fresh-cases a principal = elim (Option-cases (find_content a.update_content host.contents)) [
    | inl n ↦ inl (rw (n, fresh_of) refl)
    | inr (c, e) ↦ inr (
      put a.update_target_owner (j_str principal) (build_default_record host c.fields empty),
      rw (e, fresh_of) refl,
      get-put a.update_target_owner (j_str principal) (build_default_record host c.fields empty),
    )
  ]

  update_existing-Owned :
      (a : Action) (principal : Text) (row : Members) (rows : List Members) (ctx : Members)
      (w : World S)
      → IsNamed principal
      → host.query a.update_content a.update_target_owner principal w.store ≡ some (row ∷ rows)
      → Owned host a principal w (update_existing host a row ctx w)
  unfolding update_existing
  update_existing-Owned a principal row rows ctx w g q =
      elim (patch-cases a (bind_target host a.update_content row ctx)) [
        | inl n ↦ rw (n, update_existing) untouched
        | inr (patch, e, f) ↦ rw (e, update_existing) (row_updated row rows patch g q f)
      ]

  create_fresh-Owned :
      (a : Action) (principal : Text) (rows : List Members) (ctx : Members) (w : World S)
      → IsNamed principal
      → host.query a.update_content a.update_target_owner principal w.store ≡ some rows
      → existing_of rows ≡ none
      → Owned host a principal w (create_fresh host a principal ctx w)
  unfolding create_fresh
  create_fresh-Owned a principal rows ctx w g q n = elim (fresh-cases a principal) [
    | inl m ↦ rw (m, create_fresh) untouched
    | inr (target, e, o) ↦
        rw (e, create_fresh)
          (elim (patch-cases a (bind_target host a.update_content target ctx)) [
            | inl m ↦ rw m untouched
            | inr (patch, p, f) ↦ rw p (row_created rows target patch g q n o f)
          ])
  ]

  upsert-Owned :
      (a : Action) (principal : Text) (ctx : Members) (w : World S)
      → IsNamed principal
      → Owned host a principal w (upsert host a principal ctx w)
  unfolding upsert
  upsert-Owned a principal ctx w g =
      elim (Option-cases (host.query a.update_content a.update_target_owner principal w.store)) [
        | inl n ↦ rw (n, upsert) untouched
        | inr (rows, e) ↦
            rw (e, upsert)
              (elim (existing-cases rows) [
                | inl n ↦ rw n (create_fresh-Owned a principal rows ctx w g e n)
                | inr (row, more, r, x) ↦
                    rw x (update_existing-Owned a principal row more ctx w g (e ∙ ap some r))
              ])
      ]

  pub owner_keyed_update-Owned :
      (invoked_by content_name : Text) (a : Action) (record_ ctx : Members) (w : World S)
      → Owned host a
          (principal_of host invoked_by content_name record_)
          w
          (owner_keyed_update host invoked_by content_name a record_ ctx w)
  unfolding owner_keyed_update
  owner_keyed_update-Owned invoked_by content_name a record_ ctx w =
      let principal = principal_of host invoked_by content_name record_ in
      elim (Bool-cases (is_empty a.update_content || is_empty a.update_target_owner)) [
        | inl t ↦ rw t untouched
        | inr f ↦ rw f (elim (Bool-cases (is_anonymous principal)) [
          | inl t ↦ rw t untouched
          | inr g ↦ rw g (upsert-Owned a principal ctx w (is_anonymous-IsNamed principal g))
        ])
      ]
