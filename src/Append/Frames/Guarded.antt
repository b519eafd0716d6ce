-- ===== src/Append/Frames/Guarded.antt =====
-- Whom an append frame of a socket lets write.
use termin_server.Base.{
  arith, false, [], ◌∷◌, one_of, lookup, Option, none, Value, null, bool, int, float, str, json,
  text_eq_iff, ap, sym, true, some, Text, is_empty, Option-cases, Bool-cases, inl, inr, ◌⊎◌, ◌||◌,
  Json, ◌≡◌, refl, ◌∙◌,
}
use termin_server.Identity.Users.{User}
use termin_server.Append.{
  Backend, Row, Result, done, fail, RowFilter, Server, do_append, prepare, passes, is_owner,
}
use termin_server.Append.Stored.{prepare-done, Result-cases}
use termin_server.Append.Frames.{
  Target, Targets, find_target, Frame, may_append, request, frame_outcome, handle_payload,
  is_object, handle_append_frame,
}

module _ {Db : Type 0} (b : Backend Db) (entry_id now : Text) (targets : Targets) (user : User)
    (frame : Frame) (s : Server Db) where
  -- The user may append: the target is registered, its scope is empty or one that the user holds,
  -- the record is there, and where the target asks for the owner the record's field holds the user's id.
  abbrev pub MayWrite : Type 0
  MayWrite =
      (target : Target) × (find_target targets frame.resource frame.field ≡ some target)
      × ((target.scope ≡ []) ⊎ (one_of target.scope user.scopes ≡ true))
      × (row : Row) × (b.select frame.resource frame.id s.db ≡ some row)
      × ((f : RowFilter) (owner_field : Text)
          → target.row_filter ≡ some f
          → f.is_ownership ≡ true
          → f.field ≡ some owner_field
          → is_empty owner_field ≡ false
          → lookup owner_field row ≡ some (str user.the_user.id))

  is_owner-held :
      (owner : Option Value)
      → is_owner (some user) owner ≡ true
      → owner ≡ some (str user.the_user.id)
  unfolding is_owner
  is_owner-held none h = absurd (ground arith)
  is_owner-held (some (str t)) h = ap (λ u. some (str u)) ((text_eq_iff t user.the_user.id).0 h)
  is_owner-held (some null) h = absurd (ground arith)
  is_owner-held (some (bool x)) h = absurd (ground arith)
  is_owner-held (some (int x)) h = absurd (ground arith)
  is_owner-held (some (float x)) h = absurd (ground arith)
  is_owner-held (some (json x)) h = absurd (ground arith)

  passes-owner :
      (filter : Option RowFilter) (row : Row) (f : RowFilter) (owner_field : Text)
      → passes (some user) filter row ≡ true
      → filter ≡ some f
      → f.is_ownership ≡ true
      → f.field ≡ some owner_field
      → is_empty owner_field ≡ false
      → lookup owner_field row ≡ some (str user.the_user.id)
  unfolding passes
  passes-owner filter row f owner_field p e o n h =
      is_owner-held (lookup owner_field row)
        (sym (rw (n, h, o) refl) ∙ (sym (ap (λ x. passes (some user) x row) e) ∙ p))

  may_append-held :
      (scope : Text)
      → may_append scope user ≡ true
      → (scope ≡ []) ⊎ (one_of scope user.scopes ≡ true)
  unfolding may_append is_empty
  may_append-held [] h = inl refl
  may_append-held (c ∷ cs) h = inr h

  do_append-MayWrite :
      (target : Target)
      → find_target targets frame.resource frame.field ≡ some target
      → may_append target.scope user ≡ true
      → ((do_append b
            (request b entry_id now frame.resource frame.id frame.field user target)
            frame.payload
            s).1
          ≡ s)
        ⊎ MayWrite
  unfolding do_append request
  do_append-MayWrite target t m =
      elim (Result-cases (
        prepare b (request b entry_id now frame.resource frame.id frame.field user target)
          frame.payload s.db)) [
            | inl (e, f) ↦ inl (rw (f, do_append) refl)
            | inr (prepared, d) ↦
                let (row, w, p, a) =
                  prepare-done b
                    (request b entry_id now frame.resource frame.id frame.field user target)
                    frame.payload s.db prepared d in
                inr (
                  target,
                  t,
                  may_append-held target.scope m,
                  row,
                  w,
                  λ f owner_field. passes-owner target.row_filter row f owner_field p,
                )
          ]

  frame_outcome-state : (x : Result Json × Server Db) → (frame_outcome b entry_id now x).1 ≡ x.1
  unfolding frame_outcome
  frame_outcome-state (done e, s') = refl
  frame_outcome-state (fail e, s') = refl

  handle_payload-MayWrite : ((handle_payload b entry_id now targets user frame s).1 ≡ s) ⊎ MayWrite
  unfolding handle_payload
  handle_payload-MayWrite = elim (Option-cases (find_target targets frame.resource frame.field)) [
    | inl n ↦ inl (rw (n, handle_payload) refl)
    | inr (target, t) ↦ elim (Bool-cases (may_append target.scope user)) [
      | inl m ↦ elim (do_append-MayWrite target t m) [
        | inl same ↦ inl (rw (t, handle_payload) (rw m (frame_outcome-state _ ∙ same)))
        | inr may ↦ inr may
      ]
      | inr f ↦ inl (rw (t, handle_payload) (rw f refl))
    ]
  ]

  -- An append frame leaves the server as it was, unless its resource and field have a target, the
  -- target's scope is empty or one of the user's, the record is there, and, if the target's filter is
  -- that of ownership with a field that is not empty, that field of the record holds the user's id.
  pub handle_append_frame-MayWrite :
      ((handle_append_frame b entry_id now targets user frame s).1 ≡ s) ⊎ MayWrite
  unfolding handle_append_frame
  handle_append_frame-MayWrite =
      elim (Bool-cases (is_empty frame.resource || is_empty frame.field)) [
        | inl e ↦ inl (rw (e, handle_append_frame) refl)
        | inr n ↦ elim (Bool-cases (is_object b entry_id now frame.payload)) [
          | inr f ↦ inl (rw (n, f, handle_append_frame) refl)
          | inl o ↦ elim handle_payload-MayWrite [
            | inl same ↦ inl (rw (n, o, handle_append_frame) same)
            | inr may ↦ inr may
          ]
        ]
      ]
