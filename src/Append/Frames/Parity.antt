-- ===== src/Append/Frames/Parity.antt =====
-- The two transports agree, and both keep to scope and owner.
use termin_server.Base.{
  one_of, Bool, true, false, List, [], ◌∷◌, some, Text, is_empty, Bool-cases, inl, inr, Json, ◌||◌,
  ◌≡◌, refl,
}
use termin_server.Identity.Users.{User}
use termin_server.Append.{Backend, Result, done, fail, Server}
use termin_server.Append.Frames.{
  Target, Targets, find_target, Frame, Reply, created, status, may_append, frame_outcome,
  reply_outcome, route_scopes, all_held, request, route_request, handle_payload, is_object,
  handle_append_frame, append_route, Code,
}

abbrev pub is_created : Reply → Bool
is_created (created e) = true
is_created (status n) = false

abbrev pub no_errors : List Code → Bool
no_errors [] = true
no_errors (c ∷ cs) = false

module _ {Db : Type 0} (b : Backend Db) (entry_id now : Text) where
  outcomes :
      (x : Result Json × Server Db)
      → ((frame_outcome b entry_id now x).1 ≡ (reply_outcome b entry_id now x).1)
        × (no_errors (frame_outcome b entry_id now x).0
            ≡ is_created (reply_outcome b entry_id now x).0)
  unfolding frame_outcome reply_outcome
  outcomes (done e, s) = (refl, refl)
  outcomes (fail e, s) = (refl, refl)

  -- The scopes that a route depends on are those that a frame asks for.
  all_held-route_scopes :
      (scope : Text) (user : User) → all_held (route_scopes scope) user ≡ may_append scope user
  unfolding all_held route_scopes may_append
  all_held-route_scopes [] user = refl
  all_held-route_scopes (c ∷ scope) user = elim (Bool-cases (one_of (c ∷ scope) user.scopes)) [
    | inl t ↦ rw t refl
    | inr f ↦ rw f refl
  ]

  -- For a target that is registered, a frame and a request with the same record, user and payload, an
  -- object, leave the same server, and the frame is answered without an error exactly if the request
  -- is answered by 201.
  pub handle_append_frame-append_route :
      (targets : Targets) (target : Target) (user : User) (frame : Frame) (s : Server Db)
      → (is_empty frame.resource || is_empty frame.field) ≡ false
      → is_object b entry_id now frame.payload ≡ true
      → find_target targets frame.resource frame.field ≡ some target
      → ((handle_append_frame b entry_id now targets user frame s).1
          ≡ (append_route b entry_id now frame.resource frame.field target user frame.id
              (some frame.payload)
              s).1)
        × (no_errors (handle_append_frame b entry_id now targets user frame s).0
            ≡ is_created
                (append_route b entry_id now frame.resource frame.field target user frame.id
                  (some frame.payload)
                  s).0)
  unfolding handle_append_frame append_route handle_payload request route_request
  handle_append_frame-append_route targets target user frame s n p t =
      elim (Bool-cases (may_append target.scope user)) [
        | inl m ↦
            rw (n, p, handle_payload, t, m, all_held-route_scopes target.scope user, m) (outcomes _)
        | inr f ↦
            rw (n, p, handle_payload, t, f, all_held-route_scopes target.scope user, f) (refl, refl)
      ]
