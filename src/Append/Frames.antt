-- ===== src/Append/Frames.antt =====
-- The two transports of an append: `_handle_append_frame` of
-- termin_server/websocket_manager.py, and `append_route` of termin_server/routes.py. The resource and
-- the field of a frame are texts or absent; the texts of error messages are left out.
pub mod Parity
pub mod Guarded
use termin_server.Base.{
  ℕ, Bool, true, false, List, [], ◌∷◌, ◌++◌, Option, none, some, Text, text_eq, one_of, is_empty,
  ◌&&◌, ◌||◌, Value, Json, j_obj, Members, if◌then◌else◌,
}
use termin_server.Identity.Users.{User, require_scope}
use termin_server.Append.{
  Backend, AppendError, missing_id, body_not_object, invalid_kind, body_required, not_found,
  vanished, internal, Result, done, fail, RowFilter, Server, Request, do_append,
}

pub record Target : Type 0 where
  pub scope : Text
  pub row_filter : Option RowFilter

-- `ctx._append_targets`, by content and field
abbrev pub Targets : Type 0
Targets = List (Text × Text × Target)

unfoldable pub find_target : Targets → Text → Text → Option Target
find_target [] content field = none
find_target ((c, f, t) ∷ targets) content field =
    if text_eq c content && text_eq f field then some t else find_target targets content field

-- `_make_append_route` puts the target of a route in the table.
pub register_target : Text → Text → Target → Targets → Targets
register_target content field target targets = (content, field, target) ∷ targets

pub record Frame : Type 0 where
  pub ref : Json
  pub resource : Text
  pub id : Value
  pub field : Text
  pub payload : Json

pub data Code : Type 0 where
  invalid_frame target_not_found forbidden validation_error record_not_found internal_error : Code

-- The code of the error frame for an error of `_do_append`.
pub error_code : AppendError → Code
error_code missing_id = validation_error
error_code body_not_object = validation_error
error_code invalid_kind = validation_error
error_code body_required = validation_error
error_code not_found = record_not_found
error_code vanished = internal_error
error_code internal = internal_error

-- The status of the response for it.
pub error_status : AppendError → ℕ
error_status missing_id = 400
error_status body_not_object = 400
error_status invalid_kind = 400
error_status body_required = 400
error_status not_found = 404
error_status vanished = 404
error_status internal = 500

pub data Reply : Type 0 where
  created : Json → Reply
  status : ℕ → Reply

-- Whether the user may append by a frame; a scope that is empty is none.
unfoldable pub may_append : Text → User → Bool
may_append scope user = is_empty scope || one_of scope user.scopes

-- `deps` of `_make_append_route`: the scopes that a route depends on
unfoldable pub route_scopes : Text → List Text
route_scopes [] = []
route_scopes (c ∷ scope) = (c ∷ scope) ∷ []

-- Whether `require_scope` lets the user pass, for each of them
unfoldable pub all_held : List Text → User → Bool
all_held [] user = true
all_held (scope ∷ scopes) user =
    let rest = all_held scopes user in if one_of scope user.scopes then rest else false

module _ {Db : Type 0} (b : Backend Db) (entry_id now : Text) where
  -- What `_handle_append_frame` asks `_do_append` for.
  unfoldable pub request : Text → Value → Text → User → Target → Request
  request content key field user target = record {
    content = content;
    key = key;
    field = field;
    user = some user;
    row_filter = target.row_filter;
    entry_id = entry_id;
    now = now;
  }

  -- What `append_route` asks it for, with the path's parameter for the key.
  unfoldable pub route_request : Text → Text → Option RowFilter → User → Value → Request
  route_request content field row_filter user key_val = record {
    content = content;
    key = key_val;
    field = field;
    user = some user;
    row_filter = row_filter;
    entry_id = entry_id;
    now = now;
  }

  unfoldable pub frame_outcome : Result Json × Server Db → List Code × Server Db
  unfolding error_code
  frame_outcome (done entry, s) = ([], s)
  frame_outcome (fail e, s) = (error_code e ∷ [], s)

  unfoldable pub reply_outcome : Result Json × Server Db → Reply × Server Db
  unfolding error_status
  reply_outcome (done entry, s) = (created entry, s)
  reply_outcome (fail e, s) = (status (error_status e), s)

  -- `_handle_append_frame` behind the look at the payload
  unfoldable pub handle_payload : Targets → User → Frame → Server Db → List Code × Server Db
  unfolding find_target may_append request frame_outcome
  handle_payload targets user frame s = elim (find_target targets frame.resource frame.field) [
    | none ↦ (target_not_found ∷ [], s)
    | some target ↦
        if may_append target.scope user
        then frame_outcome
            (do_append b (request frame.resource frame.id frame.field user target) frame.payload s)
        else (forbidden ∷ [], s)
  ]

  abbrev pub is_object : Json → Bool
  is_object (j_obj d) = true
  is_object payload = false

  -- `_handle_append_frame`, with the codes of the error frames that it sends
  unfoldable pub handle_append_frame : Targets → User → Frame → Server Db → List Code × Server Db
  unfolding handle_payload
  handle_append_frame targets user frame s =
      if is_empty frame.resource || is_empty frame.field
      then (invalid_frame ∷ [], s)
      else if is_object frame.payload
      then handle_payload targets user frame s
      else (invalid_frame ∷ [], s)

  -- `append_route` of one target, behind the dependency on its scope; no payload is no JSON.
  unfoldable pub append_route :
      Text → Text → Target → User → Value → Option Json → Server Db → Reply × Server Db
  unfolding route_scopes all_held route_request reply_outcome
  append_route content field target user key none s =
      if all_held (route_scopes target.scope) user then (status 400, s) else (status 403, s)
  append_route content field target user key (some payload) s =
      if all_held (route_scopes target.scope) user
      then reply_outcome
          (do_append b (route_request content field target.row_filter user key) payload s)
      else (status 403, s)
