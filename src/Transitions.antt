-- ===== src/Transitions.antt =====
-- The transition endpoint of termin_server/transitions.py and its feedback. The storage, the transition
-- itself, the handlers of an entered state, CEL and `urlencode` are parameters. The state column of a
-- record holds a text, or nothing.
pub mod Messages
pub mod Clients
mod Tests
use termin_server.Base.{
  ℕ, Bool, true, false, not, List, [], ◌∷◌, ◌++◌, ◌&&◌, ◌||◌, Option, none, some, Text, codes,
  text_eq, one_of, is_empty, is_within, ◌==◌, if◌then◌else◌, Json, j_null, j_num, j_str, j_obj,
  Members, empty, member, get, put,
}
use termin_server.Identity.Users.{User}
use termin_server.Transitions.Messages.{Feedback, Step, FeedbackTable, get_feedback, singular_of}

-- `target_state.replace("_", " ")`
pub with_spaces : Text → Text
with_spaces [] = []
with_spaces (c ∷ s) = (if c == b'_' then b' ' else c) ∷ with_spaces s

-- What the transition gives back: the record, or an HTTPException.
pub data Moved : Type 0 where
  moved : Members → Moved
  refused : (status : ℕ) → (detail : Text) → Moved

-- The headers that the endpoint looks at
pub record Headers : Type 0 where
  pub requested_with : Text
  pub accept : Text
  pub referer : Option Text

pub data Reply : Type 0 where
  json_reply : Members → Reply
  redirect : (url : Text) → Reply
  http_error : (status : ℕ) → (detail : Json) → Reply

-- `user.get("id")`: the user dict has no such key.
pub invoked_by : User → Option Text
invoked_by user = none

pub record Host (S : Type 0) : Type 0 where
  pub content_lookup : List Text
  pub contents : List (Text × Option Text)
  pub transition_feedback : FeedbackTable
  pub read : Text → ℕ → S → Option Members
  pub transition : Text → ℕ → Text → Text → User → S → Moved × S
  -- `run_state_entered_event_handlers`, whose exceptions are caught
  pub entered : Option (Text → Text → Text → Members → (invoked_by : Option Text) → S → S)
  -- The text of a CEL value; none if the evaluation raises.
  pub evaluate : Text → Members → Option Text
  -- `urlencode` of the flash, its style and its level
  pub urlencode : Text → Text → Text → Text
  -- The JSON number of a record's id
  pub number : ℕ → Json

abbrev pub is_ajax : Headers → Bool
is_ajax h = text_eq h.requested_with (codes "XMLHttpRequest")

abbrev pub has_referer : Headers → Bool
has_referer h = elim h.referer [ some r ↦ not (is_empty r) | none ↦ false ]

pub is_browser_form : Headers → Bool
is_browser_form h = has_referer h && (is_within (codes "text/html") h.accept && not (is_ajax h))

abbrev pub or_members : Option Members → Members → Members
or_members none d = d
or_members (some empty) d = d
or_members (some (member k v m)) d = member k v m

-- The text in a state column; "" where it holds none
abbrev pub state_text : Option Json → Text
state_text (some (j_str s)) = s
state_text v = []

module _ {S : Type 0} (host : Host S) where
  -- What an expression sees
  pub message_context : Members → Text → Text → Text → Members
  unfolding singular_of
  message_context record_ from to content =
      let ctx = put (codes "to_state") (j_str to) (put (codes "from_state") (j_str from) record_) in
      elim record_ [
        | empty ↦ ctx
        | member k v d ↦ put (singular_of content host.contents) (j_obj (member k v d)) ctx
      ]

  pub eval_feedback_message : Feedback → Members → Text → Text → Text → Text
  unfolding message_context
  eval_feedback_message f record_ from to content =
      if f.is_expr
      then elim (host.evaluate f.message (message_context record_ from to content)) [
        | some t ↦ t
        | none ↦ f.message
      ]
      else f.message

  pub dismiss_param : Option Text → Text
  dismiss_param none = []
  dismiss_param (some n) = codes "&_flash_dismiss=" ++ n

  pub append_flash_params : Text → List Feedback → Members → Text → Text → Text → Text
  unfolding eval_feedback_message dismiss_param
  append_flash_params url [] record_ from to content = url
  append_flash_params url (f ∷ fs) record_ from to content =
      let message = eval_feedback_message f record_ from to content in
      let separator = if is_within (codes "?") url then codes "&" else codes "?" in
      url
      ++ (separator
          ++ (host.urlencode message f.style f.trigger ++ dismiss_param f.dismiss_seconds))

  pub put_dismiss : Option Text → Members → Members
  put_dismiss none d = d
  put_dismiss (some n) d = put (codes "_flash_dismiss") (j_num n) d

  pub put_flash : Text → Feedback → Text → Members → Members
  unfolding put_dismiss
  put_flash message f level d = put_dismiss f.dismiss_seconds (
      put (codes "_flash_level") (j_str level)
        (put (codes "_flash_style") (j_str f.style) (put (codes "_flash") (j_str message) d)))

  -- The feedback of a step, where the state before is known
  pub feedback_of : Step → Text → List Feedback
  unfolding get_feedback
  feedback_of step trigger =
      if is_empty step.from_state then [] else get_feedback host.transition_feedback step trigger

  pub add_success : List Feedback → Members → Step → Members → Members
  unfolding put_flash eval_feedback_message
  add_success [] record_ step d = d
  add_success (f ∷ fs) record_ step d =
      let message = eval_feedback_message f record_ step.from_state step.to_state step.content in
      if is_empty message then d else put_flash message f (codes "success") d

  pub add_error : List Feedback → Members → Step → Members → Members
  unfolding put_flash eval_feedback_message
  add_error [] record_ step d = d
  add_error (f ∷ fs) record_ step d =
      put_flash (eval_feedback_message f record_ step.from_state step.to_state step.content) f
        (codes "error") d

  abbrev pub referer_of : Headers → Text
  referer_of h = elim h.referer [ some r ↦ r | none ↦ codes "/" ]

  pub go_back : Headers → List Feedback → Members → Step → Reply
  unfolding append_flash_params
  go_back h fs record_ step =
      redirect
        (append_flash_params (referer_of h) fs record_ step.from_state step.to_state step.content)

  pub success_reply : Headers → ℕ → Members → Members → Step → Reply
  unfolding feedback_of add_success go_back
  success_reply h id result record_ step =
      let fs = feedback_of step (codes "success") in
      if is_ajax h
      then json_reply (
          add_success fs record_ step
            (put step.machine (j_str step.to_state) (member (codes "id") (host.number id) empty)))
      else if is_browser_form h
      then go_back h fs record_ step
      else json_reply result

  pub error_reply : Headers → ℕ → Text → Members → Step → Reply
  unfolding feedback_of add_error go_back
  error_reply h status detail record_ step =
      let fs = feedback_of step (codes "error") in
      if is_ajax h
      then http_error status
          (j_obj (add_error fs record_ step (member (codes "detail") (j_str detail) empty)))
      else if is_browser_form h
      then go_back h fs record_ step
      else http_error status (j_str detail)

  -- The handlers of the entered state, on the record as it is then
  pub dispatch_entered : ℕ → User → Members → Step → S → S
  unfolding invoked_by
  dispatch_entered id user result step s = elim host.entered [
    | none ↦ s
    | some handler ↦
        handler step.content step.machine step.to_state
          (or_members (host.read step.content id s) result) (invoked_by user) s
  ]

  pub conclude_move : Headers → User → ℕ → Members → Step → Moved × S → Reply × S
  unfolding dispatch_entered success_reply error_reply
  conclude_move h user id record_ step (moved result, s) =
      (success_reply h id result record_ step, dispatch_entered id user result step s)
  conclude_move h user id record_ step (refused status detail, s) =
      (error_reply h status detail record_ step, s)

  abbrev pub step_of : Text → Text → Text → Members → Step
  step_of content machine target record_ = record {
    content = content;
    machine = machine;
    from_state = state_text (get machine record_);
    to_state = target;
  }

  -- The transition, from the record as it was before
  pub run_move : Headers → User → Text → Text → ℕ → Text → Members → S → Reply × S
  unfolding conclude_move
  run_move h user content machine id target record_ s =
      conclude_move h user id record_ (step_of content machine target record_)
        (host.transition content id machine target user s)

  -- `generic_transition`
  pub generic_transition : Headers → User → Text → Text → ℕ → Text → S → Reply × S
  unfolding run_move with_spaces
  generic_transition h user content machine id target_state s =
      if one_of content host.content_lookup
      then run_move h user content machine id (with_spaces target_state)
          (or_members (host.read content id s) empty) s
      else (http_error 404 (j_str (codes "Unknown content: " ++ content)), s)
