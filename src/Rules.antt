-- ===== src/Rules.antt =====
-- The rules of an application (`When …`): the event handlers of termin_server/app.py. What they need
-- from outside, the storage, CEL, `_do_append` and the state machine, is the record `Host`; what they do
-- is logged. A missing text of the compiled application is "".
pub mod Contexts
pub mod Actions
pub mod Handlers
pub mod Entered
mod Tests
use termin_server.Base.{
  ℕ, Bool, true, false, List, [], ◌∷◌, ◌++◌, Option, none, some, Text, Json, Members, Dict,
}
use termin_server.Pages.Actions.{Machine}

-- An action in the body of a rule. The first of its slots that is set says what it does.
pub record Action : Type 0 where
  pub transition_content : Text
  pub transition_field : Text
  pub transition_target : Text
  pub append_field : Text
  pub append_content : Text
  pub append_kind : Text
  pub append_body_expr : Text
  pub append_metadata : List (Text × Text)
  pub update_content : Text
  pub update_target_kind : Text
  pub update_target_owner : Text
  pub update_assignments : List (Text × Text)
  pub column_mapping : List (Text × Text)
  pub target_content : Text
  pub send_channel : Text

pub record Rule : Type 0 where
  pub trigger : Text
  pub condition_expr : Text
  pub source_content : Text
  pub trigger_state_field : Text
  pub trigger_state_value : Text
  pub trigger_compute : Text
  pub trigger_compute_filter : Text
  pub actions : List Action

pub record Field : Type 0 where
  pub name : Text
  pub business_type : Text
  pub default_value : Option Json

pub record Content : Type 0 where
  pub name : Text
  pub fields : List Field
  -- The field of its ownership
  pub owner : Text
  -- Whether its ownership is declared unique; no handler reads it.
  pub is_unique : Bool

-- What a handler does.
pub data Deed : Type 0 where
  appended : (content field : Text) → (id : Json) → (payload : Members) → (appender : Json) → Deed
  updated : (content : Text) → (id : Json) → (patch : Members) → Deed
  created : (content : Text) → (payload : Members) → Deed
  inserted : (content : Text) → Members → Deed
  sent : (channel : Text) → Members → Deed
  moved : (content : Text) → (id : Json) → (machine target : Text) → (scopes : List Text) → Deed
  published : (type_ : Text) → Deed
  started :
      (compute : Text) → (anonymous : Bool) → (record_ : Members) → (entry : Option Members) → Deed

pub record World (S : Type 0) : Type 0 where
  pub store : S
  pub log : List Deed

-- How an append or an insertion ends: an error that the action does not catch leaves the rule.
pub data End : Type 0 where
  finished : End
  raised : End

pub record Host (S : Type 0) : Type 0 where
  pub contents : List Content
  -- `ctx.singular_lookup`; "" for an unknown content
  pub singular_lookup : Text → Text
  pub sm_lookup : Text → List Machine
  pub scope_for_content_verb : Text → Text → Option Text
  -- The value of a CEL expression; none if the evaluation raises.
  pub evaluate : Text → Members → Option Json
  pub loads : Text → Option Json
  pub str : Json → Text
  pub lower : Text → Text
  pub capitalize : Text → Text
  -- `storage.query` for one row by its owner; none if it raises.
  pub query : Text → Text → Text → S → Option (List Members)
  -- `storage.read`, {} for no record; none if it raises.
  pub read : Text → Json → S → Option Members
  -- The writes; an exception of the first two is caught where they are called.
  pub update : Text → Json → Members → S → S
  pub create : Text → Members → S → S
  pub insert_raw : Text → Members → S → End × S
  pub append : Text → Text → Json → Members → Json → S → End × S
  -- `do_state_transition` with the scopes and the identifier of a user
  pub transition : Text → Json → Text → Text → List Text → Text → S → End × S

-- A deed, with what it makes of the store
abbrev pub note : {S : Type 0} → Deed → S → World S → World S
note deed store w = record { store = store; log = w.log ++ deed ∷ [] }
