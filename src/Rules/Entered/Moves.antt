-- ===== src/Rules/Entered/Moves.antt =====
-- Rules that move a record from one state to another, and the transitions of a log. The model is of
-- `run_state_entered_event_handlers` in termin_server/app.py.
use termin_server.Base.{
  Json, ℕ, suc, ◌+◌, arith, List, [], ◌∷◌, ◌++◌, codes, Text, get, or_json, j_null, Members, ◌≡◌,
}
use termin_server.Rules.{
  Action, Rule, Deed, appended, updated, created, inserted, sent, moved, published, started,
}

-- The transitions of a log
abbrev pub moves : List Deed → ℕ
moves [] = 0
moves (moved c id m t scopes ∷ log) = suc (moves log)
moves (appended c f id p a ∷ log) = moves log
moves (updated c id p ∷ log) = moves log
moves (created c p ∷ log) = moves log
moves (inserted c p ∷ log) = moves log
moves (sent c p ∷ log) = moves log
moves (published t ∷ log) = moves log
moves (started c b p e ∷ log) = moves log

-- A transition to a state
abbrev pub move_to : Text → Text → Text → Action
move_to content machine target = record {
  transition_content = content;
  transition_field = machine;
  transition_target = target;
  append_field = [];
  append_content = [];
  append_kind = [];
  append_body_expr = [];
  append_metadata = [];
  update_content = [];
  update_target_kind = [];
  update_target_owner = [];
  update_assignments = [];
  column_mapping = [];
  target_content = [];
  send_channel = [];
}

-- The rule that moves a record on from a state
abbrev pub move_on : Text → Text → Text → Text → Rule
move_on content machine state target = record {
  trigger = codes "state-entered";
  condition_expr = [];
  source_content = content;
  trigger_state_field = machine;
  trigger_state_value = state;
  trigger_compute = [];
  trigger_compute_filter = [];
  actions = move_to content machine target ∷ [];
}

pub moves-append : (log more : List Deed) → moves (log ++ more) ≡ moves log + moves more
moves-append [] more = omega arith
moves-append (moved c id m t scopes ∷ log) more = let h = moves-append log more in omega arith
moves-append (appended c f id p a ∷ log) more = moves-append log more
moves-append (updated c id p ∷ log) more = moves-append log more
moves-append (created c p ∷ log) more = moves-append log more
moves-append (inserted c p ∷ log) more = moves-append log more
moves-append (sent c p ∷ log) more = moves-append log more
moves-append (published t ∷ log) more = moves-append log more
moves-append (started c b p e ∷ log) more = moves-append log more

-- The identifier of a record
abbrev pub id_of : Members → Json
id_of record_ = or_json (get (codes "id") record_) j_null
