-- ===== src/Rules/Entered.antt =====
-- The handlers of an entered state and of a compute that has run: `run_state_entered_event_handlers`
-- and `run_compute_invoked_event_handlers` of termin_server/app.py. A cascade of entered states goes as
-- deep as Python's stack lets it, which is the depth here.
pub mod Shadowed
pub mod Folds
pub mod Cascades
pub mod Moves
pub mod Endless
use termin_server.Base.{
  ℕ, zero, suc, Bool, true, false, not, List, [], ◌∷◌, ◌++◌, ◌&&◌, ◌||◌, ◌==◌, Option, none, some,
  Text, codes, text_eq, one_of, is_empty, if◌then◌else◌, Json, j_null, Members, empty, get, or_json,
  is_true_json,
}
use termin_server.Pages.{add}
use termin_server.Pages.Actions.{Machine, Transition}
use termin_server.Rules.{Action, Rule, Deed, moved, World, note, End, finished, raised, Host}
use termin_server.Rules.Contexts.{parse_structured_fields, entered_context, invoked_context}
use termin_server.Rules.Actions.{run_append, run_update}
use termin_server.Rules.Handlers.{run_all, settle}

-- `s.replace("_", " ")`
unfoldable pub spaced : Text → Text
spaced [] = []
spaced (c ∷ s) = (if c == b'_' then b' ' else c) ∷ spaced s

pub add_scopes : List Transition → List Text → List Text
add_scopes [] scopes = scopes
add_scopes (t ∷ ts) scopes = add_scopes ts (if is_empty t.scope then scopes else add t.scope scopes)

-- The scopes of the gates of a machine
pub machine_scopes : Text → List Machine → List Text → List Text
unfolding add_scopes
machine_scopes field [] scopes = scopes
machine_scopes field (m ∷ ms) scopes =
    machine_scopes field ms
      (if text_eq m.machine_name field then add_scopes m.transitions scopes else scopes)

-- The state that a rule is about: content, machine and state
pub record Entered : Type 0 where
  pub content : Text
  pub machine : Text
  pub state : Text

-- What a transition enters
pub entered_by : Action → Entered
entered_by a = record {
  content = a.transition_content;
  machine = a.transition_field;
  state = a.transition_target;
}

module _ {S : Type 0} (host : Host S) where
  -- The scopes of the caller of a transition: all of the machine, and that of an update
  pub service_scopes : Text → Text → List Text
  unfolding machine_scopes
  service_scopes content_name field =
      let scopes = machine_scopes field (host.sm_lookup content_name) [] in
      let update_scope = host.scope_for_content_verb content_name (codes "update") in
      elim update_scope [ none ↦ scopes | some s ↦ if is_empty s then scopes else add s scopes ]

  -- Whether a slot of a transition is not set
  pub is_unset : Action → Json → Bool
  is_unset a id =
      is_empty a.transition_content
      || (is_empty a.transition_field || (is_empty a.transition_target || not (is_true_json id)))

  -- A transition, and what follows it for the record as it then is
  pub move_record : (Members → World S → World S) → Text → Action → Members → World S → World S
  unfolding service_scopes is_unset
  move_record follow invoked_by a record_ w =
      let id = or_json (get (codes "id") record_) j_null in
      let scopes = service_scopes a.transition_content a.transition_field in
      let done =
        host.transition a.transition_content id a.transition_field a.transition_target scopes
          invoked_by w.store in
      if is_unset a id then w else elim done.0 [
        | raised ↦ record { store = done.1; log = w.log }
        | finished ↦
            let after =
              note (moved a.transition_content id a.transition_field a.transition_target scopes)
                done.1 w in
            elim (host.read a.transition_content id done.1) [
              | none ↦ after
              | some fresh ↦ follow fresh after
            ]
      ]

  -- A transition, and the rules on the state that it enters
  pub run_transition :
      (Entered → Members → World S → World S) → Text → Action → Members → World S → World S
  unfolding move_record entered_by
  run_transition cascade invoked_by a record_ w =
      move_record (cascade (entered_by a)) invoked_by a record_ w

  -- An action of a rule on an entered state. A transition sets the variable `target_state`, which is the
  -- state that the next rules are compared with.
  pub run_entered_action :
      (Entered → Members → World S → World S)
      → Text
      → Text
      → Members
      → Members
      → Action
      → Text × World S
      → End × (Text × World S)
  unfolding run_transition
  run_entered_action cascade invoked_by content_name record_ ctx a (state, w) =
      if not (is_empty a.transition_content)
      then (finished, (a.transition_target, run_transition cascade invoked_by a record_ w))
      else if not (is_empty a.append_field)
      then (let done = run_append host invoked_by none a record_ ctx w in (done.0, (state, done.1)))
      else if not (is_empty a.update_content)
      then (finished, (state, run_update host invoked_by content_name a record_ ctx w))
      else (finished, (state, w))

  -- Whether a rule is about an entered state
  unfoldable pub watches : Entered → Rule → Bool
  unfolding spaced
  watches e r =
      text_eq r.trigger (codes "state-entered")
      && (text_eq r.source_content e.content
          && (text_eq r.trigger_state_field e.machine
              && text_eq (spaced r.trigger_state_value) (spaced e.state)))

  pub run_entered_rule :
      (Entered → Members → World S → World S)
      → Text
      → Text
      → Rule
      → Members
      → Text × World S
      → Text × World S
  unfolding run_entered_action
  run_entered_rule cascade invoked_by content_name r record_ b =
      let ctx = entered_context host content_name record_ in
      let done =
        run_all (run_entered_action cascade invoked_by content_name record_ ctx) r.actions b in
      (done.1.0, settle host (content_name ++ codes "_state_entered_handler") (done.0, done.1.1))

  -- A rule on an entered state; a transition of it changes the state for the next rules.
  pub attend_entered :
      (Entered → Members → World S → World S)
      → Text
      → Rule
      → Entered
      → Members
      → World S
      → Members × (Text × World S)
  unfolding watches run_entered_rule
  attend_entered cascade invoked_by r e record_ w =
      let parsed = parse_structured_fields host e.content record_ in
      if◌then◌else◌ {A = Members × (Text × World S)} (watches e r)
        (parsed, run_entered_rule cascade invoked_by e.content r parsed (e.state, w))
        (record_, (e.state, w))

  pub run_entered_rules :
      (Entered → Members → World S → World S)
      → Text
      → List Rule
      → Entered
      → Members
      → World S
      → World S
  unfolding attend_entered
  run_entered_rules cascade invoked_by [] e record_ w = w
  run_entered_rules cascade invoked_by (r ∷ rs) e record_ w =
      let next = attend_entered cascade invoked_by r e record_ w in
      run_entered_rules cascade invoked_by rs
        (record { content = e.content; machine = e.machine; state = next.1.0 }) next.0 next.1.1

  -- `run_state_entered_event_handlers`; without any stack left, the call raises in a `try`.
  pub run_state_entered : ℕ → Text → List Rule → Entered → Members → World S → World S
  unfolding run_entered_rules
  run_state_entered zero invoked_by rules e record_ w = w
  run_state_entered (suc depth) invoked_by rules e record_ w =
      run_entered_rules (run_state_entered depth invoked_by rules) invoked_by rules e record_ w

  -- An action of a rule on a compute
  pub run_invoked_action : Text → Text → Members → Members → Action → World S → End × World S
  run_invoked_action invoked_by source_content record_ ctx a w = (
    finished,
    if is_empty a.update_content
        then w
        else run_update host invoked_by source_content a record_ ctx w,
  )

  pub is_invoked : Text → Members → Rule → Bool
  is_invoked compute_name ctx r =
      text_eq r.trigger (codes "compute-invoked")
      && (text_eq r.trigger_compute compute_name
          && (is_empty r.trigger_compute_filter
              || elim (host.evaluate r.trigger_compute_filter ctx) [
                | none ↦ false
                | some v ↦ is_true_json v
              ]))

  pub run_invoked_rules : Text → Text → Text → List Rule → Members → Members → World S → World S
  unfolding run_invoked_action is_invoked
  run_invoked_rules invoked_by compute_name source_content [] record_ ctx w = w
  run_invoked_rules invoked_by compute_name source_content (r ∷ rs) record_ ctx w =
      run_invoked_rules invoked_by compute_name source_content rs record_ ctx (
        if is_invoked compute_name ctx r
        then settle host (compute_name ++ codes "_compute_invoked_handler")
            (run_all (run_invoked_action invoked_by source_content record_ ctx) r.actions w)
        else w)

  -- `run_compute_invoked_event_handlers`
  pub run_compute_invoked :
      List Rule → Text → Text → Members → Json → Text → Members → World S → World S
  unfolding run_invoked_rules
  run_compute_invoked rules invoked_by compute_name args result source_content record_ w =
      run_invoked_rules invoked_by compute_name source_content rules record_
        (invoked_context host args result source_content record_) w
