-- ===== src/Agent/Tools.antt =====
-- The tools that an agent may call: `_execute_tool`, `_on_writeback` and `_should_halt` of
-- `_execute_agent_compute` in termin_server/compute_runner.py. What a storage operation or a transition
-- answers, the check of boundaries, and the evaluation of CEL are parameters; the operations that are
-- carried out are logged.
pub mod Grants
pub mod Refusals
pub mod Orphans
pub mod Answered
mod Tests
use termin_server.Base.{
  is_true_json, or_json, ℕ, suc, Bool, true, false, not, ◌||◌, List, [], ◌∷◌, ◌++◌, Option, none,
  some, Text, codes, text_eq, one_of, is_empty, Json, j_null, j_bool, j_num, j_str, j_arr, j_obj,
  Jsons, nil, cons, Members, empty, member, get, put, if◌then◌else◌,
}
use termin_server.Agent.{Done, value, raised, Entry, Callbacks}

-- What a tool call does outside the agent.
pub data Effect : Type 0 where
  query : (content : Text) → Json → Effect
  create : (content : Text) → Json → Effect
  update : (content : Text) → (id data_ : Json) → Effect
  transition : (content : Text) → (machine id target : Json) → Effect
  invoke : (compute body : Text) → Members → Effect

-- A compute that an agent may invoke.
pub record Target : Type 0 where
  pub provider : Text
  pub body_lines : List Text
  pub input_params : List Text
  pub output_params : List Text

-- The declaration of an agent's compute, and what the application knows.
pub record Compute : Type 0 where
  pub accesses : List Text
  pub reads : List Text
  pub invokes : List Text
  -- `check_boundary_access` for this compute: the error, if any.
  pub boundary : Text → Option Text
  -- The machines of a content, and the computes, by name.
  pub machines : Text → List Text
  pub targets : Text → Option Target

-- The answers from outside.
pub record Outside : Type 0 where
  pub perform : Effect → Done
  -- The value of a CEL body (none if it fails), and the context that it leaves.
  pub evaluate : Text → Members → Option Json × Members
  pub strip : Text → Text
  pub str : Json → Text

-- An agent's run: the reason of `refusal_state`, what was done, and what was written back.
pub record Run : Type 0 where
  pub refusal : Option Text
  pub effects : List Effect
  pub written : List Entry

-- {"error": …}
abbrev pub error_of : Text → Done
error_of message = value (j_obj (member (codes "error") (j_str message) empty))

-- `refusal_state.get("reason")` as a truth value
abbrev pub is_refused : Run → Bool
is_refused r = elim r.refusal [ none ↦ false | some reason ↦ not (is_empty reason) ]

-- The name of a content, and whether it is among the granted ones; a list or a dict has no hash.
pub data Named : Type 0 where
  granted : Text → Named
  denied : Named
  unhashable : Named

abbrev pub test_name : List Text → Text → Named
test_name names s = if one_of s names then granted s else denied

pub check_name : List Text → Option Json → Named
check_name names none = test_name names []
check_name names (some (j_str s)) = test_name names s
check_name names (some (j_arr xs)) = unhashable
check_name names (some (j_obj d)) = unhashable
check_name names (some name) = denied

module _ (comp : Compute) (out : Outside) where
  -- Carries out an effect, and logs it.
  pub perform_effect : Effect → Run → Done × Run
  perform_effect e r = (out.perform e, record r { effects = r.effects ++ e ∷ [] })

  -- What a granted name leads to, once the boundary lets it pass.
  pub behind_boundary : Text → (Run → Done × Run) → Run → Done × Run
  behind_boundary content go r = elim (comp.boundary content) [
    | some message ↦ (error_of message, r)
    | none ↦ go r
  ]

  -- The guards that each content tool starts with.
  pub guarded : List Text → Members → (Text → Run → Done × Run) → Run → Done × Run
  unfolding check_name behind_boundary
  guarded names input go r = elim (check_name names (get (codes "content_name") input)) [
    | denied ↦ (error_of (codes "Access denied"), r)
    | unhashable ↦ (raised (codes "unhashable type"), r)
    | granted content ↦ behind_boundary content (go content) r
  ]

  -- `state_transition`, behind its guards: the machine is the one that is named, or the only one.
  pub only_machine : Text → Option Json
  only_machine content = elim (comp.machines content) [ m ∷ [] ↦ some (j_str m) | ms ↦ none ]

  pub machine_of : Text → Members → Option Json
  unfolding only_machine
  machine_of content input =
      let name = or_json (get (codes "machine_name") input) (j_str []) in
      if is_true_json name then some name else only_machine content

  pub transition_tool : Members → Text → Run → Done × Run
  unfolding perform_effect machine_of
  transition_tool input content r = elim (machine_of content input) [
    | none ↦ (error_of (codes "machine_name is required for state_transition"), r)
    | some machine ↦
        perform_effect
          (transition content machine (or_json (get (codes "record_id") input) j_null)
            (or_json (get (codes "target_state") input) j_null))
          r
  ]

  -- The context of an invoked body: its parameters, and behind them the arguments by name.
  pub bind_params : List Text → Members → Members → Members
  bind_params [] input ctx = ctx
  bind_params (p ∷ ps) input ctx =
      bind_params ps input (put p (or_json (get p input) (j_obj input)) ctx)

  pub bind_args : Members → Members → Members
  bind_args empty ctx = ctx
  bind_args (member k v d) ctx =
      bind_args d (elim (get k ctx) [ none ↦ put k v ctx | some w ↦ ctx ])

  pub outputs : List Text → Members → Members
  outputs [] ctx = empty
  outputs (p ∷ ps) ctx =
      let rest = outputs ps ctx in elim (get p ctx) [ none ↦ rest | some v ↦ member p v rest ]

  -- `output or {"value": expr_result}`
  pub output_of : Json → Members → Done
  output_of result empty = value (j_obj (member (codes "value") result empty))
  output_of result d = value (j_obj d)

  pub conclude_body : List Text → Option Json × Members → Run → Done × Run
  unfolding outputs output_of
  conclude_body params (none, after) r = (error_of (codes "Invoked compute failed"), r)
  conclude_body params (some v, after) r = (output_of v (outputs params after), r)

  pub invoke_body : Text → Target → Text → Members → Run → Done × Run
  unfolding bind_params bind_args conclude_body
  invoke_body name target body input r =
      let ctx = bind_args input (bind_params target.input_params input empty) in
      conclude_body target.output_params (out.evaluate body ctx)
        (record r { effects = r.effects ++ invoke name body ctx ∷ [] })

  pub is_cel : Text → Bool
  is_cel p = is_empty p || (text_eq p (codes "cel") || text_eq p (codes "default-CEL"))

  pub invoke_lines : Text → Target → List Text → Members → Run → Done × Run
  unfolding invoke_body
  invoke_lines name target [] input r = (error_of (codes "Compute has no body"), r)
  invoke_lines name target (body ∷ lines) input r = invoke_body name target body input r

  pub invoke_target : Text → Option Target → Members → Run → Done × Run
  unfolding invoke_lines is_cel
  invoke_target name none input r = (error_of (codes "Invoked compute not found"), r)
  invoke_target name (some target) input r =
      if is_cel target.provider
      then invoke_lines name target target.body_lines input r
      else (error_of (codes "Invokes wiring is reserved for future slices"), r)

  -- The reason is kept once, even an empty one.
  pub refuse : Members → Run → Done × Run
  refuse input r = (
    value (j_obj (member (codes "acknowledged") (j_bool true) empty)),
    elim r.refusal [
      | some reason ↦ r
      | none ↦ record r {
        refusal = some (out.strip (out.str (or_json (get (codes "reason") input) (j_str []))));
      }
    ],
  )

  -- `filters or None`
  pub filters_of : Members → Json
  filters_of input =
      let filters = or_json (get (codes "filters") input) (j_obj empty) in
      if is_true_json filters then filters else j_null

  pub query_tool : Members → Text → Run → Done × Run
  unfolding perform_effect filters_of
  query_tool input content = perform_effect (query content (filters_of input))

  pub create_tool : Members → Text → Run → Done × Run
  unfolding perform_effect
  create_tool input content =
      perform_effect (create content (or_json (get (codes "data") input) (j_obj empty)))

  pub update_tool : Members → Text → Run → Done × Run
  unfolding perform_effect
  update_tool input content = perform_effect (
      update content (or_json (get (codes "record_id") input) j_null)
        (or_json (get (codes "data") input) (j_obj empty)))

  -- The tools behind the refusal guard.
  pub dispatch : Text → Members → Run → Done × Run
  unfolding guarded query_tool create_tool update_tool transition_tool invoke_target
  dispatch name input r =
      if text_eq name (codes "content_query")
      then guarded (comp.accesses ++ comp.reads) input (query_tool input) r
      else if text_eq name (codes "content_create")
      then guarded comp.accesses input (create_tool input) r
      else if text_eq name (codes "content_update")
      then guarded comp.accesses input (update_tool input) r
      else if text_eq name (codes "state_transition")
      then guarded comp.accesses input (transition_tool input) r
      else if one_of name comp.invokes
      then invoke_target name (comp.targets name) input r
      else (error_of (codes "Unknown tool: " ++ name), r)

  -- `_execute_tool`
  pub execute_tool : Text → Members → Run → Done × Run
  unfolding refuse dispatch
  execute_tool name input r =
      if text_eq name (codes "system_refuse")
      then refuse input r
      else if is_refused r
      then (error_of (codes "Invocation refused"), r)
      else dispatch name input r

  -- `_on_writeback`, up to the append itself
  pub on_writeback : Entry → Run → Run
  on_writeback e r = if is_refused r then r else record r { written = r.written ++ e ∷ [] }

  -- The callbacks of the runner; deltas only go to the event bus.
  pub runner : Callbacks Run
  unfolding execute_tool on_writeback
  runner = record {
    execute_tool = execute_tool;
    on_writeback = on_writeback;
    on_text_delta = λ text r. r;
    on_text_end = λ committed r. r;
    should_halt = is_refused;
  }
