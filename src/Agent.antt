-- ===== src/Agent.antt =====
-- The conversation loop of an agent: `_anthropic_agent_loop_with_conversation` of
-- termin_server/ai_provider.py. The model, the caller's callbacks, `json.dumps` of a result and the cut
-- of a purpose are parameters. A turn's stream is the list of its text deltas and its final message.
pub mod Turns
pub mod Kept
pub mod Answers
pub mod Tools
pub mod Outputs
use termin_server.Base.{
  ℕ, zero, suc, Bool, true, false, List, [], ◌∷◌, ◌++◌, Option, none, some, Text, codes, text_eq,
  is_empty, ◌||◌, Json, j_null, j_str, j_obj, Members, empty, get, without, flat_map, if◌then◌else◌,
}

-- A tool_use block.
pub record Call : Type 0 where
  pub id : Text
  pub name : Text
  pub input : Json

-- The events of a stream that the producer looks at.
pub data StreamEvent : Type 0 where
  refuse_start : StreamEvent
  text_delta : Text → StreamEvent
  other_event : StreamEvent

-- What a request to the model streams, and the calls of its final message, or an error behind it.
pub record Reply : Type 0 where
  pub events : List StreamEvent
  pub final : Option (List Call)

pub record ToolResult : Type 0 where
  pub tool_use_id : Text
  pub content : Text
  pub is_error : Bool

-- The running messages: those of the conversation so far, a turn of the model, and a user message
-- of results.
pub data Message : Type 0 where
  earlier : Json → Message
  assistant : List Text → List Call → Message
  results : List ToolResult → Message

-- What a tool gives back.
pub data Done : Type 0 where
  value : Json → Done
  raised : Text → Done

-- What goes to `on_writeback`.
pub data Entry : Type 0 where
  agent_text : Text → Entry
  tool_call : (id name : Text) → Members → (purpose : Option Text) → Entry
  tool_result : (id : Text) → Text → Bool → Entry

-- The callbacks that the caller hands over, with the state they work on.
pub record Callbacks (S : Type 0) : Type 0 where
  pub execute_tool : Text → Members → S → Done × S
  pub on_writeback : Entry → S → S
  pub on_text_delta : Text → S → S
  pub on_text_end : Bool → S → S
  pub should_halt : S → Bool

-- Parameters of the loop from outside: the model, and texts.
pub record Client : Type 0 where
  pub stream : List Message → Reply
  pub strip : Text → Text
  pub dumps : Json → Text
  -- `_truncate_purpose(str(purpose))`, where the purpose is true
  pub purpose_of : Json → Option Text

pub data Outcome : Type 0 where
  completed : Text → Outcome
  halted : Outcome
  stream_error : Outcome
  too_many_turns : Outcome

-- The state of the callbacks, and the messages of every request to the model.
pub record World (S : Type 0) : Type 0 where
  pub state : S
  pub asked : List (List Message)

-- `_producer_for_conversation_stream`: the deltas that are forwarded; none behind a refusal.
pub forwarded : Bool → List StreamEvent → List Text
forwarded refuse_seen [] = []
forwarded refuse_seen (refuse_start ∷ es) = forwarded true es
forwarded refuse_seen (text_delta text ∷ es) =
    let rest = forwarded refuse_seen es in
    if refuse_seen || is_empty text then rest else text ∷ rest
forwarded refuse_seen (other_event ∷ es) = forwarded refuse_seen es

-- `tc.input if isinstance(tc.input, dict) else {}`
abbrev pub args_of : Json → Members
args_of (j_obj d) = d
args_of input = empty

abbrev pub is_refuse : Call → Bool
is_refuse c = text_eq c.name (codes "system_refuse")

-- A batch of calls: cut off by the halt signal, or with the results of its calls.
pub data Batch : Type 0 where
  cut : Batch
  answered : List ToolResult → Batch

abbrev pub and_result : ToolResult → Batch → Batch
and_result r cut = cut
and_result r (answered rs) = answered (r ∷ rs)

module _ (client : Client) {S : Type 0} (cb : Callbacks S) where
  open client use {stream, strip, dumps, purpose_of}
  open cb use {execute_tool, on_writeback, on_text_delta, on_text_end, should_halt}

  pub tool_entry : Call → Entry
  tool_entry c =
      tool_call c.id c.name (without (codes "purpose") (args_of c.input))
        (elim (get (codes "purpose") (args_of c.input)) [ none ↦ none | some p ↦ purpose_of p ])

  pub result_of : Text → Done → ToolResult
  result_of id (value v) = record { tool_use_id = id; content = dumps v; is_error = false }
  result_of id (raised e) = record {
    tool_use_id = id;
    content = codes "Error: " ++ e;
    is_error = true;
  }

  -- A call that is no refusal, with both of its entries.
  pub run_call : Call → S → ToolResult × S
  unfolding tool_entry result_of
  run_call c s =
      let s1 = on_writeback (tool_entry c) s in
      let (done, s2) = execute_tool c.name (without (codes "purpose") (args_of c.input)) s1 in
      let r = result_of c.id done in (r, on_writeback (tool_result c.id r.content r.is_error) s2)

  -- The loop over the calls of a turn.
  pub run_calls : List Call → S → Batch × S
  unfolding run_call
  run_calls [] s = (answered [], s)
  run_calls (c ∷ cs) s = elim (should_halt s) [
    | true ↦ (cut, s)
    | false ↦ elim (is_refuse c) [
      | true ↦ run_calls cs (execute_tool c.name (args_of c.input) s).1
      | false ↦
          let (r, s1) = run_call c s in
          let (batch, s2) = run_calls cs s1 in (and_result r batch, s2)
    ]
  ]

  pub tell_deltas : List Text → S → S
  tell_deltas [] s = s
  tell_deltas (d ∷ ds) s = tell_deltas ds (on_text_delta d s)

  -- The end of a turn without calls.
  pub finish_turn : Text → S → Outcome × S
  finish_turn text s =
      if is_empty text
      then (completed text, on_text_end false s)
      else (completed text, on_text_end true (on_writeback (agent_text text) s))

  abbrev pub and_state : Outcome × S → List (List Message) → Outcome × World S
  and_state (o, s) asked = (o, record { state = s; asked = asked })

  -- What follows the calls of a turn; `again` is the rest of the loop.
  pub after_calls :
      (List Message → World S → Outcome × World S)
      → List Message
      → List Text
      → List Call
      → List (List Message)
      → Batch × S
      → Outcome × World S
  after_calls again messages deltas calls asked (cut, s) =
      (halted, record { state = s; asked = asked })
  after_calls again messages deltas calls asked (answered rs, s) =
      again (messages ++ assistant deltas calls ∷ results rs ∷ [])
        (record { state = s; asked = asked })

  -- What follows the stream of a turn.
  pub take_reply :
      (List Message → World S → Outcome × World S)
      → List Message
      → List Text
      → List (List Message)
      → Option (List Call)
      → S
      → Outcome × World S
  unfolding run_calls finish_turn after_calls
  take_reply again messages deltas asked none s =
      (stream_error, record { state = s; asked = asked })
  take_reply again messages deltas asked (some []) s =
      and_state (finish_turn (strip (flat_map (λ t. t) deltas)) s) asked
  take_reply again messages deltas asked (some (c ∷ cs)) s =
      after_calls again messages deltas (c ∷ cs) asked (run_calls (c ∷ cs) (on_text_end false s))

  -- A round of the loop.
  pub round :
      (List Message → World S → Outcome × World S) → List Message → World S → Outcome × World S
  unfolding tell_deltas take_reply forwarded
  round again messages w = elim (should_halt w.state) [
    | true ↦ (halted, w)
    | false ↦
        let reply = stream messages in
        let deltas = forwarded false reply.events in
        take_reply again messages deltas (w.asked ++ messages ∷ []) reply.final
          (tell_deltas deltas w.state)
  ]

  -- `for turn in range(max_turns)`
  pub loop : ℕ → List Message → World S → Outcome × World S
  unfolding round
  loop zero messages w = (too_many_turns, w)
  loop (suc n) messages w = round (loop n) messages w

  pub agent_loop_with_conversation : ℕ → List Message → S → Outcome × World S
  unfolding loop
  agent_loop_with_conversation max_turns messages s =
      loop max_turns messages (record { state = s; asked = [] })
