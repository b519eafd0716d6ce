-- ===== src/Agent/Outputs.antt =====
-- The loops of an agent that ends by a call of `set_output`: `_anthropic_agent_loop` and
-- `_anthropic_agent_loop_streaming` of termin_server/ai_provider.py. The model, the tools and the text of
-- a result are parameters; what goes to `on_event` is logged.
pub mod Same
pub mod Told
mod Tests
use termin_server.Base.{
  ℕ, zero, suc, Bool, true, false, List, [], ◌∷◌, ◌++◌, Option, none, some, Text, codes, text_eq,
  join, ◌==◌, Json, j_str, j_obj, empty, member, if◌then◌else◌, map,
}
use termin_server.Streaming.{Extractor, Event, field_delta, field_done, initial, feed}
use termin_server.Streaming.Finish.{finish}
use termin_server.Agent.{Call, ToolResult, Message, assistant, results, Done, value, raised}

-- A final message, and whether its stop reason is `end_turn`.
pub record Answer : Type 0 where
  pub texts : List Text
  pub calls : List Call
  pub ended : Bool

-- The events of a stream, by the index of their block; `tool_start` is the start of a tool_use block.
pub data BlockEvent : Type 0 where
  tool_start : (index : ℕ) → (tool : Text) → BlockEvent
  json_delta : (index : ℕ) → Text → BlockEvent
  block_stop : (index : ℕ) → BlockEvent
  other_event : BlockEvent

-- What goes to `on_event`.
pub data ToolEvent : Type 0 where
  scanned : (tool : Text) → Event → ToolEvent
  flushed : (tool field : Text) → Json → ToolEvent
  output_done : Json → ToolEvent

-- What a loop returns, or the error that it raises; the texts of the errors are left out.
pub data Ran : Type 0 where
  output : Json → Ran
  -- The request raised `anthropic.APIError`.
  api_error : Ran
  -- The stream raised, or produced no final message.
  stream_error : Ran
  too_many_turns : Ran

-- A run: the state of the tools, the messages of each request, and the events.
pub record Session (S : Type 0) : Type 0 where
  pub state : S
  pub asked : List (List Message)
  pub told : List ToolEvent

pub record Api (S : Type 0) : Type 0 where
  -- The final message of a turn; none where the request or the stream fails. Another exception than
  -- `anthropic.APIError`, which the plain loop does not catch, is not described.
  pub respond : List Message → Option Answer
  pub stream : List Message → List BlockEvent
  pub execute_tool : Text → Json → S → Done × S
  -- `json.dumps` of a list or a dict, else `str`
  pub content_of : Json → Text
  pub strip : Text → Text
  pub loads : Text → Option Json

abbrev pub is_output : Call → Bool
is_output c = text_eq c.name (codes "set_output")

-- {"thinking": …, "summary": …}
abbrev pub thinking : Text → Text → Json
thinking text summary =
    j_obj (member (codes "thinking") (j_str text) (member (codes "summary") (j_str summary) empty))

-- The calls of a turn: up to the output, or with the results of them all.
pub data Turn : Type 0 where
  set : Json → Turn
  answered : List ToolResult → Turn

abbrev pub and_answer : ToolResult → Turn → Turn
and_answer r (set j) = set j
and_answer r (answered rs) = answered (r ∷ rs)

-- The extractors of a turn, with the tool of their block.
abbrev pub Extractors : Type 0
Extractors = List (ℕ × (Text × Extractor))

abbrev pub set_extractor : ℕ → Text × Extractor → Extractors → Extractors
set_extractor i x [] = (i, x) ∷ []
set_extractor i x ((j, y) ∷ xs) =
    let rest = set_extractor i x xs in if i == j then (i, x) ∷ xs else (j, y) ∷ rest

abbrev pub get_extractor : ℕ → Extractors → Option (Text × Extractor)
get_extractor i [] = none
get_extractor i ((j, y) ∷ xs) = let rest = get_extractor i xs in if i == j then some y else rest

-- The first output among the calls
pub first_output : List Call → Option Json
first_output [] = none
first_output (c ∷ cs) = let rest = first_output cs in if is_output c then some c.input else rest

module _ {S : Type 0} (api : Api S) where
  open api use {respond, stream, execute_tool, content_of, strip, loads}

  pub answer_of : Text → Done → ToolResult
  answer_of id (value v) = record { tool_use_id = id; content = content_of v; is_error = false }
  answer_of id (raised e) = record {
    tool_use_id = id;
    content = codes "Error: " ++ e;
    is_error = true;
  }

  -- The loop over the calls in `_anthropic_agent_loop`
  pub plain_calls : List Call → S → Turn × S
  unfolding answer_of
  plain_calls [] s = (answered [], s)
  plain_calls (c ∷ cs) s = elim (is_output c) [
    | true ↦ (set c.input, s)
    | false ↦
        let (done, s1) = execute_tool c.name c.input s in
        let (turn, s2) = plain_calls cs s1 in (and_answer (answer_of c.id done) turn, s2)
  ]

  -- The loop over the calls in `_anthropic_agent_loop_streaming`
  pub streamed_calls : List Call → S → List ToolResult × S
  unfolding answer_of
  streamed_calls [] s = ([], s)
  streamed_calls (c ∷ cs) s =
      let (done, s1) = execute_tool c.name c.input s in
      let (rs, s2) = streamed_calls cs s1 in (answer_of c.id done ∷ rs, s2)

  pub feed_block : ℕ → Text → Option (Text × Extractor) → Extractors → List ToolEvent × Extractors
  feed_block i partial none xs = ([], xs)
  feed_block i partial (some (tool, ex)) xs =
      let (events, ex1) = feed partial ex in
      (map (scanned tool) events, set_extractor i (tool, ex1) xs)

  pub stop_block : Option (Text × Extractor) → List ToolEvent
  stop_block none = []
  stop_block (some (tool, ex)) =
      map (λ (f : Text × Json). flushed tool f.0 f.1) (finish strip loads ex)

  -- The producer of a turn
  pub produced : List BlockEvent → Extractors → List ToolEvent
  unfolding feed_block stop_block
  produced [] xs = []
  produced (tool_start i tool ∷ es) xs = produced es (set_extractor i (tool, initial) xs)
  produced (json_delta i partial ∷ es) xs =
      let (events, ys) = feed_block i partial (get_extractor i xs) xs in events ++ produced es ys
  produced (block_stop i ∷ es) xs = stop_block (get_extractor i xs) ++ produced es xs
  produced (other_event ∷ es) xs = produced es xs

  -- The rest of a loop
  abbrev pub Rest : Type 0
  Rest = List Message → Session S → Ran × Session S

  -- `_anthropic_agent_loop`, behind the request of a turn
  pub plain_turn : Rest → List Message → Answer → Turn × S → Session S → Ran × Session S
  plain_turn again messages a (set j, s) w = (output j, record w { state = s })
  plain_turn again messages a (answered rs, s) w =
      if a.ended
      then (
        output (thinking (codes "Agent ended turn") (codes "Completed")),
        record w { state = s },
      )
      else again (messages ++ assistant a.texts a.calls ∷ results rs ∷ []) (record w { state = s })

  pub plain_answer : Rest → List Message → Option Answer → Session S → Ran × Session S
  unfolding plain_turn plain_calls
  plain_answer again messages none w = (api_error, w)
  plain_answer again messages (some a) w = elim a.calls [
    | [] ↦ (
      output (thinking (join (codes " ") a.texts) (codes "Agent completed without set_output")),
      w,
    )
    | c ∷ cs ↦ plain_turn again messages a (plain_calls (c ∷ cs) w.state) w
  ]

  pub plain_loop : ℕ → List Message → Session S → Ran × Session S
  unfolding plain_answer
  plain_loop zero messages w = (too_many_turns, w)
  plain_loop (suc n) messages w =
      plain_answer (plain_loop n) messages (respond messages)
        (record w { asked = w.asked ++ messages ∷ [] })

  -- `max_turns = 20`
  pub anthropic_agent_loop : List Message → S → Ran × Session S
  unfolding plain_loop
  anthropic_agent_loop messages s =
      plain_loop 20 messages (record { state = s; asked = []; told = [] })

  -- The end of the streaming loop, with its event
  abbrev pub tell_output : Json → Session S → Ran × Session S
  tell_output j w = (output j, record w { told = w.told ++ output_done j ∷ [] })

  -- `_anthropic_agent_loop_streaming`, behind the stream of a turn
  pub streamed_turn :
      Rest → List Message → Answer → List ToolResult × S → Session S → Ran × Session S
  streamed_turn again messages a (rs, s) w =
      again (messages ++ assistant a.texts a.calls ∷ results rs ∷ []) (record w { state = s })

  pub streamed_answer : Rest → List Message → Option Answer → Session S → Ran × Session S
  unfolding streamed_turn streamed_calls first_output
  streamed_answer again messages none w = (stream_error, w)
  streamed_answer again messages (some a) w = elim a.calls [
    | [] ↦
        tell_output
          (thinking (join (codes " ") a.texts) (codes "Agent completed without set_output")) w
    | c ∷ cs ↦ elim (first_output (c ∷ cs)) [
      | some j ↦ tell_output j w
      | none ↦ streamed_turn again messages a (streamed_calls (c ∷ cs) w.state) w
    ]
  ]

  pub streamed_loop : ℕ → List Message → Session S → Ran × Session S
  unfolding streamed_answer produced
  streamed_loop zero messages w = (too_many_turns, w)
  streamed_loop (suc n) messages w =
      streamed_answer (streamed_loop n) messages (respond messages) (record w {
        asked = w.asked ++ messages ∷ [];
        told = w.told ++ produced (stream messages) [];
      })

  pub anthropic_agent_loop_streaming : ℕ → List Message → S → Ran × Session S
  unfolding streamed_loop
  anthropic_agent_loop_streaming max_turns messages s =
      streamed_loop max_turns messages (record { state = s; asked = []; told = [] })
