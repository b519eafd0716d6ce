-- ===== src/Agent/Outputs/Tests.antt =====
-- A model that queries and then gives its output, and the theorems on its runs.
use termin_server.Base.{
  List, [], ◌∷◌, none, some, true, false, Text, codes, j_obj, empty, inl, inr, ◌≡◌, refl,
}
use termin_server.Agent.{Call, Message, value}
use termin_server.Agent.Outputs.{
  Answer, Api, BlockEvent, tool_start, json_delta, block_stop, first_output, anthropic_agent_loop,
  anthropic_agent_loop_streaming,
}
use termin_server.Agent.Outputs.Same.{Agree, Leads, anthropic_agent_loop-Agree}
use termin_server.Agent.Outputs.Told.{outputs_of, returned, anthropic_agent_loop_streaming-told}

abbrev call_of : Text → Call
call_of name = record { id = codes "t1"; name = name; input = j_obj empty }

abbrev answer_to : List Message → Answer
answer_to [] = record { texts = []; calls = call_of (codes "content_query") ∷ []; ended = false }
answer_to (m ∷ ms) = record { texts = []; calls = call_of (codes "set_output") ∷ []; ended = true }

abbrev events_of : List Message → List BlockEvent
events_of messages =
    tool_start 0 (codes "set_output") ∷ json_delta 0 (codes "{}") ∷ block_stop 0 ∷ []

abbrev demo_api : Api (List Text)
demo_api = record {
  respond = λ ms. some (answer_to ms);
  stream = events_of;
  execute_tool = λ name input log. (value (j_obj empty), name ∷ log);
  content_of = λ j. codes "{}";
  strip = λ t. t;
  loads = λ t. none;
}

demo-Leads : Leads demo_api
unfolding first_output
demo-Leads [] = (answer_to [], refl, inr (refl, refl))
demo-Leads (m ∷ ms) = (answer_to (m ∷ ms), refl, inl refl)

anthropic_agent_loop-Agree_example :
    Agree (anthropic_agent_loop demo_api [] []) (anthropic_agent_loop_streaming demo_api 20 [] [])
anthropic_agent_loop-Agree_example = anthropic_agent_loop-Agree demo_api [] [] demo-Leads

anthropic_agent_loop_streaming-told_example :
    outputs_of (anthropic_agent_loop_streaming demo_api 5 [] []).1.told
    ≡ returned (anthropic_agent_loop_streaming demo_api 5 [] []).0
anthropic_agent_loop_streaming-told_example = anthropic_agent_loop_streaming-told demo_api 5 [] []
