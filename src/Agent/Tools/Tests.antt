-- ===== src/Agent/Tools/Tests.antt =====
-- An agent that queries a content, and the theorems on its runs.
use termin_server.Base.{
  ◌≤◌, true, List, [], ◌∷◌, ◌++◌, none, some, Text, codes, length, Json, j_str, j_obj, empty,
  member, All, subst, ◌≡◌, refl,
}
use termin_server.Agent.{
  Call, text_delta, Reply, Message, value, Client, too_many_turns, run_calls, run_call,
  agent_loop_with_conversation,
}
use termin_server.Agent.Turns.{agent_loop-Asks}
use termin_server.Agent.Answers.{IsAnswered, Reasons, is_reasoned}
use termin_server.Agent.Tools.{
  Compute, Outside, Run, runner, execute_tool, on_writeback, dispatch, guarded, check_name,
  behind_boundary, query_tool, perform_effect,
}
use termin_server.Agent.Tools.Grants.{Allowed, agent_loop-Allowed}
use termin_server.Agent.Tools.Refusals.{RefusedFrom, run_calls-RefusedFrom}
use termin_server.Agent.Tools.Orphans.{agent_loop-orphan}
use termin_server.Agent.Tools.Answered.{reasoned, runner-IsAnswered}

abbrev text_of : Json → Text
text_of (j_str s) = s
text_of j = []

abbrev query_call : Call
query_call = record {
  id = codes "t1";
  name = codes "content_query";
  input = j_obj (member (codes "content_name") (j_str (codes "orders")) empty);
}

abbrev refusal_of : Text → Call
refusal_of reason = record {
  id = codes "t2";
  name = codes "system_refuse";
  input = j_obj (member (codes "reason") (j_str reason) empty);
}

-- The model: it opens with calls, and ends a conversation that has begun.
abbrev reply_to : List Call → List Message → Reply
reply_to calls [] = record { events = text_delta (codes "One moment.") ∷ []; final = some calls }
reply_to calls (m ∷ ms) = record { events = []; final = some [] }

abbrev demo_client : List Call → Client
demo_client calls = record {
  stream = reply_to calls;
  strip = λ t. t;
  dumps = text_of;
  purpose_of = λ j. some (text_of j);
}

abbrev reader : Compute
reader = record {
  accesses = [];
  reads = codes "orders" ∷ [];
  invokes = [];
  boundary = λ c. none;
  machines = λ c. [];
  targets = λ name. none;
}

abbrev world : Outside
world = record {
  perform = λ e. value (j_obj empty);
  evaluate = λ body ctx. (none, ctx);
  strip = λ t. t;
  str = text_of;
}

abbrev fresh : Run
fresh = record { refusal = none; effects = []; written = [] }

abbrev unsuited : Text
unsuited = codes "out of scope"

abbrev calling : Client
calling = demo_client (query_call ∷ refusal_of unsuited ∷ [])

agent_loop-Asks_example :
    (length (agent_loop_with_conversation calling (runner reader world) 3 [] fresh).1.asked ≤ 3)
    × ((agent_loop_with_conversation calling (runner reader world) 3 [] fresh).0 ≡ too_many_turns
        → length (agent_loop_with_conversation calling (runner reader world) 3 [] fresh).1.asked
          ≡ 3)
agent_loop-Asks_example = agent_loop-Asks calling (runner reader world) 3 [] fresh

agent_loop-Allowed_example :
    All
      (Allowed reader world)
      (agent_loop_with_conversation calling (runner reader world) 3 [] fresh).1.state.effects
agent_loop-Allowed_example = agent_loop-Allowed reader world calling 3 [] fresh tt

some-injective : {xs ys : List Call} → some xs ≡ some ys → xs ≡ ys
some-injective h = cc

calling-Reasons : Reasons calling (runner reader world) (reasoned calling reader world)
calling-Reasons [] calls h =
    subst
      (All (λ (c : Call).
        is_reasoned calling (runner reader world) (reasoned calling reader world) c ≡ true))
      (some-injective h) (refl, (refl, tt))
calling-Reasons (m ∷ ms) calls h =
    subst
      (All (λ (c : Call).
        is_reasoned calling (runner reader world) (reasoned calling reader world) c ≡ true))
      (some-injective h) tt

runner-IsAnswered_example :
    All IsAnswered (agent_loop_with_conversation calling (runner reader world) 3 [] fresh).1.asked
runner-IsAnswered_example =
    runner-IsAnswered calling reader world 3 [] fresh calling-Reasons refl tt

queried-refusal : (run_calls calling (runner reader world) (query_call ∷ []) fresh).1.refusal ≡ none
unfolding run_calls run_call runner execute_tool on_writeback dispatch guarded check_name
    behind_boundary query_tool perform_effect
queried-refusal = refl

run_calls-RefusedFrom_example :
    RefusedFrom
      (run_calls calling (runner reader world) (query_call ∷ []) fresh).1
      (run_calls calling
        (runner reader world)
        ((query_call ∷ []) ++ refusal_of unsuited ∷ query_call ∷ [])
        fresh).1
run_calls-RefusedFrom_example =
    run_calls-RefusedFrom calling reader world (query_call ∷ []) (refusal_of unsuited)
      (query_call ∷ []) fresh refl refl queried-refusal

abbrev blank_client : Client
blank_client = demo_client (refusal_of [] ∷ [])

agent_loop-orphan_example :
    (again : List Message) × (more : List (List Message)) × ((agent_loop_with_conversation
        blank_client
        (runner reader world)
        2
        []
        fresh).1.asked
      ≡ [] ∷ again ∷ more)
    × ¬ IsAnswered again
agent_loop-orphan_example =
    agent_loop-orphan blank_client reader world 0 [] fresh (refusal_of []) refl refl refl refl
