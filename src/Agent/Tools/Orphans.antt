-- ===== src/Agent/Tools/Orphans.antt =====
-- What a refusal without a reason sends back to the model.
use termin_server.Base.{
  ℕ, suc, true, false, List, [], ◌∷◌, ◌++◌, none, some, Text, is_empty, ◌≡◌, refl, ap, ◌∙◌,
}
use termin_server.Agent.{
  Call, Outcome, Callbacks, Message, earlier, assistant, results, Client, answered, World,
  forwarded, run_calls, tell_deltas, round, take_reply, after_calls, loop, is_refuse, args_of,
  agent_loop_with_conversation,
}
use termin_server.Agent.Answers.{IsAnswered}
use termin_server.Agent.Turns.{loop-asks}
use termin_server.Agent.Tools.{Compute, Outside, Run, execute_tool, runner}
use termin_server.Agent.Tools.Refusals.{reason_of, execute_tool-blank, is_refused-none}

-- A turn that no results follow but empty ones
IsAnswered-orphan :
    (messages : List Message) (deltas : List Text) (c : Call)
    → IsAnswered (messages ++ assistant deltas (c ∷ []) ∷ results [] ∷ [])
    → ⊥
IsAnswered-orphan [] deltas c (h, u) = cc
IsAnswered-orphan (earlier j ∷ ms) deltas c h = IsAnswered-orphan ms deltas c h
IsAnswered-orphan (results rs ∷ ms) deltas c h = absurd h
IsAnswered-orphan (assistant d calls ∷ []) deltas c h = absurd h
IsAnswered-orphan (assistant d calls ∷ earlier j ∷ ms) deltas c h = absurd h
IsAnswered-orphan (assistant d calls ∷ assistant e k ∷ ms) deltas c h = absurd h
IsAnswered-orphan (assistant d calls ∷ results rs ∷ ms) deltas c h =
    IsAnswered-orphan ms deltas c h.1

abbrev deltas_of : Client → List Message → List Text
deltas_of client messages = forwarded false (client.stream messages).events

-- The messages behind a lone refusal
abbrev orphaned : Client → List Message → Call → List Message
orphaned client messages c =
    messages ++ assistant (deltas_of client messages) (c ∷ []) ∷ results [] ∷ []

module _ (client : Client) {S : Type 0} (cb : Callbacks S) where
  lone_refusal :
      (c : Call) (s : S)
      → cb.should_halt s ≡ false
      → is_refuse c ≡ true
      → run_calls client cb (c ∷ []) s
        ≡ (answered [], (cb.execute_tool c.name (args_of c.input) s).1)
  unfolding run_calls
  lone_refusal c s h t = rw (h, run_calls) (rw t refl)

  lone_refusal-round :
      (n : ℕ) (messages : List Message) (c : Call) (w : World S) (s : S)
      → cb.should_halt w.state ≡ false
      → (client.stream messages).final ≡ some (c ∷ [])
      → is_refuse c ≡ true
      → cb.on_text_end false (tell_deltas client cb (deltas_of client messages) w.state) ≡ s
      → cb.should_halt s ≡ false
      → loop client cb (suc n) messages w
        ≡ loop client cb n (orphaned client messages c) (record {
          state = (cb.execute_tool c.name (args_of c.input) s).1;
          asked = w.asked ++ messages ∷ [];
        })
  unfolding loop round take_reply after_calls
  lone_refusal-round n messages c w s h f t e k =
      rw (h, round) (rw (f, take_reply) (rw e (rw (lone_refusal c s k t, after_calls) refl)))

module _ (client : Client) (comp : Compute) (out : Outside) where
  tell_deltas-runner : (ds : List Text) (s : Run) → tell_deltas client (runner comp out) ds s ≡ s
  unfolding tell_deltas runner
  tell_deltas-runner [] s = refl
  tell_deltas-runner (d ∷ ds) s = tell_deltas-runner ds s

  -- A model that answers with a lone refusal whose reason is blank is asked again, with the turn of
  -- the refusal left unanswered in the messages.
  pub agent_loop-orphan :
      (n : ℕ) (messages : List Message) (s : Run) (c : Call)
      → s.refusal ≡ none
      → (client.stream messages).final ≡ some (c ∷ [])
      → is_refuse c ≡ true
      → is_empty (reason_of client comp out (args_of c.input)) ≡ true
      → (again : List Message) × (more : List (List Message)) × ((agent_loop_with_conversation
            client
            (runner comp out)
            (suc (suc n))
            messages
            s).1.asked
          ≡ messages ∷ again ∷ more)
        × ¬ IsAnswered again
  unfolding agent_loop_with_conversation runner
  agent_loop-orphan n messages s c h f t e =
      let again = orphaned client messages c in
      let w : World Run = record {
        state = (execute_tool comp out c.name (args_of c.input) s).1;
        asked = messages ∷ [];
      } in
      let rest =
        loop-asks client (runner comp out) n again w
          (execute_tool-blank client comp out c.name (args_of c.input) s t h e) in
      (
        again,
        rest.0,
        ap (λ (o : Outcome × World Run). o.1.asked)
              (lone_refusal-round client (runner comp out) (suc n) messages c
                (record { state = s; asked = [] }) s (is_refused-none s h) f t
                (tell_deltas-runner (deltas_of client messages) s) (is_refused-none s h))
            ∙ rest.1,
        IsAnswered-orphan messages (deltas_of client messages) c,
      )
