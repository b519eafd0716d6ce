-- ===== src/Agent/Outputs/Same.antt =====
-- The plain loop of an agent and the streaming one.
use termin_server.Base.{
  ℕ, zero, suc, Bool, true, false, List, [], ◌∷◌, ◌++◌, none, some, Bool-cases, inl, inr, ◌⊎◌,
  List-cases, ◌≡◌, refl,
}
use termin_server.Agent.{Call, Message}
use termin_server.Agent.Outputs.{
  Answer, Api, Ran, Session, ToolEvent, answered, set, is_output, plain_calls, streamed_calls,
  first_output, plain_turn, plain_answer, plain_loop, streamed_turn, streamed_answer, streamed_loop,
  produced, anthropic_agent_loop, anthropic_agent_loop_streaming,
}

-- An answer calls the output first, or does not call it and does not stop behind its calls.
abbrev pub LeadsWith : Bool → List Call → Type 0
LeadsWith ended [] = Unit
LeadsWith ended (c ∷ cs) = (is_output c ≡ true) ⊎ ((first_output (c ∷ cs) ≡ none) × (ended ≡ false))

-- Two ends of a run that agree in all but the events.
pub record Agree {S : Type 0} (o p : Ran × Session S) : Type 0 where
  pub same_result : o.0 ≡ p.0
  pub same_state : o.1.state ≡ p.1.state
  pub same_asked : o.1.asked ≡ p.1.asked

first_output-head :
    (c : Call) (cs : List Call) → is_output c ≡ true → first_output (c ∷ cs) ≡ some c.input
unfolding first_output
first_output-head c cs h = rw h refl

some-none : {A : Type 0} {a : A} → some a ≡ none → ⊥
some-none h = cc

module _ {S : Type 0} (api : Api S) where
  -- The model answers every request, and its answer leads with its output, if it has one.
  abbrev pub Leads : Type 0
  Leads =
      (messages : List Message)
      → (a : Answer) × (api.respond messages ≡ some a) × LeadsWith a.ended a.calls

  plain_calls-none :
      (cs : List Call) (s : S)
      → first_output cs ≡ none
      → plain_calls api cs s ≡ (answered (streamed_calls api cs s).0, (streamed_calls api cs s).1)
  unfolding plain_calls streamed_calls first_output
  plain_calls-none [] s h = refl
  plain_calls-none (c ∷ cs) s h = elim (Bool-cases (is_output c)) [
    | inl t ↦ absurd (some-none (rw t at h))
    | inr f ↦
        rw (f, plain_calls)
          (rw (plain_calls-none cs (api.execute_tool c.name c.input s).1 (rw f at h)) refl)
  ]

  plain_calls-head :
      (c : Call) (cs : List Call) (s : S)
      → is_output c ≡ true
      → plain_calls api (c ∷ cs) s ≡ (set c.input, s)
  unfolding plain_calls
  plain_calls-head c cs s h = rw (h, plain_calls) refl

  abbrev Rest : Type 0
  Rest = List Message → Session S → Ran × Session S

  abbrev Agreeing : Rest → Rest → Type 0
  Agreeing f g =
      (messages : List Message) (w : Session S) (told : List ToolEvent)
      → Agree (f messages w) (g messages (record w { told = told }))

  answer-Agree :
      (f g : Rest)
      → Agreeing f g
      → (messages : List Message) (a : Answer) (w : Session S) (told : List ToolEvent)
      → LeadsWith a.ended a.calls
      → Agree
          (plain_answer api f messages (some a) w)
          (streamed_answer api g messages (some a) (record w { told = told }))
  unfolding plain_answer streamed_answer plain_turn streamed_turn
  answer-Agree f g k messages a w told l = elim (List-cases a.calls) [
    | inl e ↦
        rw (e, plain_answer, streamed_answer)
          (record { same_result = refl; same_state = refl; same_asked = refl })
    | inr (c, cs, e) ↦
        rw (e, plain_answer, streamed_answer)
          (elim (rw e at l) [
            | inl t ↦ rw (plain_calls-head c cs w.state t) (
                rw (first_output-head c cs t)
                  (record { same_result = refl; same_state = refl; same_asked = refl }))
            | inr (n, ends) ↦
                rw (plain_calls-none (c ∷ cs) w.state n) (rw n (rw ends (rw e (k _ _ told))))
          ])
  ]

  loop-Agree : Leads → (n : ℕ) → Agreeing (plain_loop api n) (streamed_loop api n)
  unfolding plain_loop streamed_loop
  loop-Agree l zero messages w told = record {
    same_result = refl;
    same_state = refl;
    same_asked = refl;
  }
  loop-Agree l (suc n) messages w told =
      let (a, e, leads) = l messages in
      rw e (
        answer-Agree (plain_loop api n) (streamed_loop api n) (loop-Agree l n) messages a
          (record w { asked = w.asked ++ messages ∷ [] })
          (told ++ produced api (api.stream messages) []) leads)

  -- Where the model answers every request, and calls the output first or not at all, and does not stop
  -- behind other calls, the streaming loop of twenty turns ends like the plain one: with the same
  -- output, or both with the turns used up, and with the same state of the tools and the same requests
  -- to the model.
  pub anthropic_agent_loop-Agree :
      (messages : List Message) (s : S)
      → Leads
      → Agree
          (anthropic_agent_loop api messages s)
          (anthropic_agent_loop_streaming api 20 messages s)
  unfolding anthropic_agent_loop anthropic_agent_loop_streaming
  anthropic_agent_loop-Agree messages s l =
      loop-Agree l 20 messages (record { state = s; asked = []; told = [] }) []
