-- ===== src/Agent/Turns.antt =====
-- How often an agent asks the model.
use termin_server.Base.{
  ℕ, zero, suc, ◌≤◌, false, List, [], ◌∷◌, ◌++◌, Option, none, some, Text, length, Bool-cases, inl,
  inr, append_assoc, append-nil, ◌≡◌, ◌≢◌, refl, sym, ap, ◌∙◌, arith,
}
use termin_server.Agent.{
  Call, Message, Outcome, completed, too_many_turns, World, Client, Callbacks, Batch, cut, answered,
  after_calls, take_reply, round, loop, finish_turn, tell_deltas, agent_loop_with_conversation,
  assistant, results, forwarded,
}

completed-end : {text : Text} → completed text ≡ too_many_turns → ⊥
completed-end h = cc

module _ (client : Client) {S : Type 0} (cb : Callbacks S) where
  -- The requests that a run adds to those before it: at most `n`, and exactly `n` if the turns ran out.
  pub record Asks (n : ℕ) (before : List (List Message)) (out : Outcome × World S) : Type 0 where
    pub more : List (List Message)
    pub appended : out.1.asked ≡ before ++ more
    pub bounded : length more ≤ n
    pub used_up : out.0 ≡ too_many_turns → length more ≡ n

  Asks-suc :
      (n : ℕ) (before : List (List Message)) (messages : List Message) (out : Outcome × World S)
      → Asks n (before ++ messages ∷ []) out
      → Asks (suc n) before out
  Asks-suc n before messages out a = record {
    more = messages ∷ a.more;
    appended = a.appended ∙ append_assoc before (messages ∷ []) a.more;
    bounded = omega (arith, a.bounded);
    used_up = λ e. ap suc (a.used_up e);
  }

  Asks-none :
      (n : ℕ) (before : List (List Message)) (out : Outcome × World S)
      → out.1.asked ≡ before
      → out.0 ≢ too_many_turns
      → Asks n before out
  Asks-none n before out e o = record {
    more = [];
    appended = e ∙ sym (append-nil before);
    bounded = omega arith;
    used_up = λ t. absurd (o t);
  }

  finish_turn-outcome : (text : Text) (s : S) → (finish_turn client cb text s).0 ≡ completed text
  unfolding finish_turn
  finish_turn-outcome text s = ground arith

  after_calls-Asks :
      (n : ℕ) (again : List Message → World S → Outcome × World S)
      → ((messages : List Message) (w : World S) → Asks n w.asked (again messages w))
      → (messages : List Message) (deltas : List Text) (calls : List Call)
        (asked : List (List Message)) (o : Batch × S)
      → Asks n asked (after_calls client cb again messages deltas calls asked o)
  unfolding after_calls
  after_calls-Asks n again h messages deltas calls asked (cut, s) =
      Asks-none n asked _ refl (λ e. cc)
  after_calls-Asks n again h messages deltas calls asked (answered rs, s) =
      h (messages ++ assistant deltas calls ∷ results rs ∷ []) (record { state = s; asked = asked })

  take_reply-Asks :
      (n : ℕ) (again : List Message → World S → Outcome × World S)
      → ((messages : List Message) (w : World S) → Asks n w.asked (again messages w))
      → (messages : List Message) (deltas : List Text) (asked : List (List Message))
        (final : Option (List Call)) (s : S)
      → Asks n asked (take_reply client cb again messages deltas asked final s)
  unfolding take_reply
  take_reply-Asks n again h messages deltas asked none s = Asks-none n asked _ refl (λ e. cc)
  take_reply-Asks n again h messages deltas asked (some []) s =
      Asks-none n asked _ refl (λ e. completed-end (sym (finish_turn-outcome _ s) ∙ e))
  take_reply-Asks n again h messages deltas asked (some (c ∷ cs)) s =
      after_calls-Asks n again h messages deltas (c ∷ cs) asked _

  pub loop-Asks :
      (n : ℕ) (messages : List Message) (w : World S) → Asks n w.asked (loop client cb n messages w)
  unfolding loop round
  loop-Asks zero messages w = record {
    more = [];
    appended = sym (append-nil w.asked);
    bounded = omega arith;
    used_up = λ e. refl;
  }
  loop-Asks (suc n) messages w = elim (Bool-cases (cb.should_halt w.state)) [
    | inl h ↦ rw (h, round) (Asks-none (suc n) w.asked _ refl (λ e. cc))
    | inr f ↦
        rw (f, round)
          (Asks-suc n w.asked messages _ (
            take_reply-Asks n (loop client cb n) (loop-Asks n) messages
              (forwarded false (client.stream messages).events) (w.asked ++ messages ∷ [])
              (client.stream messages).final
              (tell_deltas client cb (forwarded false (client.stream messages).events) w.state)))
  ]

  -- Where nothing halts, a round with turns left asks for its messages first.
  pub loop-asks :
      (n : ℕ) (messages : List Message) (w : World S)
      → cb.should_halt w.state ≡ false
      → (more : List (List Message)) × ((loop client cb (suc n) messages w).1.asked
          ≡ w.asked ++ messages ∷ more)
  unfolding loop round
  loop-asks n messages w f =
      let a =
        take_reply-Asks n (loop client cb n) (loop-Asks n) messages
          (forwarded false (client.stream messages).events) (w.asked ++ messages ∷ [])
          (client.stream messages).final
          (tell_deltas client cb (forwarded false (client.stream messages).events) w.state) in
      (a.more, rw (f, round) (a.appended ∙ append_assoc w.asked (messages ∷ []) a.more))

  -- The conversation loop asks the model at most `max_turns` times, and it ends for want of turns
  -- only when it has asked that often.
  pub agent_loop-Asks :
      (max_turns : ℕ) (messages : List Message) (s : S)
      → (length (agent_loop_with_conversation client cb max_turns messages s).1.asked ≤ max_turns)
        × ((agent_loop_with_conversation client cb max_turns messages s).0 ≡ too_many_turns
            → length (agent_loop_with_conversation client cb max_turns messages s).1.asked
              ≡ max_turns)
  unfolding agent_loop_with_conversation
  agent_loop-Asks max_turns messages s =
      let a = loop-Asks max_turns messages (record { state = s; asked = [] }) in
      rw a.appended (a.bounded, a.used_up)
