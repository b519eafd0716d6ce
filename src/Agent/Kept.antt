-- ===== src/Agent/Kept.antt =====
-- What every callback keeps, the conversation loop keeps.
use termin_server.Base.{
  ℕ, zero, suc, Bool, true, false, List, [], ◌∷◌, ◌++◌, Option, none, some, Text, Bool-cases, inl,
  inr, Members,
}
use termin_server.Agent.{
  Call, Message, Outcome, World, Client, Callbacks, Batch, cut, answered, Entry, is_refuse,
  after_calls, take_reply, round, loop, run_call, run_calls, finish_turn, tell_deltas, forwarded,
  agent_loop_with_conversation, assistant, results,
}

module _ (client : Client) {S : Type 0} (cb : Callbacks S) where
  -- A relation between the state before and after, that each callback respects.
  pub record Respected (R : S → S → Type 0) : Type 0 where
    pub same : (s : S) → R s s
    pub both : {s t u : S} → R s t → R t u → R s u
    pub executes : (name : Text) (args : Members) (s : S) → R s (cb.execute_tool name args s).1
    pub writes : (e : Entry) (s : S) → R s (cb.on_writeback e s)
    pub tells : (text : Text) (s : S) → R s (cb.on_text_delta text s)
    pub ends : (committed : Bool) (s : S) → R s (cb.on_text_end committed s)

  module _ {R : S → S → Type 0} (k : Respected R) where
    run_call-Respected : (c : Call) (s : S) → R s (run_call client cb c s).1
    unfolding run_call
    run_call-Respected c s = k.both (k.writes _ s) (k.both (k.executes _ _ _) (k.writes _ _))

    run_calls-Respected : (cs : List Call) (s : S) → R s (run_calls client cb cs s).1
    unfolding run_calls
    run_calls-Respected [] s = k.same s
    run_calls-Respected (c ∷ cs) s = elim (Bool-cases (cb.should_halt s)) [
      | inl h ↦ rw (h, run_calls) (k.same s)
      | inr f ↦ elim (Bool-cases (is_refuse c)) [
        | inl t ↦ rw (f, run_calls) (rw t (k.both (k.executes _ _ s) (run_calls-Respected cs _)))
        | inr n ↦
            rw (f, run_calls) (rw n (k.both (run_call-Respected c s) (run_calls-Respected cs _)))
      ]
    ]

    tell_deltas-Respected : (ds : List Text) (s : S) → R s (tell_deltas client cb ds s)
    unfolding tell_deltas
    tell_deltas-Respected [] s = k.same s
    tell_deltas-Respected (d ∷ ds) s = k.both (k.tells d s) (tell_deltas-Respected ds _)

    finish_turn-Respected : (text : Text) (s : S) → R s (finish_turn client cb text s).1
    unfolding finish_turn
    finish_turn-Respected [] s = k.ends false s
    finish_turn-Respected (c ∷ text) s = k.both (k.writes _ s) (k.ends true _)

    -- The rest of a loop relates the state it starts from to the state it ends in.
    abbrev Keeps : (List Message → World S → Outcome × World S) → Type 0
    Keeps again = (messages : List Message) (w : World S) → R w.state (again messages w).1.state

    after_calls-Respected :
        (again : List Message → World S → Outcome × World S)
        → Keeps again
        → (messages : List Message) (deltas : List Text) (calls : List Call)
          (asked : List (List Message)) (o : Batch × S)
        → R o.1 (after_calls client cb again messages deltas calls asked o).1.state
    unfolding after_calls
    after_calls-Respected again h messages deltas calls asked (cut, s) = k.same s
    after_calls-Respected again h messages deltas calls asked (answered rs, s) =
        h (messages ++ assistant deltas calls ∷ results rs ∷ [])
          (record { state = s; asked = asked })

    take_reply-Respected :
        (again : List Message → World S → Outcome × World S)
        → Keeps again
        → (messages : List Message) (deltas : List Text) (asked : List (List Message))
          (final : Option (List Call)) (s : S)
        → R s (take_reply client cb again messages deltas asked final s).1.state
    unfolding take_reply
    take_reply-Respected again h messages deltas asked none s = k.same s
    take_reply-Respected again h messages deltas asked (some []) s = finish_turn-Respected _ s
    take_reply-Respected again h messages deltas asked (some (c ∷ cs)) s = k.both (k.ends false s) (
        k.both (run_calls-Respected (c ∷ cs) (cb.on_text_end false s))
          (after_calls-Respected again h messages deltas (c ∷ cs) asked _))

    loop-Respected : (n : ℕ) → Keeps (loop client cb n)
    unfolding loop round
    loop-Respected zero messages w = k.same w.state
    loop-Respected (suc n) messages w = elim (Bool-cases (cb.should_halt w.state)) [
      | inl h ↦ rw (h, round) (k.same w.state)
      | inr f ↦
          rw (f, round)
            (k.both
              (tell_deltas-Respected (forwarded false (client.stream messages).events) w.state)
              (take_reply-Respected (loop client cb n) (loop-Respected n) messages
                (forwarded false (client.stream messages).events) (w.asked ++ messages ∷ [])
                (client.stream messages).final
                (tell_deltas client cb (forwarded false (client.stream messages).events) w.state)))
    ]

    pub agent_loop-Respected :
        (max_turns : ℕ) (messages : List Message) (s : S)
        → R s (agent_loop_with_conversation client cb max_turns messages s).1.state
    unfolding agent_loop_with_conversation
    agent_loop-Respected max_turns messages s =
        loop-Respected max_turns messages (record { state = s; asked = [] })
