-- ===== src/Agent/Answers.antt =====
-- Every call of a tool that is sent back to the model is followed by its results.
use termin_server.Base.{
  ℕ, zero, suc, Bool, true, false, List, [], ◌∷◌, ◌++◌, Option, none, some, Text, codes, text_eq,
  text_eq_iff, map, All, Bool-cases, inl, inr, ◌⊎◌, Members, if◌then◌else◌, subst, All-append, ◌≡◌,
  refl, sym,
}
use termin_server.Agent.{
  Call, Entry, Message, earlier, assistant, results, ToolResult, Done, value, raised, Outcome,
  World, Client, Callbacks, Batch, cut, answered, and_result, is_refuse, args_of, after_calls,
  take_reply, round, loop, run_call, run_calls, result_of, tell_deltas, forwarded,
  agent_loop_with_conversation,
}

abbrev ids : List Call → List Text
ids = map (λ (c : Call). c.id)

abbrev answer_ids : List ToolResult → List Text
answer_ids = map (λ (r : ToolResult). r.tool_use_id)

-- What the model's service asks of a request: behind a turn with calls stand the results of exactly
-- these calls, in their order.
abbrev pub IsAnswered : List Message → Type 0
IsAnswered [] = Unit
IsAnswered (earlier j ∷ ms) = IsAnswered ms
IsAnswered (results rs ∷ ms) = ⊥
IsAnswered (assistant deltas calls ∷ []) = ⊥
IsAnswered (assistant deltas calls ∷ earlier j ∷ ms) = ⊥
IsAnswered (assistant deltas calls ∷ assistant d c ∷ ms) = ⊥
IsAnswered (assistant deltas calls ∷ results rs ∷ ms) = (answer_ids rs ≡ ids calls) × IsAnswered ms

IsAnswered-append : (ms ns : List Message) → IsAnswered ms → IsAnswered ns → IsAnswered (ms ++ ns)
IsAnswered-append [] ns h k = k
IsAnswered-append (earlier j ∷ ms) ns h k = IsAnswered-append ms ns h k
IsAnswered-append (results rs ∷ ms) ns h k = absurd h
IsAnswered-append (assistant deltas calls ∷ []) ns h k = absurd h
IsAnswered-append (assistant deltas calls ∷ earlier j ∷ ms) ns h k = absurd h
IsAnswered-append (assistant deltas calls ∷ assistant d c ∷ ms) ns h k = absurd h
IsAnswered-append (assistant deltas calls ∷ results rs ∷ ms) ns h k =
    (h.0, IsAnswered-append ms ns h.1 k)

true-false : {b : Bool} → b ≡ true → b ≡ false → ⊥
true-false h k = cc

module _ (client : Client) {S : Type 0} (cb : Callbacks S) where
  abbrev pub is_reasoned : (Members → Bool) → Call → Bool
  is_reasoned reasoned c = if is_refuse c then reasoned (args_of c.input) else true

  -- Whatever the model answers, its refusals have such arguments.
  abbrev pub Reasons : (Members → Bool) → Type 0
  Reasons reasoned =
      (messages : List Message) (calls : List Call)
      → (client.stream messages).final ≡ some calls
      → All (λ (c : Call). is_reasoned reasoned c ≡ true) calls

  -- What the callbacks keep of their state as long as refusals have such arguments, where a refusal
  -- that is executed is signalled by `should_halt`.
  pub record Signals (reasoned : Members → Bool) (Inv : S → Type 0) : Type 0 where
    pub executes :
        (name : Text) (args : Members) (s : S)
        → (text_eq name (codes "system_refuse") ≡ true → reasoned args ≡ true)
        → Inv s
        → Inv (cb.execute_tool name args s).1
    pub writes : (e : Entry) (s : S) → Inv s → Inv (cb.on_writeback e s)
    pub tells : (text : Text) (s : S) → Inv s → Inv (cb.on_text_delta text s)
    pub ends : (committed : Bool) (s : S) → Inv s → Inv (cb.on_text_end committed s)
    pub halts :
        (args : Members) (s : S)
        → reasoned args ≡ true
        → Inv s
        → cb.should_halt (cb.execute_tool (codes "system_refuse") args s).1 ≡ true

  module _ (reasoned : Members → Bool) {Inv : S → Type 0} (signals : Signals reasoned Inv) where
    -- A batch is either cut off, or answers all calls, or leaves the halt signal on.
    abbrev BatchOk : List Call → Batch × S → Type 0
    BatchOk calls (cut, s) = Unit
    BatchOk calls (answered rs, s) =
        Inv s × ((answer_ids rs ≡ ids calls) ⊎ (cb.should_halt s ≡ true))

    BatchOk-cons :
        (c : Call) (calls : List Call) (r : ToolResult) (o : Batch × S)
        → r.tool_use_id ≡ c.id
        → BatchOk calls o
        → BatchOk (c ∷ calls) (and_result r o.0, o.1)
    BatchOk-cons c calls r (cut, s) e h = tt
    BatchOk-cons c calls r (answered rs, s) e (i, inl h) = (i, inl (rw (e, h) refl))
    BatchOk-cons c calls r (answered rs, s) e (i, inr h) = (i, inr h)

    result_of-id : (id : Text) (d : Done) → (result_of client cb id d).tool_use_id ≡ id
    unfolding result_of
    result_of-id id (value v) = refl
    result_of-id id (raised e) = refl

    run_call-id : (c : Call) (s : S) → (run_call client cb c s).0.tool_use_id ≡ c.id
    unfolding run_call
    run_call-id c s = result_of-id c.id _

    halted-BatchOk :
        (calls : List Call) (c : Call) (s : S)
        → Inv s
        → cb.should_halt s ≡ true
        → BatchOk (c ∷ calls) (run_calls client cb calls s)
    unfolding run_calls
    halted-BatchOk [] c s i h = (i, inr h)
    halted-BatchOk (d ∷ calls) c s i h = rw (h, run_calls) tt

    run_call-Inv : (c : Call) (s : S) → is_refuse c ≡ false → Inv s → Inv (run_call client cb c s).1
    unfolding run_call
    run_call-Inv c s n i =
        signals.writes _ _
          (signals.executes c.name _ _ (λ t. absurd (true-false t n)) (signals.writes _ s i))

    refusal-BatchOk :
        (c : Call) (calls : List Call) (s : S)
        → is_refuse c ≡ true
        → reasoned (args_of c.input) ≡ true
        → Inv s
        → BatchOk
            (c ∷ calls)
            (run_calls client cb calls (cb.execute_tool c.name (args_of c.input) s).1)
    refusal-BatchOk c calls s t p i =
        halted-BatchOk calls c _ (signals.executes c.name (args_of c.input) s (λ u. p) i) (
          subst (λ (n : Text). cb.should_halt (cb.execute_tool n (args_of c.input) s).1 ≡ true)
            (sym ((text_eq_iff c.name (codes "system_refuse")).0 t))
            (signals.halts (args_of c.input) s p i))

    run_calls-BatchOk :
        (calls : List Call) (s : S)
        → All (λ (c : Call). is_reasoned reasoned c ≡ true) calls
        → Inv s
        → BatchOk calls (run_calls client cb calls s)
    unfolding run_calls
    run_calls-BatchOk [] s a i = (i, inl refl)
    run_calls-BatchOk (c ∷ calls) s (p, a) i = elim (Bool-cases (cb.should_halt s)) [
      | inl h ↦ rw (h, run_calls) tt
      | inr f ↦ elim (Bool-cases (is_refuse c)) [
        | inl t ↦ rw (f, run_calls) (rw t (refusal-BatchOk c calls s t (rw t at p) i))
        | inr n ↦
            rw (f, run_calls)
              (rw n (
                BatchOk-cons c calls _ _ (run_call-id c s)
                  (run_calls-BatchOk calls (run_call client cb c s).1 a (run_call-Inv c s n i))))
      ]
    ]

    tell_deltas-Inv : (ds : List Text) (s : S) → Inv s → Inv (tell_deltas client cb ds s)
    unfolding tell_deltas
    tell_deltas-Inv [] s i = i
    tell_deltas-Inv (d ∷ ds) s i = tell_deltas-Inv ds _ (signals.tells d s i)

    abbrev AllAnswered : List (List Message) → Type 0
    AllAnswered = All IsAnswered

    -- The rest of a loop keeps all requests answered, from messages that are answered or at a halt.
    abbrev Keeps : (List Message → World S → Outcome × World S) → Type 0
    Keeps again =
        (messages : List Message) (w : World S)
        → Inv w.state
        → IsAnswered messages ⊎ (cb.should_halt w.state ≡ true)
        → AllAnswered w.asked
        → AllAnswered (again messages w).1.asked

    after_calls-AllAnswered :
        (again : List Message → World S → Outcome × World S)
        → Keeps again
        → (messages : List Message) (deltas : List Text) (calls : List Call)
          (asked : List (List Message)) (o : Batch × S)
        → IsAnswered messages
        → AllAnswered asked
        → BatchOk calls o
        → AllAnswered (after_calls client cb again messages deltas calls asked o).1.asked
    unfolding after_calls
    after_calls-AllAnswered again k messages deltas calls asked (cut, s) m a b = a
    after_calls-AllAnswered again k messages deltas calls asked (answered rs, s) m a (i, inl e) =
        k (messages ++ assistant deltas calls ∷ results rs ∷ [])
          (record { state = s; asked = asked }) i (inl (IsAnswered-append messages _ m (e, tt))) a
    after_calls-AllAnswered again k messages deltas calls asked (answered rs, s) m a (i, inr h) =
        k (messages ++ assistant deltas calls ∷ results rs ∷ [])
          (record { state = s; asked = asked }) i (inr h) a

    take_reply-AllAnswered :
        (again : List Message → World S → Outcome × World S)
        → Keeps again
        → (messages : List Message) (deltas : List Text) (asked : List (List Message))
          (final : Option (List Call)) (s : S)
        → ((calls : List Call)
            → final ≡ some calls
            → All (λ (c : Call). is_reasoned reasoned c ≡ true) calls)
        → Inv s
        → IsAnswered messages
        → AllAnswered asked
        → AllAnswered (take_reply client cb again messages deltas asked final s).1.asked
    unfolding take_reply
    take_reply-AllAnswered again k messages deltas asked none s p i m a = a
    take_reply-AllAnswered again k messages deltas asked (some []) s p i m a = a
    take_reply-AllAnswered again k messages deltas asked (some (c ∷ cs)) s p i m a =
        after_calls-AllAnswered again k messages deltas (c ∷ cs) asked _ m a (
          run_calls-BatchOk (c ∷ cs) (cb.on_text_end false s) (p (c ∷ cs) refl)
            (signals.ends false s i))

    loop-AllAnswered : Reasons reasoned → (n : ℕ) → Keeps (loop client cb n)
    unfolding loop round
    loop-AllAnswered p zero messages w i m a = a
    loop-AllAnswered p (suc n) messages w i m a = elim (Bool-cases (cb.should_halt w.state)) [
      | inl h ↦ rw (h, round) a
      | inr f ↦
          let now : IsAnswered messages = elim m [ inl x ↦ x | inr h ↦ absurd (true-false h f) ] in
          rw (f, round)
            (take_reply-AllAnswered (loop client cb n) (loop-AllAnswered p n) messages
              (forwarded false (client.stream messages).events) (w.asked ++ messages ∷ [])
              (client.stream messages).final
              (tell_deltas client cb (forwarded false (client.stream messages).events) w.state)
              (p messages)
              (tell_deltas-Inv (forwarded false (client.stream messages).events) w.state i) now
              (All-append IsAnswered w.asked (messages ∷ []) a (now, tt)))
    ]

  -- Where the callbacks signal every refusal that holds a reason, and the refusals of the model do hold
  -- one, every request of the conversation loop has the results of exactly its calls behind each turn
  -- with calls, if the conversation it starts from has.
  pub agent_loop-IsAnswered :
      (reasoned : Members → Bool) {Inv : S → Type 0} (max_turns : ℕ) (messages : List Message)
      (s : S)
      → Signals reasoned Inv
      → Reasons reasoned
      → Inv s
      → IsAnswered messages
      → All IsAnswered (agent_loop_with_conversation client cb max_turns messages s).1.asked
  unfolding agent_loop_with_conversation
  agent_loop-IsAnswered reasoned max_turns messages s h p i m =
      loop-AllAnswered reasoned h p max_turns messages (record { state = s; asked = [] }) i (inl m)
        tt
