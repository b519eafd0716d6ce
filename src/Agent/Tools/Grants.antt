-- ===== src/Agent/Tools/Grants.antt =====
-- What an agent may touch.
use termin_server.Base.{
  ℕ, true, List, [], ◌∷◌, ◌++◌, Option, none, some, Text, codes, text_eq, one_of, Json, j_null,
  j_bool, j_num, j_str, j_arr, j_obj, Members, get, All, All-concat, subst, Bool-cases,
  Option-cases, inl, inr, ◌⊎◌, ◌≡◌, refl,
}
use termin_server.Agent.{Done, Message, Client, Entry, agent_loop_with_conversation}
use termin_server.Agent.Kept.{agent_loop-Respected}
use termin_server.Agent.Tools.{
  Effect, query, create, update, transition, invoke, Compute, Outside, Target, Run, Named, granted,
  denied, unhashable, test_name, check_name, query_tool, create_tool, update_tool, conclude_body,
  perform_effect, behind_boundary, guarded, machine_of, transition_tool, invoke_body, invoke_lines,
  is_cel, invoke_target, refuse, dispatch, execute_tool, on_writeback, is_refused, runner,
}

granted-injective : {s t : Text} → granted s ≡ granted t → s ≡ t
granted-injective h = cc

denied-granted : {s : Text} → denied ≡ granted s → ⊥
denied-granted h = cc

test_name-granted :
    (names : List Text) (s content : Text)
    → test_name names s ≡ granted content
    → one_of content names ≡ true
test_name-granted names s content h = elim (Bool-cases (one_of s names)) [
  | inl e ↦ subst (λ (n : Text). one_of n names ≡ true) (granted-injective (rw e at h)) e
  | inr f ↦ absurd (denied-granted (rw f at h))
]

Named-cases :
    (n : Named) → ((content : Text) × (n ≡ granted content)) ⊎ ((n ≡ denied) ⊎ (n ≡ unhashable))
Named-cases (granted content) = inl (content, refl)
Named-cases denied = inr (inl refl)
Named-cases unhashable = inr (inr refl)

module _ (comp : Compute) (out : Outside) where
  -- A content that a list of names grants, and the boundary lets pass.
  abbrev pub MayTouch : List Text → Text → Type 0
  MayTouch names content = (one_of content names ≡ true) × (comp.boundary content ≡ none)

  -- Queries want Accesses or Reads, all that writes wants Accesses, and only a compute that the
  -- declaration invokes is run.
  abbrev pub Allowed : Effect → Type 0
  Allowed (query content filters) = MayTouch (comp.accesses ++ comp.reads) content
  Allowed (create content d) = MayTouch comp.accesses content
  Allowed (update content id d) = MayTouch comp.accesses content
  Allowed (transition content machine id target) = MayTouch comp.accesses content
  Allowed (invoke name body ctx) = one_of name comp.invokes ≡ true

  abbrev AllAllowed : Run → Type 0
  AllAllowed r = All Allowed r.effects

  -- A step of a run that does nothing, or one effect that is allowed.
  abbrev pub Acts : Run → Run → Type 0
  Acts r t = (t ≡ r) ⊎ ((e : Effect) × Allowed e × (t ≡ record r { effects = r.effects ++ e ∷ [] }))

  Acts-AllAllowed : (r t : Run) → Acts r t → AllAllowed r → AllAllowed t
  Acts-AllAllowed r t (inl e) h = rw e h
  Acts-AllAllowed r t (inr (e, a, k)) h = rw k (All-concat Allowed r.effects h a)

  perform_effect-Acts : (e : Effect) (r : Run) → Allowed e → Acts r (perform_effect comp out e r).1
  unfolding perform_effect
  perform_effect-Acts e r a = inr (e, a, refl)

  check_name-granted :
      (names : List Text) (name : Option Json) (content : Text)
      → check_name names name ≡ granted content
      → one_of content names ≡ true
  unfolding check_name
  check_name-granted names none content h = test_name-granted names [] content h
  check_name-granted names (some (j_str s)) content h = test_name-granted names s content h
  check_name-granted names (some (j_arr xs)) content h = cc
  check_name-granted names (some (j_obj d)) content h = cc
  check_name-granted names (some j_null) content h = cc
  check_name-granted names (some (j_bool b)) content h = cc
  check_name-granted names (some (j_num t)) content h = cc

  behind_boundary-Acts :
      (names : List Text) (content : Text) (go : Run → Done × Run) (r : Run)
      → one_of content names ≡ true
      → (MayTouch names content → Acts r (go r).1)
      → Acts r (behind_boundary comp out content go r).1
  unfolding behind_boundary
  behind_boundary-Acts names content go r n k = elim (Option-cases (comp.boundary content)) [
    | inl b ↦ rw (b, behind_boundary) (k (n, b))
    | inr (m, b) ↦ rw (b, behind_boundary) (inl refl)
  ]

  guarded-Acts :
      (names : List Text) (input : Members) (go : Text → Run → Done × Run) (r : Run)
      → ((content : Text) → MayTouch names content → Acts r (go content r).1)
      → Acts r (guarded comp out names input go r).1
  unfolding guarded
  guarded-Acts names input go r k =
      elim (Named-cases (check_name names (get (codes "content_name") input))) [
        | inl (content, e) ↦
            rw (e, guarded)
              (behind_boundary-Acts names content (go content) r
                (check_name-granted names _ content e) (k content))
        | inr (inl e) ↦ rw (e, guarded) (inl refl)
        | inr (inr e) ↦ rw (e, guarded) (inl refl)
      ]

  transition_tool-Acts :
      (input : Members) (content : Text) (r : Run)
      → MayTouch comp.accesses content
      → Acts r (transition_tool comp out input content r).1
  unfolding transition_tool
  transition_tool-Acts input content r m = elim (Option-cases (machine_of comp out content input)) [
    | inl n ↦ rw (n, transition_tool) (inl refl)
    | inr (machine, e) ↦ rw (e, transition_tool) (perform_effect-Acts _ r m)
  ]

  conclude_body-state :
      (params : List Text) (result : Option Json × Members) (r : Run)
      → (conclude_body comp out params result r).1 ≡ r
  unfolding conclude_body
  conclude_body-state params (none, after) r = refl
  conclude_body-state params (some v, after) r = refl

  invoke_body-Acts :
      (name : Text) (target : Target) (body : Text) (input : Members) (r : Run)
      → one_of name comp.invokes ≡ true
      → Acts r (invoke_body comp out name target body input r).1
  unfolding invoke_body
  invoke_body-Acts name target body input r n =
      rw (conclude_body-state target.output_params _ _) (inr (_, n, refl))

  invoke_lines-Acts :
      (name : Text) (target : Target) (lines : List Text) (input : Members) (r : Run)
      → one_of name comp.invokes ≡ true
      → Acts r (invoke_lines comp out name target lines input r).1
  unfolding invoke_lines
  invoke_lines-Acts name target [] input r n = inl refl
  invoke_lines-Acts name target (body ∷ lines) input r n =
      invoke_body-Acts name target body input r n

  invoke_target-Acts :
      (name : Text) (target : Option Target) (input : Members) (r : Run)
      → one_of name comp.invokes ≡ true
      → Acts r (invoke_target comp out name target input r).1
  unfolding invoke_target
  invoke_target-Acts name none input r n = inl refl
  invoke_target-Acts name (some target) input r n =
      elim (Bool-cases (is_cel comp out target.provider)) [
        | inl c ↦ rw (c, invoke_target) (invoke_lines-Acts name target target.body_lines input r n)
        | inr f ↦ rw (f, invoke_target) (inl refl)
      ]

  pub dispatch-Acts :
      (name : Text) (input : Members) (r : Run) → Acts r (dispatch comp out name input r).1
  unfolding dispatch
  dispatch-Acts name input r = elim (Bool-cases (text_eq name (codes "content_query"))) [
    | inl e ↦
        rw (e, dispatch)
          (guarded-Acts (comp.accesses ++ comp.reads) input (query_tool comp out input) r
            (λ c m. perform_effect-Acts _ r m))
    | inr n ↦
        rw (n, dispatch)
          (elim (Bool-cases (text_eq name (codes "content_create"))) [
            | inl e ↦ rw e (
                guarded-Acts comp.accesses input (create_tool comp out input) r
                  (λ c m. perform_effect-Acts _ r m))
            | inr n ↦ rw n (elim (Bool-cases (text_eq name (codes "content_update"))) [
              | inl e ↦ rw e (
                  guarded-Acts comp.accesses input (update_tool comp out input) r
                    (λ c m. perform_effect-Acts _ r m))
              | inr n ↦ rw n (elim (Bool-cases (text_eq name (codes "state_transition"))) [
                | inl e ↦ rw e (
                    guarded-Acts comp.accesses input (transition_tool comp out input) r
                      (λ c m. transition_tool-Acts input c r m))
                | inr n ↦ rw n (elim (Bool-cases (one_of name comp.invokes)) [
                  | inl e ↦ rw e (invoke_target-Acts name (comp.targets name) input r e)
                  | inr n ↦ rw n (inl refl)
                ])
              ])
            ])
          ])
  ]

  refuse-AllAllowed :
      (input : Members) (r : Run) → AllAllowed r → AllAllowed (refuse comp out input r).1
  unfolding refuse
  refuse-AllAllowed input r h = elim (Option-cases r.refusal) [
    | inl n ↦ rw (n, refuse) h
    | inr (reason, e) ↦ rw (e, refuse) h
  ]

  on_writeback-AllAllowed :
      (e : Entry) (r : Run) → AllAllowed r → AllAllowed (on_writeback comp out e r)
  unfolding on_writeback
  on_writeback-AllAllowed e r h = elim (Bool-cases (is_refused r)) [
    | inl t ↦ rw (t, on_writeback) h
    | inr f ↦ rw (f, on_writeback) h
  ]

  execute_tool-AllAllowed :
      (name : Text) (input : Members) (r : Run)
      → AllAllowed r
      → AllAllowed (execute_tool comp out name input r).1
  unfolding execute_tool refuse
  execute_tool-AllAllowed name input r h =
      elim (Bool-cases (text_eq name (codes "system_refuse"))) [
        | inl e ↦ rw (e, execute_tool) (refuse-AllAllowed input r h)
        | inr n ↦
            rw (n, execute_tool)
              (elim (Bool-cases (is_refused r)) [
                | inl t ↦ rw t h
                | inr f ↦ rw f (Acts-AllAllowed r _ (dispatch-Acts name input r) h)
              ])
      ]

  -- Whatever the model asks for, each query, write, transition or invocation that an agent carries out
  -- in a conversation is allowed by its declaration, and its content is let pass by the boundary, if
  -- that holds of what the run has done before.
  pub agent_loop-Allowed :
      (client : Client) (max_turns : ℕ) (messages : List Message) (r : Run)
      → All Allowed r.effects
      → All Allowed
          (agent_loop_with_conversation client
            (runner comp out)
            max_turns
            messages
            r).1.state.effects
  unfolding runner on_writeback
  agent_loop-Allowed client max_turns messages r h =
      agent_loop-Respected client (runner comp out) {R = λ s t. AllAllowed s → AllAllowed t}
        (record {
          same = λ s k. k;
          both = λ f g k. g (f k);
          executes = λ name args s. execute_tool-AllAllowed name args s;
          writes = λ e s. on_writeback-AllAllowed e s;
          tells = λ t s k. k;
          ends = λ c s k. k;
        })
        max_turns messages r h
