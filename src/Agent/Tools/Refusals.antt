-- ===== src/Agent/Tools/Refusals.antt =====
-- What a refusal of an agent puts an end to.
use termin_server.Base.{
  or_json, ℕ, Bool, true, false, List, [], ◌∷◌, ◌++◌, none, some, Text, codes, text_eq, text_eq_iff,
  is_empty, j_str, Members, get, Bool-cases, inl, inr, subst, ◌≡◌, refl, sym, ◌∙◌,
}
use termin_server.Agent.{
  Call, Entry, Message, Client, run_calls, is_refuse, args_of, agent_loop_with_conversation,
}
use termin_server.Agent.Kept.{agent_loop-Respected}
use termin_server.Agent.Tools.Grants.{dispatch-Acts}
use termin_server.Agent.Tools.{
  Compute, Outside, Run, is_refused, refuse, execute_tool, on_writeback, runner, dispatch,
}

pub is_refused-none : (s : Run) → s.refusal ≡ none → is_refused s ≡ false
is_refused-none s h = rw h refl

-- What is done and written stays as it was, and the run counts as refused.
pub record RefusedFrom (t u : Run) : Type 0 where
  pub effects_same : u.effects ≡ t.effects
  pub written_same : u.written ≡ t.written
  pub refused : is_refused u ≡ true

true-false : {b : Bool} → b ≡ true → b ≡ false → ⊥
true-false h k = cc

-- The reason of a run, once recorded, stays.
abbrev KeepsReason : Run → Run → Type 0
KeepsReason s t = (reason : Text) → s.refusal ≡ some reason → t.refusal ≡ some reason

pub on_writeback-refusal :
    (comp : Compute) (out : Outside) (e : Entry) (s : Run)
    → (on_writeback comp out e s).refusal ≡ s.refusal
unfolding on_writeback
on_writeback-refusal comp out e s = elim (Bool-cases (is_refused s)) [
  | inl t ↦ rw (t, on_writeback) refl
  | inr f ↦ rw (f, on_writeback) refl
]

module _ (client : Client) (comp : Compute) (out : Outside) where
  -- The reason that a refusal records.
  abbrev pub reason_of : Members → Text
  reason_of input = out.strip (out.str (or_json (get (codes "reason") input) (j_str [])))

  run_calls-refused :
      (calls : List Call) (s : Run)
      → is_refused s ≡ true
      → (run_calls client (runner comp out) calls s).1 ≡ s
  unfolding run_calls runner
  run_calls-refused [] s h = refl
  run_calls-refused (c ∷ calls) s h = rw (h, run_calls) refl

  execute_tool-refused :
      (input : Members) (s : Run)
      → s.refusal ≡ none
      → is_empty (reason_of input) ≡ false
      → RefusedFrom s (execute_tool comp out (codes "system_refuse") input s).1
  unfolding execute_tool refuse
  execute_tool-refused input s h e = record {
    effects_same = rw h refl;
    written_same = rw h refl;
    refused = rw (h, e) refl;
  }

  -- A blank reason leaves the run as one that is not refused.
  pub execute_tool-blank :
      (name : Text) (input : Members) (s : Run)
      → text_eq name (codes "system_refuse") ≡ true
      → s.refusal ≡ none
      → is_empty (reason_of input) ≡ true
      → is_refused (execute_tool comp out name input s).1 ≡ false
  unfolding execute_tool refuse
  execute_tool-blank name input s t h e = rw (t, execute_tool) (rw (h, e) refl)

  refused_call :
      (c : Call) (calls : List Call) (s : Run)
      → is_refuse c ≡ true
      → is_empty (reason_of (args_of c.input)) ≡ false
      → s.refusal ≡ none
      → RefusedFrom s (run_calls client (runner comp out) (c ∷ calls) s).1
  unfolding run_calls runner
  refused_call c calls s t e h =
      let name : c.name ≡ codes "system_refuse" =
        (text_eq_iff c.name (codes "system_refuse")).0 t in
      let a : RefusedFrom s (execute_tool comp out c.name (args_of c.input) s).1 =
        subst (λ (n : Text). RefusedFrom s (execute_tool comp out n (args_of c.input) s).1)
          (sym name) (execute_tool-refused (args_of c.input) s h e) in
      rw (is_refused-none s h, run_calls)
        (rw t (subst (RefusedFrom s) (sym (run_calls-refused calls _ a.refused)) a))

  -- A refusal that holds a reason, where none is recorded before it, ends a batch of calls: nothing
  -- behind it is done or written, and the run counts as refused.
  pub run_calls-RefusedFrom :
      (before : List Call) (c : Call) (calls : List Call) (s : Run)
      → is_refuse c ≡ true
      → is_empty (reason_of (args_of c.input)) ≡ false
      → (run_calls client (runner comp out) before s).1.refusal ≡ none
      → RefusedFrom
          (run_calls client (runner comp out) before s).1
          (run_calls client (runner comp out) (before ++ c ∷ calls) s).1
  unfolding run_calls runner
  run_calls-RefusedFrom [] c calls s t e h = refused_call c calls s t e h
  run_calls-RefusedFrom (d ∷ before) c calls s t e h = elim (Bool-cases (is_refused s)) [
    | inl r ↦ absurd (
        true-false r (
          is_refused-none s
            (subst (λ (u : Run). u.refusal ≡ none) (run_calls-refused (d ∷ before) s r) h)))
    | inr f ↦ elim (Bool-cases (is_refuse d)) [
      | inl x ↦
          rw (f, run_calls)
            (rw x (run_calls-RefusedFrom before c calls _ t e (rw x at (rw (f, run_calls) at h))))
      | inr n ↦
          rw (f, run_calls)
            (rw n (run_calls-RefusedFrom before c calls _ t e (rw n at (rw (f, run_calls) at h))))
    ]
  ]

  dispatch-KeepsReason :
      (name : Text) (input : Members) (s : Run) → KeepsReason s (dispatch comp out name input s).1
  dispatch-KeepsReason name input s reason h = elim (dispatch-Acts comp out name input s) [
    | inl e ↦ rw e h
    | inr (x, a, e) ↦ rw e h
  ]

  execute_tool-KeepsReason :
      (name : Text) (input : Members) (s : Run)
      → KeepsReason s (execute_tool comp out name input s).1
  unfolding execute_tool refuse
  execute_tool-KeepsReason name input s reason h =
      elim (Bool-cases (text_eq name (codes "system_refuse"))) [
        | inl e ↦ rw (e, execute_tool) (rw h h)
        | inr n ↦
            rw (n, execute_tool)
              (elim (Bool-cases (is_refused s)) [
                | inl t ↦ rw t h
                | inr f ↦ rw f (dispatch-KeepsReason name input s reason h)
              ])
      ]

  on_writeback-KeepsReason : (e : Entry) (s : Run) → KeepsReason s (on_writeback comp out e s)
  on_writeback-KeepsReason e s reason h = on_writeback-refusal comp out e s ∙ h

  -- A reason that is recorded, even an empty one, is never replaced.
  pub agent_loop-reason :
      (max_turns : ℕ) (messages : List Message) (s : Run) (reason : Text)
      → s.refusal ≡ some reason
      → (agent_loop_with_conversation client (runner comp out) max_turns messages s).1.state.refusal
        ≡ some reason
  unfolding runner
  agent_loop-reason max_turns messages s reason h =
      agent_loop-Respected client (runner comp out) {R = KeepsReason}
        (record {
          same = λ s x h. h;
          both = λ f g x h. g x (f x h);
          executes = execute_tool-KeepsReason;
          writes = on_writeback-KeepsReason;
          tells = λ t s x h. h;
          ends = λ c s x h. h;
        })
        max_turns messages s reason h
