-- ===== src/Agent/Tools/Answered.antt =====
-- The conversation of an agent's run, as the model's service sees it.
use termin_server.Base.{
  ℕ, Bool, true, false, not, List, none, some, Text, codes, text_eq, is_empty, Members, All,
  Bool-cases, Option-cases, inl, inr, subst, ◌≡◌, refl, sym, ◌∙◌,
}
use termin_server.Agent.{Message, Client, agent_loop_with_conversation}
use termin_server.Agent.Answers.{IsAnswered, Signals, Reasons, agent_loop-IsAnswered}
use termin_server.Agent.Tools.{Compute, Outside, Run, is_refused, refuse, execute_tool, runner}
use termin_server.Agent.Tools.Grants.{dispatch-Acts}
use termin_server.Agent.Tools.Refusals.{reason_of, on_writeback-refusal}

-- A run without a blank reason.
abbrev pub NotBlank : Run → Type 0
NotBlank s = (reason : Text) → s.refusal ≡ some reason → is_empty reason ≡ false

not-false : (b : Bool) → not b ≡ true → b ≡ false
not-false true h = cc
not-false false h = refl

some-injective : {s t : Text} → some s ≡ some t → s ≡ t
some-injective h = cc

none-some : {s : Text} → none ≡ some s → ⊥
none-some h = cc

module _ (client : Client) (comp : Compute) (out : Outside) where
  -- Whether the arguments of a refusal hold a reason.
  abbrev pub reasoned : Members → Bool
  reasoned args = not (is_empty (reason_of client comp out args))

  refuse-NotBlank :
      (args : Members) (s : Run)
      → reasoned args ≡ true
      → NotBlank s
      → NotBlank (refuse comp out args s).1
  unfolding refuse
  refuse-NotBlank args s p i reason h = elim (Option-cases s.refusal) [
    | inl n ↦
        subst (λ (r : Text). is_empty r ≡ false) (some-injective (rw (n, refuse) at h))
          (not-false _ p)
    | inr (r, e) ↦
        subst (λ (t : Text). is_empty t ≡ false) (some-injective (sym e ∙ rw (e, refuse) at h))
          (i r e)
  ]

  refuse-refused :
      (args : Members) (s : Run)
      → reasoned args ≡ true
      → NotBlank s
      → is_refused (refuse comp out args s).1 ≡ true
  unfolding refuse
  refuse-refused args s p i = elim (Option-cases s.refusal) [
    | inl n ↦ rw (n, refuse) p
    | inr (r, e) ↦ rw (e, refuse) (rw e (rw (i r e) refl))
  ]

  execute_tool-NotBlank :
      (name : Text) (args : Members) (s : Run)
      → (text_eq name (codes "system_refuse") ≡ true → reasoned args ≡ true)
      → NotBlank s
      → NotBlank (execute_tool comp out name args s).1
  unfolding execute_tool
  execute_tool-NotBlank name args s p i = elim (Bool-cases (text_eq name (codes "system_refuse"))) [
    | inl t ↦ rw (t, execute_tool) (refuse-NotBlank args s (p t) i)
    | inr n ↦
        rw (n, execute_tool)
          (elim (Bool-cases (is_refused s)) [
            | inl t ↦ rw t i
            | inr f ↦ rw f (elim (dispatch-Acts comp out name args s) [
              | inl e ↦ rw e i
              | inr (x, a, e) ↦ rw e i
            ])
          ])
  ]

  runner-Signals : Signals client (runner comp out) reasoned NotBlank
  unfolding runner execute_tool
  runner-Signals = record {
    executes = execute_tool-NotBlank;
    writes = λ e s i reason h. i reason (sym (on_writeback-refusal comp out e s) ∙ h);
    tells = λ text s i. i;
    ends = λ committed s i. i;
    halts = λ args s p i. refuse-refused args s p i;
  }

  -- As long as the model gives a reason with each refusal, every request of an agent's run has the
  -- results of exactly its calls behind each turn with calls, if the conversation has, and no blank
  -- reason is recorded before.
  pub runner-IsAnswered :
      (max_turns : ℕ) (messages : List Message) (s : Run)
      → Reasons client (runner comp out) reasoned
      → s.refusal ≡ none
      → IsAnswered messages
      → All IsAnswered
          (agent_loop_with_conversation client (runner comp out) max_turns messages s).1.asked
  runner-IsAnswered max_turns messages s p n m =
      agent_loop-IsAnswered client (runner comp out) reasoned max_turns messages s runner-Signals p
        (λ reason h. absurd (none-some (sym n ∙ h))) m
