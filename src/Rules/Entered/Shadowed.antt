-- ===== src/Rules/Entered/Shadowed.antt =====
-- The transition of a rule changes the variable with the entered state, so the later rules on that state
-- are passed over. The model is of `run_state_entered_event_handlers` in termin_server/app.py.
use termin_server.Base.{
  true, false, List, [], ◌∷◌, Text, is_empty, Members, All, ◌++◌, codes, ◌≡◌, refl, ap, sym, ◌∙◌,
}
use termin_server.Rules.{Action, Rule, World, Host, End, finished, raised}
use termin_server.Rules.Entered.{
  Entered, watches, attend_entered, run_entered_rule, run_entered_action, run_transition,
  run_entered_rules,
}
use termin_server.Rules.Contexts.{parse_structured_fields, entered_context}
use termin_server.Rules.Handlers.{run_all, settle}

run_all-one :
    {A B : Type 0} (f : A → B → End × B) (a : A) (b c : B)
    → f a b ≡ (finished, c)
    → run_all f (a ∷ []) b ≡ (finished, c)
unfolding run_all
run_all-one {A} {B} f a b c h =
    ap (λ z. elim z.0 as (λ x. End × B) [ raised ↦ z | finished ↦ (finished, z.1) ]) h

module _ {S : Type 0} (host : Host S) (cascade : Entered → Members → World S → World S)
    (invoked_by : Text) where
  pub run_entered_rules-unwatched :
      (r : Rule) (rules : List Rule) (e : Entered) (record_ : Members) (w : World S)
      → watches host e r ≡ false
      → run_entered_rules host cascade invoked_by (r ∷ rules) e record_ w
        ≡ run_entered_rules host cascade invoked_by rules e record_ w
  unfolding run_entered_rules attend_entered
  run_entered_rules-unwatched r rules e record_ w f = rw (run_entered_rules, attend_entered, f) refl

  -- Rules that are not about the state do nothing.
  unwatched :
      (rules : List Rule) (e : Entered) (record_ : Members) (w : World S)
      → All (λ r. watches host e r ≡ false) rules
      → run_entered_rules host cascade invoked_by rules e record_ w ≡ w
  unfolding run_entered_rules
  unwatched [] e record_ w h = refl
  unwatched (r ∷ rules) e record_ w h =
      run_entered_rules-unwatched r rules e record_ w h.0 ∙ unwatched rules e record_ w h.1

  -- What an action of a transition does
  pub run_entered_action-transition :
      (content_name : Text) (record_ ctx : Members) (a : Action) (state : Text) (w : World S)
      → is_empty a.transition_content ≡ false
      → run_entered_action host cascade invoked_by content_name record_ ctx a (state, w)
        ≡ (finished, (a.transition_target, run_transition host cascade invoked_by a record_ w))
  unfolding run_entered_action
  run_entered_action-transition content_name record_ ctx a state w f = rw f refl

  run_entered_rule-transition :
      (content_name : Text) (r : Rule) (a : Action) (record_ : Members) (state : Text) (w : World S)
      → r.actions ≡ a ∷ []
      → is_empty a.transition_content ≡ false
      → run_entered_rule host cascade invoked_by content_name r record_ (state, w) ≡ (
        a.transition_target,
        settle host
            (content_name ++ codes "_state_entered_handler")
            (finished, run_transition host cascade invoked_by a record_ w),
      )
  unfolding run_entered_rule
  run_entered_rule-transition content_name r a record_ state w acts f =
      let ctx = entered_context host content_name record_ in
      let act = run_entered_action host cascade invoked_by content_name record_ ctx in
      ap
        (λ done. (
          done.1.0,
          settle host (content_name ++ codes "_state_entered_handler") (done.0, done.1.1),
        ))
        (ap (λ actions. run_all act actions (state, w)) acts
          ∙ run_all-one act a (state, w)
              (a.transition_target, run_transition host cascade invoked_by a record_ w)
              (run_entered_action-transition content_name record_ ctx a state w f))

  attended :
      (r : Rule) (e : Entered) (record_ : Members) (w : World S)
      → watches host e r ≡ true
      → attend_entered host cascade invoked_by r e record_ w ≡ (
        parse_structured_fields host e.content record_,
        run_entered_rule host cascade invoked_by e.content r
            (parse_structured_fields host e.content record_)
            (e.state, w),
      )
  unfolding attend_entered
  attended r e record_ w t = rw t refl

  -- A rule of one transition on the entered state
  pub run_entered_rules-transition :
      (r : Rule) (rules : List Rule) (a : Action) (e : Entered) (record_ : Members) (w : World S)
      → r.actions ≡ a ∷ []
      → is_empty a.transition_content ≡ false
      → watches host e r ≡ true
      → run_entered_rules host cascade invoked_by (r ∷ rules) e record_ w
        ≡ run_entered_rules host cascade invoked_by rules
            (record { content = e.content; machine = e.machine; state = a.transition_target })
            (parse_structured_fields host e.content record_)
            (settle host (e.content ++ codes "_state_entered_handler") (
              finished,
              run_transition host cascade invoked_by a
                  (parse_structured_fields host e.content record_)
                  w,
            ))
  unfolding run_entered_rules
  run_entered_rules-transition r rules a e record_ w acts f t =
      let parsed = parse_structured_fields host e.content record_ in
      ap
        (λ next.
          run_entered_rules host cascade invoked_by rules
            (record { content = e.content; machine = e.machine; state = next.1.0 }) next.0 next.1.1)
        (attended r e record_ w t
          ∙ ap (λ ran. (parsed, ran))
              (run_entered_rule-transition e.content r a parsed e.state w acts f))

  -- Once a rule on the entered state whose only action is a transition has run, only rules on the
  -- target of that transition run: where none of the later rules is about the target, they do nothing,
  -- also those on the entered state.
  pub run_entered_rules-shadowed :
      (r : Rule) (rules : List Rule) (a : Action) (e : Entered) (record_ : Members) (w : World S)
      → r.actions ≡ a ∷ []
      → is_empty a.transition_content ≡ false
      → watches host e r ≡ true
      → All
          (λ q.
            watches host
              (record { content = e.content; machine = e.machine; state = a.transition_target })
              q
            ≡ false)
          rules
      → run_entered_rules host cascade invoked_by (r ∷ rules) e record_ w
        ≡ run_entered_rules host cascade invoked_by (r ∷ []) e record_ w
  unfolding run_entered_rules
  run_entered_rules-shadowed r rules a e record_ w acts f t h =
      let parsed = parse_structured_fields host e.content record_ in
      run_entered_rules-transition r rules a e record_ w acts f t
      ∙ unwatched rules
          (record { content = e.content; machine = e.machine; state = a.transition_target }) parsed
          (settle host (e.content ++ codes "_state_entered_handler")
            (finished, run_transition host cascade invoked_by a parsed w))
          h
      ∙ sym (run_entered_rules-transition r [] a e record_ w acts f t)
