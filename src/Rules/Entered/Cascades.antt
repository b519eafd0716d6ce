-- ===== src/Rules/Entered/Cascades.antt =====
-- A cascade of entered states ends where the transitions of the rules lead downwards. The model is of
-- `run_state_entered_event_handlers` in termin_server/app.py.
use termin_server.Base.{
  ℕ, zero, suc, ◌≤◌, ◌<◌, arith, true, false, List, [], ◌∷◌, ◌++◌, codes, Bool-cases, text_eq_iff,
  inl, inr, Text, is_empty, Members, All, ◌≡◌, refl, sym, ap, ◌∙◌, fun_ext,
}
use termin_server.Rules.{Action, Rule, World, Host, End, finished}
use termin_server.Rules.Contexts.{parse_structured_fields, entered_context}
use termin_server.Rules.Entered.{
  Entered, watches, spaced, attend_entered, run_entered_rule, run_entered_action, run_transition,
  move_record, entered_by, run_entered_rules, run_state_entered,
}
use termin_server.Rules.Handlers.{settle}
use termin_server.Rules.Entered.Shadowed.{run_entered_action-transition}
use termin_server.Rules.Entered.Folds.{run_all-keeps, run_all-same}

-- The transitions of some actions lead to states below a bound.
abbrev pub Below : (Text → ℕ) → ℕ → List Action → Type 0
Below rank k actions =
    All (λ a. is_empty a.transition_content ≡ false → rank (spaced a.transition_target) < k) actions

-- The transitions of a rule lead below the state that it is about.
abbrev pub Descends : (Text → ℕ) → Rule → Type 0
Descends rank r = Below rank (rank (spaced r.trigger_state_value)) r.actions

Below-≤ :
    (rank : Text → ℕ) (j k : ℕ) (actions : List Action)
    → j ≤ k
    → Below rank j actions
    → Below rank k actions
Below-≤ rank j k [] h b = tt
Below-≤ rank j k (a ∷ more) h b = ((λ f. let g = b.0 f in omega arith), Below-≤ rank j k more h b.1)

module _ {S : Type 0} (host : Host S) (rank : Text → ℕ) (invoked_by : Text) where
  -- Two cascades that do the same for states below a bound
  Same : ℕ → (f g : Entered → Members → World S → World S) → Type 0
  Same k f g =
      (e : Entered) (record_ : Members) (w : World S)
      → rank (spaced e.state) < k
      → f e record_ w ≡ g e record_ w

  run_transition-Same :
      (k : ℕ) (f g : Entered → Members → World S → World S) (a : Action) (record_ : Members)
      (w : World S)
      → Same k f g
      → rank (spaced a.transition_target) < k
      → run_transition host f invoked_by a record_ w ≡ run_transition host g invoked_by a record_ w
  unfolding run_transition Same entered_by
  run_transition-Same k f g a record_ w s h =
      ap (λ follow. move_record host follow invoked_by a record_ w)
        (fun_ext (λ fresh. fun_ext (λ after. s (entered_by a) fresh after h)))

  action-Same :
      (k : ℕ) (f g : Entered → Members → World S → World S) (content_name : Text)
      (record_ ctx : Members) (a : Action) (b : Text × World S)
      → Same k f g
      → (is_empty a.transition_content ≡ false → rank (spaced a.transition_target) < k)
      → run_entered_action host f invoked_by content_name record_ ctx a b
        ≡ run_entered_action host g invoked_by content_name record_ ctx a b
  unfolding run_entered_action
  action-Same k f g content_name record_ ctx a (state, w) s h =
      elim (Bool-cases (is_empty a.transition_content)) [
        | inl t ↦ rw t refl
        | inr n ↦
            run_entered_action-transition host f invoked_by content_name record_ ctx a state w n
            ∙ ap (λ v. (finished, (a.transition_target, v)))
                (run_transition-Same k f g a record_ w s (h n))
            ∙ sym (
                run_entered_action-transition host g invoked_by content_name record_ ctx a state w
                  n)
      ]

  -- An action leaves the state, or sets it to that of its transition.
  action-state :
      (k : ℕ) (f : Entered → Members → World S → World S) (content_name : Text)
      (record_ ctx : Members) (a : Action) (b : Text × World S)
      → (is_empty a.transition_content ≡ false → rank (spaced a.transition_target) < k)
      → rank (spaced b.0) ≤ k
      → rank (spaced (run_entered_action host f invoked_by content_name record_ ctx a b).1.0) ≤ k
  unfolding run_entered_action
  action-state k f content_name record_ ctx a (state, w) h b =
      elim (Bool-cases (is_empty a.transition_content)) [
        | inl t ↦ rw t (elim (Bool-cases (is_empty a.append_field)) [
          | inl u ↦
              rw u
                (elim (Bool-cases (is_empty a.update_content)) [ inl v ↦ rw v b | inr v ↦ rw v b ])
          | inr u ↦ rw u b
        ])
        | inr n ↦ rw n (let g = h n in omega arith)
      ]

  actions-Same :
      (k : ℕ) (f g : Entered → Members → World S → World S) (content_name : Text)
      (record_ ctx : Members) (actions : List Action)
      → Same k f g
      → Below rank k actions
      → All
          (λ a.
            (b : Text × World S)
            → run_entered_action host f invoked_by content_name record_ ctx a b
              ≡ run_entered_action host g invoked_by content_name record_ ctx a b)
          actions
  actions-Same k f g content_name record_ ctx [] s h = tt
  actions-Same k f g content_name record_ ctx (a ∷ more) s h = (
    (λ b. action-Same k f g content_name record_ ctx a b s h.0),
    actions-Same k f g content_name record_ ctx more s h.1,
  )

  actions-state :
      (k : ℕ) (f : Entered → Members → World S → World S) (content_name : Text)
      (record_ ctx : Members) (actions : List Action)
      → Below rank k actions
      → All
          (λ a.
            (b : Text × World S)
            → rank (spaced b.0) ≤ k
            → rank (spaced (run_entered_action host f invoked_by content_name record_ ctx a b).1.0)
              ≤ k)
          actions
  actions-state k f content_name record_ ctx [] h = tt
  actions-state k f content_name record_ ctx (a ∷ more) h = (
    (λ b p. action-state k f content_name record_ ctx a b h.0 p),
    actions-state k f content_name record_ ctx more h.1,
  )

  -- A rule that is about the state
  rule-Same :
      (k : ℕ) (f g : Entered → Members → World S → World S) (content_name : Text) (r : Rule)
      (record_ : Members) (b : Text × World S)
      → Same k f g
      → Below rank k r.actions
      → run_entered_rule host f invoked_by content_name r record_ b
        ≡ run_entered_rule host g invoked_by content_name r record_ b
  unfolding run_entered_rule
  rule-Same k f g content_name r record_ b s h =
      let ctx = entered_context host content_name record_ in
      ap
        (λ (done : End × (Text × World S)). (
          done.1.0,
          settle host (content_name ++ codes "_state_entered_handler") (done.0, done.1.1),
        ))
        (run_all-same (run_entered_action host f invoked_by content_name record_ ctx)
          (run_entered_action host g invoked_by content_name record_ ctx) r.actions b
          (actions-Same k f g content_name record_ ctx r.actions s h))

  rule-state :
      (k : ℕ) (f : Entered → Members → World S → World S) (content_name : Text) (r : Rule)
      (record_ : Members) (b : Text × World S)
      → Below rank k r.actions
      → rank (spaced b.0) ≤ k
      → rank (spaced (run_entered_rule host f invoked_by content_name r record_ b).0) ≤ k
  unfolding run_entered_rule
  rule-state k f content_name r record_ b h p =
      let ctx = entered_context host content_name record_ in
      run_all-keeps (λ (c : Text × World S). rank (spaced c.0) ≤ k)
        (run_entered_action host f invoked_by content_name record_ ctx) r.actions b
        (actions-state k f content_name record_ ctx r.actions h) p

  -- A rule that is about the state is about a state of the same rank.
  watched-Below :
      (k : ℕ) (e : Entered) (r : Rule)
      → watches host e r ≡ true
      → rank (spaced e.state) ≤ k
      → Descends rank r
      → Below rank k r.actions
  unfolding watches
  watched-Below k e r t p h =
      let same = (text_eq_iff (spaced r.trigger_state_value) (spaced e.state)).0 (ground arith) in
      Below-≤ rank (rank (spaced r.trigger_state_value)) k r.actions (rw same p) h

  attend-Same :
      (k : ℕ) (f g : Entered → Members → World S → World S) (r : Rule) (e : Entered)
      (record_ : Members) (w : World S)
      → Same k f g
      → rank (spaced e.state) ≤ k
      → Descends rank r
      → (attend_entered host f invoked_by r e record_ w
          ≡ attend_entered host g invoked_by r e record_ w)
        × (rank (spaced (attend_entered host g invoked_by r e record_ w).1.0) ≤ k)
  unfolding attend_entered
  attend-Same k f g r e record_ w s p h = elim (Bool-cases (watches host e r)) [
    | inl t ↦
        let parsed = parse_structured_fields host e.content record_ in
        let below = watched-Below k e r t p h in
        rw t (
          ap (λ (ran : Text × World S). (parsed, ran))
              (rule-Same k f g e.content r parsed (e.state, w) s below),
          rule-state k g e.content r parsed (e.state, w) below p,
        )
    | inr n ↦ rw n (refl, p)
  ]

  rules-Same :
      (k : ℕ) (f g : Entered → Members → World S → World S) (rules : List Rule) (e : Entered)
      (record_ : Members) (w : World S)
      → Same k f g
      → rank (spaced e.state) ≤ k
      → All (Descends rank) rules
      → run_entered_rules host f invoked_by rules e record_ w
        ≡ run_entered_rules host g invoked_by rules e record_ w
  unfolding run_entered_rules
  rules-Same k f g [] e record_ w s p h = refl
  rules-Same k f g (r ∷ rules) e record_ w s p h =
      let a = attend-Same k f g r e record_ w s p h.0 in
      let next = attend_entered host g invoked_by r e record_ w in
      ap
        (λ (n : Members × (Text × World S)).
          run_entered_rules host f invoked_by rules
            (record { content = e.content; machine = e.machine; state = n.1.0 }) n.0 n.1.1)
        a.0
      ∙ rules-Same k f g rules
          (record { content = e.content; machine = e.machine; state = next.1.0 }) next.0 next.1.1 s
          a.1 h.1

  depths-Same :
      (rules : List Rule)
      → All (Descends rank) rules
      → (k m n : ℕ) → k ≤ m
      → k ≤ n
      → Same k
          (run_state_entered host m invoked_by rules)
          (run_state_entered host n invoked_by rules)
  unfolding run_state_entered Same
  depths-Same rules h k zero n p q e record_ w l = absurd (omega arith)
  depths-Same rules h k (suc m) zero p q e record_ w l = absurd (omega arith)
  depths-Same rules h k (suc m) (suc n) p q e record_ w l =
      let j = rank (spaced e.state) in
      rules-Same j (run_state_entered host m invoked_by rules)
        (run_state_entered host n invoked_by rules) rules e record_ w
        (depths-Same rules h j m n (omega arith) (omega arith)) (omega arith) h

  -- Where every transition of the rules leads to a state of a lower rank, the cascade of a state is the
  -- same at every depth above its rank: it ends before it needs more of the stack.
  pub run_state_entered-ends :
      (rules : List Rule)
      → All (Descends rank) rules
      → (m n : ℕ) (e : Entered) (record_ : Members) (w : World S) → rank (spaced e.state) < m
      → rank (spaced e.state) < n
      → run_state_entered host m invoked_by rules e record_ w
        ≡ run_state_entered host n invoked_by rules e record_ w
  unfolding Same
  run_state_entered-ends rules h m n e record_ w p q =
      depths-Same rules h (suc (rank (spaced e.state))) m n (omega arith) (omega arith) e record_ w
        (omega arith)
