-- ===== src/Rules/Entered/Endless.antt =====
-- Two rules that move a record to and fro: no guard ends their cascade. The model is of
-- `run_state_entered_event_handlers` in termin_server/app.py.
use termin_server.Base.{
  Json, ℕ, zero, suc, ◌+◌, ◌≤◌, arith, true, false, List, [], ◌∷◌, ◌++◌, codes, text_eq,
  text_eq_refl, Bool-cases, inl, inr, Option, none, some, Text, is_empty, is_true_json, Members,
  ◌≡◌, refl, sym, subst, ap, ◌∙◌,
}
use termin_server.Rules.{Rule, Deed, moved, published, World, Host, End, finished, raised, note}
use termin_server.Rules.Contexts.{parse_structured_fields}
use termin_server.Rules.Entered.{
  Entered, watches, spaced, move_record, entered_by, run_transition, is_unset, service_scopes,
  run_entered_rules, run_state_entered,
}
use termin_server.Rules.Entered.Shadowed.{run_entered_rules-transition, run_entered_rules-unwatched}
use termin_server.Rules.Handlers.{settle}
use termin_server.Rules.Entered.Moves.{id_of, move_on, move_to, moves, moves-append}

-- `InState` says in which state the record of the identifier `id` is in a store.
module _ {S : Type 0} (host : Host S) (InState : Text → S → Type 0) (id : Json)
    (invoked_by content machine a b : Text) where
  -- The two rules
  abbrev pub to_and_fro : List Rule
  to_and_fro = move_on content machine a b ∷ move_on content machine b a ∷ []

  abbrev pub at : Text → Entered
  at state = record { content = content; machine = machine; state = state }

  -- The record has the identifier, also once its fields are parsed.
  abbrev pub IsKnown : Members → Type 0
  IsKnown record_ = id_of (parse_structured_fields host content record_) ≡ id

  -- What a transition of the rules does with an identifier, for the scopes that the rules have.
  abbrev pub Moved : Text → S → Json → Type 0
  Moved target store i =
      let done =
        host.transition content i machine target (service_scopes host content machine) invoked_by
          store in
      (done.0 ≡ finished)
      × ((fresh : Members) × (host.read content i done.1 ≡ some fresh) × IsKnown fresh)
      × InState target done.1

  -- From one state the state machine takes the transition to the other, and the record stays.
  abbrev pub Takes : Text → Text → Type 0
  Takes state target = (store : S) → InState state store → Moved target store id

  settle-moves :
      (type_ : Text) (w : World S) → moves (settle host type_ (finished, w)).log ≡ moves w.log
  unfolding settle
  settle-moves type_ w = let h = moves-append w.log (published type_ ∷ []) in omega arith

  -- A cascade that makes no transition undone
  Grows : (Members → World S → World S) → Type 0
  Grows follow = (record_ : Members) (w : World S) → moves w.log ≤ moves (follow record_ w).log

  -- A cascade that makes so many transitions, for the record in a state
  Moves : Text → ℕ → (Members → World S → World S) → Type 0
  Moves state n follow =
      (record_ : Members) (w : World S)
      → InState state w.store
      → IsKnown record_
      → moves w.log + n ≤ moves (follow record_ w).log

  ended-Grows :
      (follow : Members → World S → World S) (ended : End) (store : S) (deed : Deed)
      (found : Option Members) (w : World S)
      → Grows follow
      → moves w.log
        ≤ moves
            (elim ended as (λ x. World S) [
              | raised ↦ record { store = store; log = w.log }
              | finished ↦ elim found as (λ x. World S) [
                | none ↦ note deed store w
                | some fresh ↦ follow fresh (note deed store w)
              ]
            ]).log
  unfolding Grows
  ended-Grows follow raised store deed found w grows = omega arith
  ended-Grows follow finished store deed none w grows =
      let h = moves-append w.log (deed ∷ []) in omega arith
  ended-Grows follow finished store deed (some fresh) w grows =
      let h = moves-append w.log (deed ∷ []) in
      let g = grows fresh (note deed store w) in omega arith

  run_transition-Grows :
      (cascade : Entered → Members → World S → World S) (target : Text) (record_ : Members)
      (w : World S)
      → Grows (cascade (at target))
      → moves w.log
        ≤ moves
            (run_transition host cascade invoked_by (move_to content machine target) record_ w).log
  unfolding run_transition move_record entered_by
  run_transition-Grows cascade target record_ w grows =
      let i = id_of record_ in
      let scopes = service_scopes host content machine in
      let done = host.transition content i machine target scopes invoked_by w.store in
      elim (Bool-cases (is_unset host (move_to content machine target) i)) [
        | inl t ↦ rw t (omega arith)
        | inr f ↦ rw f (
            ended-Grows (cascade (at target)) done.0 done.1 (moved content i machine target scopes)
              (host.read content i done.1) w grows)
      ]

  is_unset-set :
      (target : Text) (i : Json)
      → is_empty content ≡ false
      → is_empty machine ≡ false
      → is_empty target ≡ false
      → is_true_json i ≡ true
      → is_unset host (move_to content machine target) i ≡ false
  unfolding is_unset
  is_unset-set target i p q r t = rw (p, q, r, t) refl

  -- A record in the one state is moved to the other, and what follows is about it.
  run_transition-moves :
      (n : ℕ) (cascade : Entered → Members → World S → World S) (state target : Text)
      (record_ : Members) (w : World S)
      → Takes state target
      → Moves target n (cascade (at target))
      → is_unset host (move_to content machine target) (id_of record_) ≡ false
      → InState state w.store
      → id_of record_ ≡ id
      → moves w.log + suc n
        ≤ moves
            (run_transition host cascade invoked_by (move_to content machine target) record_ w).log
  unfolding run_transition move_record entered_by Moves
  run_transition-moves n cascade state target record_ w takes chain u here known =
      let i = id_of record_ in
      let scopes = service_scopes host content machine in
      let done = host.transition content i machine target scopes invoked_by w.store in
      let deed = moved content i machine target scopes in
      let (f, (fresh, r, l), there) =
        subst (Moved target w.store) (sym known) (takes w.store here) in
      let h = moves-append w.log (deed ∷ []) in
      let g = chain fresh (note deed done.1 w) there l in rw (u, f, r) (omega arith)

  watches-move_on :
      (state target : Text) → watches host (at state) (move_on content machine state target) ≡ true
  unfolding watches
  watches-move_on state target =
      rw (text_eq_refl content, text_eq_refl machine, text_eq_refl (spaced state)) refl

  watches-other :
      text_eq (spaced a) (spaced b) ≡ false
      → watches host (at b) (move_on content machine a b) ≡ false
  unfolding watches
  watches-other d = rw (text_eq_refl content, text_eq_refl machine, d) refl

  -- The record after a rule, and the world after its transition
  parsed : Members → Members
  parsed record_ = parse_structured_fields host content record_

  world_after : (Entered → Members → World S → World S) → Text → Members → World S → World S
  world_after cascade target record_ w = settle host (content ++ codes "_state_entered_handler") (
    finished,
    run_transition host cascade invoked_by (move_to content machine target) (parsed record_) w,
  )

  rules-move_on :
      (cascade : Entered → Members → World S → World S) (state target : Text) (rules : List Rule)
      (record_ : Members) (w : World S)
      → is_empty content ≡ false
      → run_entered_rules host cascade invoked_by
          (move_on content machine state target ∷ rules)
          (at state)
          record_
          w
        ≡ run_entered_rules host cascade invoked_by rules
            (at target)
            (parsed record_)
            (world_after cascade target record_ w)
  unfolding parsed world_after
  rules-move_on cascade state target rules record_ w p =
      run_entered_rules-transition host cascade invoked_by (move_on content machine state target)
        rules (move_to content machine target) (at state) record_ w refl p
        (watches-move_on state target)

  world_after-Grows :
      (cascade : Entered → Members → World S → World S) (target : Text) (record_ : Members)
      (w : World S)
      → Grows (cascade (at target))
      → moves w.log ≤ moves (world_after cascade target record_ w).log
  unfolding world_after parsed
  world_after-Grows cascade target record_ w grows =
      let g = run_transition-Grows cascade target (parsed record_) w grows in
      let s = settle-moves (content ++ codes "_state_entered_handler") (
        run_transition host cascade invoked_by (move_to content machine target) (parsed record_)
          w) in
      omega arith

  world_after-moves :
      (n : ℕ) (cascade : Entered → Members → World S → World S) (state target : Text)
      (record_ : Members) (w : World S)
      → Takes state target
      → Moves target n (cascade (at target))
      → is_unset host (move_to content machine target) id ≡ false
      → InState state w.store
      → IsKnown record_
      → moves w.log + suc n ≤ moves (world_after cascade target record_ w).log
  unfolding world_after parsed
  world_after-moves n cascade state target record_ w takes chain u here known =
      let g =
        run_transition-moves n cascade state target (parsed record_) w takes chain
          (ap (is_unset host (move_to content machine target)) known ∙ u) here known in
      let s = settle-moves (content ++ codes "_state_entered_handler") (
        run_transition host cascade invoked_by (move_to content machine target) (parsed record_)
          w) in
      omega arith

  from_first :
      (n : ℕ) (record_ : Members) (w : World S)
      → is_empty content ≡ false
      → run_state_entered host (suc n) invoked_by to_and_fro (at a) record_ w
        ≡ world_after
            (run_state_entered host n invoked_by to_and_fro)
            a
            (parsed record_)
            (world_after (run_state_entered host n invoked_by to_and_fro) b record_ w)
  unfolding run_state_entered
  from_first n record_ w p =
      let cascade = run_state_entered host n invoked_by to_and_fro in
      rules-move_on cascade a b (move_on content machine b a ∷ []) record_ w p
      ∙ rules-move_on cascade b a [] (parsed record_) (world_after cascade b record_ w) p

  from_second :
      (n : ℕ) (record_ : Members) (w : World S)
      → is_empty content ≡ false
      → text_eq (spaced a) (spaced b) ≡ false
      → run_state_entered host (suc n) invoked_by to_and_fro (at b) record_ w
        ≡ world_after (run_state_entered host n invoked_by to_and_fro) a record_ w
  unfolding run_state_entered
  from_second n record_ w p d =
      let cascade = run_state_entered host n invoked_by to_and_fro in
      run_entered_rules-unwatched host cascade invoked_by (move_on content machine a b)
        (move_on content machine b a ∷ []) (at b) record_ w (watches-other d)
      ∙ rules-move_on cascade b a [] record_ w p

  cascade-Grows :
      is_empty content ≡ false
      → text_eq (spaced a) (spaced b) ≡ false
      → (n : ℕ)
      → Grows (run_state_entered host n invoked_by to_and_fro (at a))
        × Grows (run_state_entered host n invoked_by to_and_fro (at b))
  unfolding Grows
  cascade-Grows p d zero =
      unfold run_state_entered in ((λ record_ w. omega arith), (λ record_ w. omega arith))
  cascade-Grows p d (suc n) =
      let cascade = run_state_entered host n invoked_by to_and_fro in
      let (from_a, from_b) = cascade-Grows p d n in
      (
        λ record_ w.
            let w1 = world_after cascade b record_ w in
            let g = world_after-Grows cascade b record_ w from_b in
            let h = world_after-Grows cascade a (parsed record_) w1 from_a in
            rw (from_first n record_ w p) (omega arith),
        λ record_ w.
            rw (from_second n record_ w p d) (world_after-Grows cascade a record_ w from_a),
      )

  cascade-Moves :
      is_empty content ≡ false
      → is_unset host (move_to content machine a) id ≡ false
      → is_unset host (move_to content machine b) id ≡ false
      → text_eq (spaced a) (spaced b) ≡ false
      → Takes a b
      → Takes b a
      → (n : ℕ)
      → Moves a n (run_state_entered host n invoked_by to_and_fro (at a))
        × Moves b n (run_state_entered host n invoked_by to_and_fro (at b))
  unfolding Moves
  cascade-Moves p ua ub d there back zero =
      unfold run_state_entered in ((λ record_ w i k. omega arith), (λ record_ w i k. omega arith))
  cascade-Moves p ua ub d there back (suc n) =
      let cascade = run_state_entered host n invoked_by to_and_fro in
      let (from_a, from_b) = cascade-Moves p ua ub d there back n in
      let grows = (cascade-Grows p d n).0 in
      (
        λ record_ w i k.
            let w1 = world_after cascade b record_ w in
            let g = world_after-moves n cascade a b record_ w there from_b ub i k in
            let h = world_after-Grows cascade a (parsed record_) w1 grows in
            rw (from_first n record_ w p) (omega arith),
        λ record_ w i k.
            rw (from_second n record_ w p d)
              (world_after-moves n cascade b a record_ w back from_a ua i k),
      )

  -- Two rules that move a record to and fro between two states, where the state machine takes, with
  -- the scopes of the rules, the transition from either of the two states to the other, and leaves
  -- the record in that state and with its identifier, which is true: once the first of the states is
  -- entered by the record, the handler makes at least as many transitions as its depth, for every depth.
  pub run_state_entered-moves :
      is_empty content ≡ false
      → is_empty machine ≡ false
      → is_empty a ≡ false
      → is_empty b ≡ false
      → is_true_json id ≡ true
      → text_eq (spaced a) (spaced b) ≡ false
      → Takes a b
      → Takes b a
      → (depth : ℕ) (record_ : Members) (w : World S) → InState a w.store
      → IsKnown record_
      → moves w.log + depth
        ≤ moves (run_state_entered host depth invoked_by to_and_fro (at a) record_ w).log
  unfolding Moves
  run_state_entered-moves p q r s t d there back depth record_ w i k =
      (cascade-Moves p (is_unset-set a id p q r t) (is_unset-set b id p q s t) d there back depth).0
        record_ w i k
