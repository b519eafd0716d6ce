-- ===== src/Transitions/Clients.antt =====
-- What the kind of client changes of a transition.
use termin_server.Base.{
  ℕ, Bool, true, false, Text, one_of, Members, empty, Bool-cases, inl, inr, ◌≡◌, refl, sym, ◌∙◌,
}
use termin_server.Identity.Users.{User}
use termin_server.Transitions.Messages.{Step}
use termin_server.Transitions.{
  Headers, Reply, json_reply, redirect, http_error, Moved, moved, refused, Host, is_ajax,
  is_browser_form, or_members, with_spaces, success_reply, error_reply, conclude_move, run_move,
  step_of, generic_transition,
}

-- Whether a reply is an error.
abbrev pub failed : Reply → Bool
failed (json_reply d) = false
failed (redirect url) = false
failed (http_error status detail) = true

-- Two replies to one transition.
pub record SameMove {S : Type 0} (h k : Headers) (o p : Reply × S) : Type 0 where
  pub state_same : o.1 ≡ p.1
  pub failure_same : is_browser_form h ≡ false → is_browser_form k ≡ false → failed o.0 ≡ failed p.0

module _ {S : Type 0} (host : Host S) where
  success-failed :
      (h : Headers) (id : ℕ) (result record_ : Members) (step : Step)
      → is_browser_form h ≡ false
      → failed (success_reply host h id result record_ step) ≡ false
  unfolding success_reply
  success-failed h id result record_ step f = elim (Bool-cases (is_ajax h)) [
    | inl t ↦ rw (t, success_reply) refl
    | inr n ↦ rw (n, success_reply) (rw f refl)
  ]

  error-failed :
      (h : Headers) (status : ℕ) (detail : Text) (record_ : Members) (step : Step)
      → is_browser_form h ≡ false
      → failed (error_reply host h status detail record_ step) ≡ true
  unfolding error_reply
  error-failed h status detail record_ step f = elim (Bool-cases (is_ajax h)) [
    | inl t ↦ rw (t, error_reply) refl
    | inr n ↦ rw (n, error_reply) (rw f refl)
  ]

  conclude_move-SameMove :
      (h k : Headers) (user : User) (id : ℕ) (record_ : Members) (step : Step) (o : Moved × S)
      → SameMove h k
          (conclude_move host h user id record_ step o)
          (conclude_move host k user id record_ step o)
  unfolding conclude_move
  conclude_move-SameMove h k user id record_ step (moved result, s) = record {
    state_same = refl;
    failure_same = λ f g.
        success-failed h id result record_ step f ∙ sym (success-failed k id result record_ step g);
  }
  conclude_move-SameMove h k user id record_ step (refused status detail, s) = record {
    state_same = refl;
    failure_same = λ f g.
        error-failed h status detail record_ step f
        ∙ sym (error-failed k status detail record_ step g);
  }

  -- The headers of a request change only how a transition is answered: the state that it leaves is the
  -- same for every client, and it is an error for one client that is no browser form exactly if it is
  -- for every other.
  pub generic_transition-SameMove :
      (h k : Headers) (user : User) (content machine : Text) (id : ℕ) (target_state : Text) (s : S)
      → SameMove h k
          (generic_transition host h user content machine id target_state s)
          (generic_transition host k user content machine id target_state s)
  unfolding generic_transition run_move
  generic_transition-SameMove h k user content machine id target_state s =
      elim (Bool-cases (one_of content host.content_lookup)) [
        | inl t ↦
            let record_ = or_members (host.read content id s) empty in
            rw (t, generic_transition)
              (conclude_move-SameMove h k user id record_
                (step_of host content machine (with_spaces target_state) record_)
                (host.transition content id machine (with_spaces target_state) user s))
        | inr f ↦
            rw (f, generic_transition) (record { state_same = refl; failure_same = λ x y. refl })
      ]
