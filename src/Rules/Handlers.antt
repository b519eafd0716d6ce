-- ===== src/Rules/Handlers.antt =====
-- The handlers of an event of a record: `run_event_handlers` of termin_server/app.py.
use termin_server.Base.{
  ℕ, Bool, true, false, not, List, [], ◌∷◌, ◌++◌, ◌&&◌, ◌||◌, ◌==◌, Option, none, some, Text, codes,
  text_eq, one_of, is_empty, is_within, is_space, if◌then◌else◌, j_bool, j_obj, Members, put,
  is_true_json,
}
use termin_server.Pages.{lstrip}
use termin_server.Transitions.Messages.{rstrip_s}
use termin_server.Rules.{Rule, published, started, World, note, End, finished, raised, Host}
use termin_server.Rules.Contexts.{
  parse_structured_fields, singular_of, bind_appended, event_context,
}
use termin_server.Rules.Actions.{run_action}

-- A compute with a trigger; "" for no condition
pub record Triggered : Type 0 where
  pub name : Text
  pub trigger : Text
  pub trigger_where : Text

-- The actions of a rule, until one raises
unfoldable pub run_all {ℓ κ} : {A : Type ℓ} {B : Type κ} → (A → B → End × B) → List A → B → End × B
run_all f [] b = (finished, b)
run_all f (a ∷ more) b = elim (f a b).0 [ raised ↦ f a b | finished ↦ run_all f more (f a b).1 ]

-- The text after a prefix
pub drop_start : Text → Text → Option Text
drop_start [] s = some s
drop_start (c ∷ cs) [] = none
drop_start (c ∷ cs) (d ∷ s) = let rest = drop_start cs s in if c == d then rest else none

-- `s.lstrip()`
pub lstrip_space : Text → Text
lstrip_space [] = []
lstrip_space (d ∷ s) = let rest = lstrip_space s in if is_space d then rest else d ∷ s

pub rstrip_space : Text → Text
rstrip_space [] = []
rstrip_space (d ∷ s) =
    let rest = rstrip_space s in if is_empty rest && is_space d then [] else d ∷ rest

-- `s.rstrip(c)`
pub rstrip : ℕ → Text → Text
rstrip c [] = []
rstrip c (d ∷ s) = let rest = rstrip c s in if is_empty rest && d == c then [] else d ∷ rest

-- The event that a trigger names: `.strip().strip('"')`
pub event_of : Text → Option Text
unfolding drop_start lstrip_space rstrip_space rstrip
event_of trigger = elim (drop_start (codes "event ") trigger) [
  | none ↦ none
  | some rest ↦ some (lstrip 34 (rstrip 34 (lstrip_space (rstrip_space rest))))
]

module _ {S : Type 0} (host : Host S) where
  -- A rule that has run: its event, unless an action raised
  unfoldable pub settle : Text → End × World S → World S
  settle type_ (finished, w) = note (published type_) w.store w
  settle type_ (raised, w) = w

  -- Whether a rule on an expression is about the event
  pub is_about : Text → Option Members → Rule → Bool
  is_about content_name entry r =
      text_eq r.trigger (codes "expr")
      && (not (is_empty r.condition_expr)
          && (text_eq content_name r.source_content && elim entry [
            | some e ↦ true
            | none ↦ not (is_within (codes "appended_entry") r.condition_expr)
          ]))

  pub run_rule : Text → Text → Option Members → Rule → Members → World S → World S
  unfolding settle run_all
  run_rule invoked_by content_name entry r record_ w =
      let ctx = event_context host content_name record_ entry in
      elim (host.evaluate r.condition_expr ctx) [
        | none ↦ w
        | some v ↦
            if is_true_json v
            then settle (r.source_content ++ codes "_event")
                (run_all (run_action host invoked_by content_name entry record_ ctx) r.actions w)
            else w
      ]

  -- A rule on an event: one that is about it has the record parsed.
  pub attend : Text → Text → Option Members → Rule → Members → World S → Members × World S
  unfolding is_about run_rule
  attend invoked_by content_name entry r record_ w =
      let parsed = parse_structured_fields host content_name record_ in
      if◌then◌else◌ {A = Members × World S} (is_about content_name entry r)
        (parsed, run_rule invoked_by content_name entry r parsed w) (record_, w)

  pub run_rules : Text → Text → Option Members → List Rule → Members → World S → Members × World S
  unfolding attend
  run_rules invoked_by content_name entry [] record_ w = (record_, w)
  run_rules invoked_by content_name entry (r ∷ rs) record_ w =
      let next = attend invoked_by content_name entry r record_ w in
      run_rules invoked_by content_name entry rs next.0 next.1

  -- The names of an event
  pub event_types : Text → Text → List Text
  event_types content_name trigger =
      let event_type = rstrip_s content_name ++ b'.' ∷ trigger in
      let singular = host.singular_lookup content_name in
      event_type
      ∷ (if is_empty singular then event_type else singular ++ b'.' ∷ trigger)
      ∷ (content_name ++ b'.' ∷ trigger)
      ∷ []

  -- What the condition of a compute sees
  pub trigger_context : Text → Members → Option Members → Members
  trigger_context content_name record_ entry = bind_appended host entry (
      put (singular_of host content_name)
        (j_obj (put (codes "updated") (j_bool true) (put (codes "created") (j_bool true) record_)))
        record_)

  pub is_started : Text → Text → Members → Option Members → Triggered → Bool
  unfolding event_of event_types trigger_context
  is_started content_name trigger record_ entry c = elim (event_of c.trigger) [
    | none ↦ false
    | some e ↦
        one_of e (event_types content_name trigger)
        && (is_empty c.trigger_where
            || elim (host.evaluate c.trigger_where (trigger_context content_name record_ entry)) [
              | none ↦ false
              | some v ↦ is_true_json v
            ])
  ]

  -- An application for which every caller is anonymous
  pub is_anonymous_only : List Text → Bool
  is_anonymous_only [] = false
  is_anonymous_only (role ∷ []) = text_eq (host.lower role) (codes "anonymous")
  is_anonymous_only (role ∷ next ∷ roles) = false

  -- Each compute that is started runs in a thread of its own.
  pub run_triggers :
      Text → Text → List Text → List Triggered → Members → Option Members → World S → World S
  unfolding is_started is_anonymous_only
  run_triggers content_name trigger roles [] record_ entry w = w
  run_triggers content_name trigger roles (c ∷ cs) record_ entry w =
      run_triggers content_name trigger roles cs record_ entry (
        if is_started content_name trigger record_ entry c
        then note (started c.name (is_anonymous_only roles) record_ entry) w.store w
        else w)

  -- `run_event_handlers`
  pub run_event_handlers :
      List Rule
      → List Triggered
      → List Text
      → Text
      → Text
      → Text
      → Option Members
      → Members
      → World S
      → World S
  unfolding run_rules run_triggers
  run_event_handlers rules computes roles invoked_by content_name trigger entry record_ w =
      let done = run_rules invoked_by content_name entry rules record_ w in
      run_triggers content_name trigger roles computes done.0 entry done.1
