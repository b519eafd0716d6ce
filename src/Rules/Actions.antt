-- ===== src/Rules/Actions.antt =====
-- The actions of a rule but its transitions: `_execute_when_rule_append`, `_execute_owner_keyed_update`
-- and the branches for an update, an insertion and a channel in the event handlers of
-- termin_server/app.py. A caller that is not known is "".
pub mod Owners
use termin_server.Base.{
  ℕ, Bool, true, false, not, List, [], ◌∷◌, ◌++◌, ◌&&◌, ◌||◌, Option, none, some, Text, codes,
  text_eq, is_empty, if◌then◌else◌, Json, j_null, j_bool, j_num, j_str, j_arr, j_obj, Members,
  empty, member, get, put, without, or_json, is_true_json,
}
use termin_server.Rules.{
  Action, Field, Content, Deed, appended, updated, created, inserted, sent, World, note, End,
  finished, raised, Host,
}
use termin_server.Rules.Contexts.{find_content, build_default_record, put_all}

-- A falsy dict
pub is_no_record : Members → Bool
is_no_record empty = true
is_no_record (member k v d) = false

-- `d.get(k) or ""`
pub or_blank : Option Json → Json
or_blank none = j_str []
or_blank (some v) = if is_true_json v then v else j_str []

-- The row of the target that the storage has, if it has one
pub existing_of : List Members → Option Members
unfolding is_no_record
existing_of [] = none
existing_of (row ∷ rows) = if is_no_record row then none else some row

-- A caller without a record of its own
pub is_anonymous : Text → Bool
is_anonymous principal = is_empty principal || text_eq principal (codes "anonymous")

module _ {S : Type 0} (host : Host S) where
  -- `str(v)`
  pub string_of : Json → Text
  string_of (j_str s) = s
  string_of v = host.str v

  -- The patch of an update; none once an assignment raises.
  pub assigned : List (Text × Text) → Members → Members → Option Members
  assigned [] ctx patch = some patch
  assigned ((column, expr) ∷ rest) ctx patch = elim (host.evaluate expr ctx) [
    | none ↦ none
    | some v ↦ assigned rest ctx (put column v patch)
  ]

  -- The patch, where there is something to write
  pub patch_of : Action → Members → Option Members
  unfolding assigned is_no_record
  patch_of a ctx = elim (assigned a.update_assignments ctx empty) [
    | none ↦ none
    | some patch ↦ if is_no_record patch then none else some patch
  ]

  -- An update of the record of the event
  pub same_record_update : Action → Members → Members → World S → World S
  unfolding patch_of
  same_record_update a record_ ctx w =
      let target = or_json (get (codes "id") record_) j_null in
      if not (is_true_json target) then w else elim (patch_of a ctx) [
        | none ↦ w
        | some patch ↦
            note (updated a.update_content target patch)
              (host.update a.update_content target patch w.store) w
      ]

  pub source_owner : Text → Members → Text
  unfolding string_of
  source_owner content_name record_ = elim (find_content content_name host.contents) [
    | none ↦ []
    | some c ↦ if is_empty c.owner then [] else string_of (or_blank (get c.owner record_))
  ]

  -- Whose record an owner-keyed update is about
  pub principal_of : Text → Text → Members → Text
  unfolding source_owner
  principal_of invoked_by content_name record_ =
      if is_empty invoked_by then source_owner content_name record_ else invoked_by

  -- A record of the target with its defaults, and its owner
  pub fresh_of : Action → Text → Option Members
  fresh_of a principal = elim (find_content a.update_content host.contents) [
    | none ↦ none
    | some c ↦
        some
          (put a.update_target_owner (j_str principal) (build_default_record host c.fields empty))
  ]

  -- The context with the target under its singular
  pub bind_target : Text → Members → Members → Members
  bind_target target_content target_record ctx =
      let known = host.singular_lookup target_content in
      put (if is_empty known then target_content else known) (j_obj target_record) ctx

  pub update_existing : Action → Members → Members → World S → World S
  unfolding bind_target patch_of
  update_existing a row ctx w = elim (patch_of a (bind_target a.update_content row ctx)) [
    | none ↦ w
    | some patch ↦
        let id = or_json (get (codes "id") row) j_null in
        note (updated a.update_content id patch) (host.update a.update_content id patch w.store) w
  ]

  pub create_fresh : Action → Text → Members → World S → World S
  unfolding bind_target patch_of fresh_of
  create_fresh a principal ctx w = elim (fresh_of a principal) [
    | none ↦ w
    | some target ↦ elim (patch_of a (bind_target a.update_content target ctx)) [
      | none ↦ w
      | some patch ↦
          let payload = without (codes "id") (put_all patch target) in
          note (created a.update_content payload) (host.create a.update_content payload w.store) w
    ]
  ]

  pub upsert : Action → Text → Members → World S → World S
  unfolding existing_of update_existing create_fresh
  upsert a principal ctx w =
      elim (host.query a.update_content a.update_target_owner principal w.store) [
        | none ↦ w
        | some rows ↦ elim (existing_of rows) [
          | none ↦ create_fresh a principal ctx w
          | some row ↦ update_existing a row ctx w
        ]
      ]

  -- `_execute_owner_keyed_update`
  pub owner_keyed_update : Text → Text → Action → Members → Members → World S → World S
  unfolding is_anonymous principal_of upsert
  owner_keyed_update invoked_by content_name a record_ ctx w =
      let principal = principal_of invoked_by content_name record_ in
      if is_empty a.update_content || is_empty a.update_target_owner
      then w
      else if is_anonymous principal
      then w
      else upsert a principal ctx w

  -- The branch of an update
  pub run_update : Text → Text → Action → Members → Members → World S → World S
  unfolding owner_keyed_update same_record_update
  run_update invoked_by content_name a record_ ctx w =
      if text_eq a.update_target_kind (codes "owner-keyed")
      then owner_keyed_update invoked_by content_name a record_ ctx w
      else same_record_update a record_ ctx w

  -- The metadata of an entry; what raises is left out.
  pub with_metadata : List (Text × Text) → Members → Members → Members
  with_metadata [] ctx payload = payload
  with_metadata ((key, expr) ∷ rest) ctx payload =
      with_metadata rest ctx
        (elim (host.evaluate expr ctx) [ none ↦ payload | some v ↦ put key v payload ])

  -- Who an entry is from; "" for nobody
  pub appender_of : Text → Option Members → Json
  appender_of (c ∷ invoked_by) entry = j_str (c ∷ invoked_by)
  appender_of [] (some entry) = or_blank (get (codes "appended_by_principal_id") entry)
  appender_of [] none = j_str []

  pub append_payload : Action → Members → Option Members
  unfolding with_metadata string_of
  append_payload a ctx = elim (host.evaluate a.append_body_expr ctx) [
    | none ↦ none
    | some body ↦ some (
        with_metadata a.append_metadata ctx (
          member (codes "kind") (j_str a.append_kind)
            (member (codes "body") (j_str (string_of body)) empty)))
  ]

  -- `_execute_when_rule_append`
  pub run_append : Text → Option Members → Action → Members → Members → World S → End × World S
  unfolding append_payload appender_of
  run_append invoked_by entry a record_ ctx w =
      let id = or_json (get (codes "id") record_) j_null in
      elim (append_payload a ctx) [
        | none ↦ (finished, w)
        | some payload ↦
            if not (is_true_json id)
            then (finished, w)
            else let appender = appender_of invoked_by entry in
              let done = host.append a.append_content a.append_field id payload appender w.store in
              (done.0, note (appended a.append_content a.append_field id payload appender) done.1 w)
      ]

  -- The columns of an insertion, from the record
  pub mapped : List (Text × Text) → Members → Members → Members
  mapped [] record_ data_ = data_
  mapped ((column, source) ∷ rest) record_ data_ =
      mapped rest record_
        (put column (elim (get source record_) [ some v ↦ v | none ↦ j_str [] ]) data_)

  pub has_mapping : List (Text × Text) → Bool
  has_mapping [] = false
  has_mapping (m ∷ ms) = true

  -- An action of a rule on an expression
  pub run_action :
      Text → Text → Option Members → Members → Members → Action → World S → End × World S
  unfolding run_append run_update mapped has_mapping
  run_action invoked_by content_name entry record_ ctx a w =
      if not (is_empty a.append_field)
      then run_append invoked_by entry a record_ ctx w
      else if not (is_empty a.update_content)
      then (finished, run_update invoked_by content_name a record_ ctx w)
      else if has_mapping a.column_mapping
      then (let row = mapped a.column_mapping record_ empty in
          let done = host.insert_raw a.target_content row w.store in
          (done.0, note (inserted a.target_content row) done.1 w))
      else if not (is_empty a.send_channel)
      then (finished, note (sent a.send_channel record_) w.store w)
      else (finished, w)
