-- ===== src/Rules/Contexts.antt =====
-- What the expressions of a rule see: `_parse_structured_fields`, `_build_default_record` and the event
-- contexts of termin_server/app.py.
use termin_server.Base.{
  Bool, true, List, [], ◌∷◌, ◌++◌, ◌==◌, Option, none, some, Text, codes, text_eq, one_of, is_empty,
  if◌then◌else◌, Json, j_bool, j_num, j_str, j_arr, j_obj, nil, Members, empty, member, get, put,
}
use termin_server.Transitions.Messages.{rstrip_s}
use termin_server.Rules.{Field, Content, Host}

-- `s.split("_")`: its first part, and the others
pub split_underscore : Text → Text × List Text
split_underscore [] = ([], [])
split_underscore (c ∷ s) =
    let (part, parts) = split_underscore s in
    if c == b'_' then ([], part ∷ parts) else (c ∷ part, parts)

unfoldable pub find_content : Text → List Content → Option Content
find_content name [] = none
find_content name (c ∷ cs) =
    let rest = find_content name cs in if text_eq c.name name then some c else rest

-- `d.update(e)`
pub put_all : Members → Members → Members
put_all empty ctx = ctx
put_all (member k v d) ctx = put_all d (put k v ctx)

module _ {S : Type 0} (host : Host S) where
  pub capitalized : List Text → Text
  capitalized [] = []
  capitalized (part ∷ parts) = host.capitalize part ++ capitalized parts

  -- The camel case of a name
  pub camel : Text → Text
  unfolding split_underscore capitalized
  camel name = let (part, parts) = split_underscore name in part ++ capitalized parts

  -- Whether the values of a field are JSON texts
  abbrev pub is_parsed : Field → Bool
  is_parsed f = one_of f.business_type (codes "structured" ∷ codes "conversation" ∷ [])

  pub parse_value : Text → Option Json → Members → Members
  parse_value name (some (j_str [])) out = out
  parse_value name (some (j_str (c ∷ s))) out = elim (host.loads (c ∷ s)) [
    | none ↦ out
    | some v ↦ put name v out
  ]
  parse_value name v out = out

  pub parse_fields : List Field → Members → Members
  unfolding parse_value
  parse_fields [] out = out
  parse_fields (f ∷ fs) out =
      parse_fields fs (if is_parsed f then parse_value f.name (get f.name out) out else out)

  -- `_parse_structured_fields`
  unfoldable pub parse_structured_fields : Text → Members → Members
  unfolding parse_fields find_content
  parse_structured_fields content_name record_ = elim (find_content content_name host.contents) [
    | none ↦ record_
    | some c ↦ parse_fields c.fields record_
  ]

  -- The default of a field by its type
  pub zero_of : Text → Json
  zero_of business_type =
      if one_of business_type
        (codes "number" ∷ codes "whole_number" ∷ codes "currency" ∷ codes "percentage" ∷ [])
      then j_num (codes "0")
      else if one_of business_type (codes "yes_no" ∷ codes "boolean" ∷ [])
      then j_str (codes "no")
      else if one_of business_type (codes "list" ∷ codes "structured" ∷ [])
      then j_arr nil
      else j_str []

  pub default_of : Field → Json
  unfolding zero_of
  default_of f = elim f.default_value [ some d ↦ d | none ↦ zero_of (host.lower f.business_type) ]

  -- `_build_default_record`
  pub build_default_record : List Field → Members → Members
  unfolding default_of
  build_default_record [] defaults = defaults
  build_default_record (f ∷ fs) defaults =
      build_default_record fs
        (if is_empty f.name then defaults else put f.name (default_of f) defaults)

  -- The fields of a record, in camel case too
  pub add_camel : Members → Members → Members
  unfolding camel
  add_camel empty ctx = ctx
  add_camel (member k v d) ctx = add_camel d (put (camel k) v ctx)

  pub singular_of : Text → Text
  singular_of content_name =
      let known = host.singular_lookup content_name in
      if is_empty known then rstrip_s content_name else known

  -- The flat fields, and the record under a name of its own
  pub context_under : Text → Members → Members
  unfolding add_camel
  context_under name record_ =
      let ctx = add_camel record_ record_ in
      put name
        (j_obj (put (codes "created") (j_bool true) (put (codes "updated") (j_bool true) ctx))) ctx

  pub bind_appended : Option Members → Members → Members
  bind_appended none ctx = ctx
  bind_appended (some entry) ctx = put (codes "appended_entry") (j_obj entry) ctx

  -- The context of a rule on an event of a record
  pub event_context : Text → Members → Option Members → Members
  unfolding context_under bind_appended singular_of camel
  event_context content_name record_ appended_entry =
      bind_appended appended_entry (context_under (camel (singular_of content_name)) record_)

  -- The context of a rule on an entered state
  pub entered_context : Text → Members → Members
  unfolding context_under singular_of
  entered_context content_name record_ = context_under (singular_of content_name) record_

  pub bind_source : Text → Members → Members → Members
  unfolding singular_of
  bind_source source_content record_ ctx =
      if is_empty source_content then ctx else put (singular_of source_content) (j_obj record_) ctx

  -- The context of a rule on a compute that has run
  pub invoked_context : Members → Json → Text → Members → Members
  unfolding put_all bind_source
  invoked_context args result source_content record_ =
      bind_source source_content record_ (
        put_all record_ (member (codes "args") (j_obj args) (member (codes "result") result empty)))
