-- ===== src/Storage/Migration/Columns.antt =====
-- Which column of the old table fills a column of the new one, when a table is rebuilt. The model is of
-- `_rebuild_table` in termin_server/providers/builtins/storage_sqlite.py.
use termin_server.Base.{
  arith, Bool, true, false, is_empty, not, List, [], ◌∷◌, ◌&&◌, ◌||◌, Option, none, some, Text,
  codes, text_eq, text_eq_iff, one_of, map, if◌then◌else◌, Bool-cases, Dict, lookup, insert,
  lookup-insert, inl, inr, ◌≡◌, refl, ap, ◌∙◌,
}
use termin_server.Storage.Schema.{SchemaField, Schema}
use termin_server.Storage.Migration.{
  FieldChange, field_renamed, field_added, field_changed, new_name, renames_by_new, added_names,
  or_same, map_machines, map_fields, column_sources,
}

-- A field that is in the old table too
abbrev is_kept : List Text → SchemaField → Bool
is_kept added f = not (text_eq f.business_type (codes "state") || one_of f.name added)

-- Whether a name is that of such a field
abbrev keeps : List Text → List SchemaField → Text → Bool
keeps added [] name = false
keeps added (f ∷ fs) name = (is_kept added f && text_eq f.name name) || keeps added fs name

-- The name that a field had before its last renaming: the name that the change was made from, if the
-- change has given the field this name. A change without a new name gives the name it stands under.
pub old_name : List FieldChange → Text → Option Text
old_name [] name = none
old_name (field_renamed under from to ∷ fcs) name = elim (old_name fcs name) [
  | some later ↦ some later
  | none ↦ if text_eq (if is_empty to then under else to) name then some from else none
]
old_name (field_added added spec ∷ fcs) name = old_name fcs name
old_name (field_changed changed ∷ fcs) name = old_name fcs name

-- Whether a change has added a field of this name.
pub is_new : List FieldChange → Text → Bool
is_new [] name = false
is_new (field_added added spec ∷ fcs) name = text_eq name added || is_new fcs name
is_new (field_renamed under from to ∷ fcs) name = is_new fcs name
is_new (field_changed changed ∷ fcs) name = is_new fcs name

-- Whether a schema has a field of this name that the old table has too.
pub is_carried : List FieldChange → List SchemaField → Text → Bool
is_carried fcs [] name = false
is_carried fcs (f ∷ fs) name =
    (text_eq f.name name && not (text_eq f.business_type (codes "state") || is_new fcs f.name))
    || is_carried fcs fs name

-- The column that fills a column: for a field of the old table the field that it was before it was
-- renamed; for the column of a state machine, and for the id, the same column.
abbrev pub source_of : List FieldChange → Schema → Text → Option Text
source_of fcs schema name =
    if is_carried fcs schema.fields name
    then some (elim (old_name fcs name) [ none ↦ name | some before ↦ before ])
    else if one_of name (map (λ m. m.0) schema.state_machines)
    then some name
    else if text_eq (codes "id") name
    then some (codes "id")
    else none

-- A name, unless a later one is known
abbrev later_or : Option Text → Option Text → Option Text
later_or none v = v
later_or (some later) v = some later

later_or-step :
    (o v : Option Text) (b : Bool) (from : Text)
    → later_or o (if b then some from else v)
      ≡ later_or (elim o [ some later ↦ some later | none ↦ if b then some from else none ]) v
later_or-step none v true from = refl
later_or-step none v false from = refl
later_or-step (some later) v b from = refl

lookup-renames_by_new :
    (fcs : List FieldChange) (d : Dict Text) (name : Text)
    → lookup name (renames_by_new fcs d) ≡ later_or (old_name fcs name) (lookup name d)
unfolding renames_by_new old_name new_name
lookup-renames_by_new [] d name = refl
lookup-renames_by_new (field_renamed under from to ∷ fcs) d name =
    lookup-renames_by_new fcs (insert (if is_empty to then under else to) from d) name
    ∙ ap (later_or (old_name fcs name))
        (lookup-insert (if is_empty to then under else to) name from d)
    ∙ later_or-step (old_name fcs name) (lookup name d)
        (text_eq (if is_empty to then under else to) name) from
lookup-renames_by_new (field_added added spec ∷ fcs) d name = lookup-renames_by_new fcs d name
lookup-renames_by_new (field_changed changed ∷ fcs) d name = lookup-renames_by_new fcs d name

one_of-added_names :
    (fcs : List FieldChange) (name : Text) → one_of name (added_names fcs) ≡ is_new fcs name
unfolding added_names is_new
one_of-added_names [] name = refl
one_of-added_names (field_added added spec ∷ fcs) name =
    ap (λ rest. text_eq name added || rest) (one_of-added_names fcs name)
one_of-added_names (field_renamed under from to ∷ fcs) name = one_of-added_names fcs name
one_of-added_names (field_changed changed ∷ fcs) name = one_of-added_names fcs name

keeps-is_carried :
    (fcs : List FieldChange) (fs : List SchemaField) (name : Text)
    → keeps (added_names fcs) fs name ≡ is_carried fcs fs name
unfolding is_carried
keeps-is_carried fcs [] name = refl
keeps-is_carried fcs (f ∷ fs) name =
    let rest = keeps-is_carried fcs fs name in
    let new = one_of-added_names fcs f.name in ground (arith)

or_same-renames_by_new :
    (fcs : List FieldChange) (name : Text)
    → or_same (lookup name (renames_by_new fcs [])) name
      ≡ (elim (old_name fcs name) [ none ↦ name | some before ↦ before ])
unfolding or_same lookup
or_same-renames_by_new fcs name =
    rw (lookup-renames_by_new fcs [] name)
      (elim (old_name fcs name)
        as (λ o. or_same (later_or o none) name ≡ (elim o [ none ↦ name | some before ↦ before ])) [
          | none ↦ refl
          | some before ↦ refl
        ])

lookup-map_machines :
    (machines : List (Text × Text)) (d : Dict Text) (name : Text)
    → lookup name (map_machines machines d)
      ≡ (if one_of name (map (λ m. m.0) machines) then some name else lookup name d)
unfolding map_machines
lookup-map_machines [] d name = refl
lookup-map_machines ((column, initial) ∷ machines) d name =
    lookup-map_machines machines (insert column column d) name
    ∙ ground (
      arith,
      lookup-insert column name column d,
      text_eq_iff column name,
      text_eq_iff name column,
    )

lookup-map_fields :
    (renames : Dict Text) (added : List Text) (fs : List SchemaField) (d : Dict Text) (name : Text)
    → lookup name (map_fields renames added fs d)
      ≡ (if keeps added fs name then some (or_same (lookup name renames) name) else lookup name d)
unfolding map_fields
lookup-map_fields renames added [] d name = refl
lookup-map_fields renames added (f ∷ fs) d name =
    elim (Bool-cases (text_eq f.business_type (codes "state") || one_of f.name added)) [
      | inl t ↦ rw (map_fields, t) (lookup-map_fields renames added fs d name)
      | inr n ↦
          rw (map_fields, n)
            (lookup-map_fields renames added fs
                (insert f.name (or_same (lookup f.name renames) f.name) d) name
              ∙ ground (
                arith,
                lookup-insert f.name name (or_same (lookup f.name renames) f.name) d,
                text_eq_iff f.name name,
              ))
    ]

-- The columns that a rebuild copies: a column of the new table is filled from the column that it was
-- before its last renaming, if its field is not new and is no state, or from the column of the same
-- name, if a state machine or the id has it, and no other is filled.
pub lookup-column_sources :
    (fcs : List FieldChange) (schema : Schema) (name : Text)
    → lookup name (column_sources fcs schema) ≡ source_of fcs schema name
unfolding column_sources lookup
lookup-column_sources fcs schema name =
    lookup-map_fields (renames_by_new fcs []) (added_names fcs) schema.fields
      (map_machines schema.state_machines ((codes "id", codes "id") ∷ [])) name
    ∙ rw
        (
          lookup-map_machines schema.state_machines ((codes "id", codes "id") ∷ []) name,
          keeps-is_carried fcs schema.fields name,
          or_same-renames_by_new fcs name,
        )
        refl
