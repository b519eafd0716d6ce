-- ===== src/Pages/Actions.antt =====
-- The actions that a user sees on the rows of a page: `_visible_actions_for_row` and
-- `_attach_visible_actions` of termin_server/bootstrap.py. A dict or a list as a state has no hash: the
-- lookup of its transition raises, which is `none`.
pub mod Kept
pub mod Twice
pub mod Overwritten
use mathlib.Core.Option as Option
use termin_server.Base.{
  Bool, true, false, List, [], ◌∷◌, ◌++◌, Option, none, some, Text, codes, text_eq, one_of,
  is_empty, ◌||◌, ◌&&◌, if◌then◌else◌, Dict, lookup, insert, Json, j_null, j_bool, j_num, j_str,
  j_arr, j_obj, Jsons, nil, cons, Members, get, put,
}
use termin_server.Pages.{Action, Props, Node, Nodes, no_dict, node, no_nodes, child}

pub record Transition : Type 0 where
  pub from_state : Text
  pub to_state : Text
  -- "" where the transition is open
  pub scope : Text

pub record Machine : Type 0 where
  pub machine_name : Text
  pub column : Text
  pub initial : Text
  pub transitions : List Transition

pub find_machine : Text → List Machine → Option Machine
find_machine name [] = none
find_machine name (m ∷ ms) =
    let rest = find_machine name ms in if text_eq m.machine_name name then some m else rest

-- The machine of an action: the one that it names, or the first one where it names none.
pub machine_for : Text → List Machine → Option Machine
unfolding find_machine
machine_for name [] = none
machine_for name (m ∷ ms) = elim (find_machine name (m ∷ ms)) [
  | some n ↦ some n
  | none ↦ if is_empty name then some m else none
]

-- `transitions.get((from, to))`: its scope
pub gate_of : Text → Text → List Transition → Option Text
gate_of from to [] = none
gate_of from to (t ∷ ts) =
    let rest = gate_of from to ts in
    if text_eq t.from_state from && text_eq t.to_state to then some t.scope else rest

abbrev pub may_use : List Text → Text → Bool
may_use scopes scope = is_empty scope || one_of scope scopes

-- Whether a transition from a state is shown
pub shows_move : List Text → Machine → Text → Json → Option Bool
unfolding gate_of
shows_move scopes m target (j_str s) = elim (gate_of s target m.transitions) [
  | none ↦ some false
  | some scope ↦ some (may_use scopes scope)
]
shows_move scopes m target (j_arr xs) = none
shows_move scopes m target (j_obj d) = none
shows_move scopes m target state = some false

abbrev pub state_in : Machine → Members → Json
state_in m row = elim (get m.column row) [ some s ↦ s | none ↦ j_str m.initial ]

-- Whether an action is shown on a row
unfoldable pub shows : List Text → List Machine → Members → Action → Option Bool
unfolding machine_for shows_move
shows scopes machines row a =
    if text_eq a.kind (codes "delete") || text_eq a.kind (codes "edit")
    then some (may_use scopes a.required_scope)
    else if text_eq a.kind (codes "transition")
    then elim (machine_for a.machine_name machines) [
      | none ↦ some false
      | some m ↦ shows_move scopes m a.target_state (state_in m row)
    ]
    else some true

-- The labels that are shown, `shown` first
abbrev pub add_label : Text → Option Bool → Option (List Text) → Option (List Text)
add_label label none ls = none
add_label label (some b) none = none
add_label label (some b) (some ls) = some (if b then label ∷ ls else ls)

-- `_visible_actions_for_row`
unfoldable pub visible_actions_for_row :
    List Text → List Machine → List Action → Members → Option (List Text)
unfolding shows
visible_actions_for_row scopes machines [] row = some []
visible_actions_for_row scopes machines (a ∷ actions) row =
    add_label a.label (shows scopes machines row a)
      (visible_actions_for_row scopes machines actions row)

unfoldable pub labels : List Text → Jsons
labels [] = nil
labels (l ∷ ls) = cons (j_str l) (labels ls)

abbrev pub actions_key : Text
actions_key = codes "__visible_actions"

abbrev pub set_actions :
    Members → Option (List Text) → Option (List Members) → Option (List Members)
set_actions row none rows = none
set_actions row (some ls) none = none
set_actions row (some ls) (some rows) = some (put actions_key (j_arr (labels ls)) row ∷ rows)

unfoldable pub attach_rows :
    List Text → List Machine → List Action → List Members → Option (List Members)
unfolding visible_actions_for_row labels
attach_rows scopes machines actions [] = some []
attach_rows scopes machines actions (row ∷ rows) =
    set_actions row (visible_actions_for_row scopes machines actions row)
      (attach_rows scopes machines actions rows)

abbrev pub BoundData : Type 0
BoundData = Dict (List Members)

module _ (scopes : List Text) (sm_lookup : Text → List Machine) where
  -- The rows of a table's source
  unfoldable pub attach_source : Text → List Action → BoundData → Option BoundData
  unfolding attach_rows lookup insert Option.bind
  attach_source source [] bound = some bound
  attach_source source (a ∷ actions) bound = elim (lookup source bound) [
    | none ↦ some bound
    | some rows ↦
        Option.bind (attach_rows scopes (sm_lookup source) (a ∷ actions) rows)
          (λ shown. some (insert source shown bound))
  ]

  unfoldable pub attach_table : Option Text → List Action → BoundData → Option BoundData
  unfolding attach_source
  attach_table none actions bound = some bound
  attach_table (some source) actions bound =
      if is_empty source then some bound else attach_source source actions bound

  unfoldable pub attach_here : Text → Props → BoundData → Option BoundData
  unfolding attach_table
  attach_here kind p bound =
      if text_eq kind (codes "data_table")
      then attach_table p.source p.row_actions bound
      else some bound

  -- `_attach_visible_actions`
  unfoldable mutual
    unfolding attach_here Option.bind

    pub attach : Node → BoundData → Option BoundData
    attach no_dict bound = some bound
    attach (node kind p children) bound =
        Option.bind (attach_here kind p bound) (λ next. attach_all children next)

    pub attach_all : Nodes → BoundData → Option BoundData
    attach_all no_nodes bound = some bound
    attach_all (child c cs) bound = Option.bind (attach c bound) (λ next. attach_all cs next)
