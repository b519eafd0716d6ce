-- ===== src/Transitions/Messages.antt =====
-- The feedback of transitions: `build_transition_feedback` and `get_feedback` of
-- termin_server/transitions.py, and the singular of a content, by which a message names its record.
use termin_server.Base.{
  Bool, List, [], ◌∷◌, ◌&&◌, Option, none, some, Text, text_eq, is_empty, ◌==◌, if◌then◌else◌,
}

pub record Feedback : Type 0 where
  pub trigger : Text
  pub message : Text
  pub style : Text
  pub is_expr : Bool
  pub dismiss_seconds : Option Text

pub record TransitionSpec : Type 0 where
  pub from_state : Text
  pub to_state : Text
  pub feedback : List Feedback

pub record MachineSpec : Type 0 where
  pub content_ref : Text
  pub machine_name : Text
  pub transitions : List TransitionSpec

-- The key of a transition
pub record Step : Type 0 where
  pub content : Text
  pub machine : Text
  pub from_state : Text
  pub to_state : Text

abbrev pub FeedbackTable : Type 0
FeedbackTable = List (Step × List Feedback)

pub step_eq : Step → Step → Bool
step_eq a b =
    text_eq a.content b.content
    && (text_eq a.machine b.machine
        && (text_eq a.from_state b.from_state && text_eq a.to_state b.to_state))

pub set_feedback : Step → List Feedback → FeedbackTable → FeedbackTable
unfolding step_eq
set_feedback k fs [] = (k, fs) ∷ []
set_feedback k fs ((j, gs) ∷ table) =
    let rest = set_feedback k fs table in if step_eq j k then (j, fs) ∷ table else (j, gs) ∷ rest

pub add_transitions : MachineSpec → List TransitionSpec → FeedbackTable → FeedbackTable
unfolding set_feedback
add_transitions sm [] table = table
add_transitions sm (t ∷ ts) table = elim t.feedback [
  | [] ↦ add_transitions sm ts table
  | f ∷ fs ↦ add_transitions sm ts (
      set_feedback
        (record {
          content = sm.content_ref;
          machine = sm.machine_name;
          from_state = t.from_state;
          to_state = t.to_state;
        })
        (f ∷ fs) table)
]

pub add_machines : List MachineSpec → FeedbackTable → FeedbackTable
unfolding add_transitions
add_machines [] table = table
add_machines (sm ∷ sms) table = add_machines sms (add_transitions sm sm.transitions table)

pub build_transition_feedback : List MachineSpec → FeedbackTable
unfolding add_machines
build_transition_feedback machines = add_machines machines []

pub specs_of : Step → FeedbackTable → List Feedback
unfolding step_eq
specs_of k [] = []
specs_of k ((j, fs) ∷ table) = let rest = specs_of k table in if step_eq j k then fs else rest

pub triggered : Text → List Feedback → List Feedback
triggered trigger [] = []
triggered trigger (f ∷ fs) =
    let rest = triggered trigger fs in if text_eq f.trigger trigger then f ∷ rest else rest

unfoldable pub get_feedback : FeedbackTable → Step → Text → List Feedback
unfolding specs_of triggered
get_feedback table step trigger = triggered trigger (specs_of step table)

-- `s.rstrip("s")`
pub rstrip_s : Text → Text
rstrip_s [] = []
rstrip_s (c ∷ s) = let rest = rstrip_s s in if is_empty rest && c == b's' then [] else c ∷ rest

-- The singular of a content: as declared, else without its final letters s.
unfoldable pub singular_of : Text → List (Text × Option Text) → Text
unfolding rstrip_s
singular_of name [] = rstrip_s name
singular_of name ((snake, singular) ∷ contents) =
    let rest = singular_of name contents in
    if text_eq snake name then elim singular [ some s ↦ s | none ↦ rstrip_s name ] else rest
