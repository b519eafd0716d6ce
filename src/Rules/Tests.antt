-- ===== src/Rules/Tests.antt =====
-- A shop whose orders go between two states, and the theorems on its rules.
use termin_server.Base.{
  String, ℕ, ◌+◌, ◌≤◌, arith, [], ◌∷◌, none, some, Text, codes, text_eq, if◌then◌else◌, j_num,
  Members, empty, member, true, ◌&&◌, ◌||◌, sym, subst, ◌≡◌, refl,
}
use termin_server.Rules.{Action, Rule, World, finished, raised, Host}
use termin_server.Rules.Actions.{principal_of, owner_keyed_update}
use termin_server.Rules.Actions.Owners.{Owned, owner_keyed_update-Owned}
use termin_server.Rules.Entered.{Entered, watches, spaced, run_entered_rules, run_state_entered}
use termin_server.Rules.Contexts.{find_content, parse_structured_fields}
use termin_server.Rules.Entered.Shadowed.{run_entered_rules-shadowed}
use termin_server.Rules.Entered.Cascades.{run_state_entered-ends}
use termin_server.Rules.Entered.Moves.{move_to, move_on, moves}
use termin_server.Rules.Entered.Endless.{Moved, run_state_entered-moves}

-- The order with its identifier
abbrev order : Members
order = member (codes "id") (j_num (codes "7")) empty

-- The store is the state of the order; each transition is taken.
abbrev shop : Host Text
shop = record {
  contents =
      record {
        name = codes "profiles";
        fields =
            record { name = codes "played"; business_type = codes "number"; default_value = none }
            ∷ [];
        owner = codes "player";
        is_unique = true;
      }
      ∷ [];
  singular_lookup = λ c. [];
  sm_lookup = λ c. [];
  scope_for_content_verb = λ c verb. none;
  evaluate = λ expr ctx. some (j_num (codes "1"));
  loads = λ t. none;
  str = λ j. [];
  lower = λ t. t;
  capitalize = λ t. t;
  query = λ c field value s. some [];
  read = λ c id s. some order;
  update = λ c id patch s. s;
  create = λ c payload s. s;
  insert_raw = λ c row s. (finished, s);
  append = λ c field id payload appender s. (finished, s);
  transition = λ c id field target scopes user s. (finished, target);
}

abbrev world : World Text
world = record { store = codes "open"; log = [] }

abbrev played : Action
played = record (move_to [] [] []) {
  update_content = codes "profiles";
  update_target_kind = codes "owner-keyed";
  update_target_owner = codes "player";
  update_assignments = (codes "played", codes "profile.played + 1") ∷ [];
}

owner_keyed_update-Owned_example :
    Owned shop played
      (principal_of shop (codes "ann") (codes "orders") order)
      world
      (owner_keyed_update shop (codes "ann") (codes "orders") played order empty world)
owner_keyed_update-Owned_example =
    owner_keyed_update-Owned shop (codes "ann") (codes "orders") played order empty world

abbrev on_open : Entered
on_open = record { content = codes "orders"; machine = codes "status"; state = codes "open" }

abbrev move : String → String → Rule
move state target = move_on (codes "orders") (codes "status") (codes state) (codes target)

-- The second rule is on the entered state too.
run_entered_rules-shadowed_example :
    run_entered_rules shop
      (λ e fresh w. w)
      []
      (move "open" "packed" ∷ move "open" "billed" ∷ [])
      on_open
      order
      world
    ≡ run_entered_rules shop (λ e fresh w. w) [] (move "open" "packed" ∷ []) on_open order world
unfolding watches spaced
run_entered_rules-shadowed_example =
    run_entered_rules-shadowed shop (λ e fresh w. w) [] (move "open" "packed")
      (move "open" "billed" ∷ []) (move_to (codes "orders") (codes "status") (codes "packed"))
      on_open order world refl refl refl (refl, tt)

-- How many transitions are left
abbrev stages : Text → ℕ
stages state =
    if text_eq state (codes "open") then 2 else if text_eq state (codes "packed") then 1 else 0

run_state_entered-ends_example :
    run_state_entered shop 3 []
      (move "open" "packed" ∷ move "packed" "sent" ∷ [])
      on_open
      order
      world
    ≡ run_state_entered shop 9 []
        (move "open" "packed" ∷ move "packed" "sent" ∷ [])
        on_open
        order
        world
unfolding spaced
run_state_entered-ends_example =
    run_state_entered-ends shop stages [] (move "open" "packed" ∷ move "packed" "sent" ∷ [])
      (((λ f. omega arith), tt), (((λ f. omega arith), tt), tt)) 3 9 on_open order world
      (omega arith) (omega arith)

-- A state machine between two states, which takes no other transition
abbrev gate : Host Text
gate = record shop {
  transition = λ c id field target scopes user s.
      if (text_eq s (codes "open") && text_eq target (codes "held"))
        || (text_eq s (codes "held") && text_eq target (codes "open"))
      then (finished, target)
      else (raised, s);
}

run_state_entered-moves_example :
    0 + 40
    ≤ moves
        (run_state_entered gate 40 []
          (move "open" "held" ∷ move "held" "open" ∷ [])
          on_open
          order
          world).log
unfolding spaced find_content parse_structured_fields
run_state_entered-moves_example =
    run_state_entered-moves gate (λ state store. store ≡ state) (j_num (codes "7")) []
      (codes "orders") (codes "status") (codes "open") (codes "held") refl refl refl refl refl refl
      (λ store e.
        subst
          (λ s.
            Moved gate (λ u v. v ≡ u) (j_num (codes "7")) [] (codes "orders") (codes "status")
              (codes "open") (codes "held") (codes "held") s (j_num (codes "7")))
          (sym e) (refl, (order, refl, refl), refl))
      (λ store e.
        subst
          (λ s.
            Moved gate (λ u v. v ≡ u) (j_num (codes "7")) [] (codes "orders") (codes "status")
              (codes "open") (codes "held") (codes "open") s (j_num (codes "7")))
          (sym e) (refl, (order, refl, refl), refl))
      40 order world refl refl
