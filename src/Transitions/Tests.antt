-- ===== src/Transitions/Tests.antt =====
-- An order that is shipped, and the theorem on two clients.
use termin_server.Base.{
  false, [], ◌∷◌, none, some, Text, codes, j_null, j_str, Members, empty, member,
}
use termin_server.Identity.Users.{User, build_user_dict}
use termin_server.Transitions.{Headers, Moved, moved, refused, Host, generic_transition}
use termin_server.Transitions.Clients.{SameMove, generic_transition-SameMove}

abbrev order : Text → Members
order state = member (codes "shipping") (j_str state) empty

-- The state is the order's; only a draft can be moved.
abbrev move : Text → Text → Moved × Text
move target [] = (refused 409 (codes "no state"), [])
move target (c ∷ s) = (moved (order target), target)

abbrev shop : Host Text
shop = record {
  content_lookup = codes "orders" ∷ [];
  contents = [];
  transition_feedback = [];
  read = λ content id s. some (order s);
  transition = λ content id machine target user s. move target s;
  entered = none;
  evaluate = λ e ctx. none;
  urlencode = λ m st l. m;
  number = λ n. j_null;
}

abbrev browser : Headers
browser = record {
  requested_with = [];
  accept = codes "text/html";
  referer = some (codes "/orders");
}

abbrev script : Headers
script = record { requested_with = codes "XMLHttpRequest"; accept = codes "*/*"; referer = none }

abbrev ann : User
ann =
    build_user_dict
      (record {
        id = codes "ann";
        display_name = codes "Ann";
        is_anonymous = false;
        is_system = false;
        claims = [];
        preferences = [];
      })
      (codes "Clerk") []

generic_transition-SameMove_example :
    SameMove browser script
      (generic_transition shop browser ann
        (codes "orders")
        (codes "shipping")
        7
        (codes "on_way")
        (codes "draft"))
      (generic_transition shop script ann
        (codes "orders")
        (codes "shipping")
        7
        (codes "on_way")
        (codes "draft"))
generic_transition-SameMove_example =
    generic_transition-SameMove shop browser script ann (codes "orders") (codes "shipping") 7
      (codes "on_way") (codes "draft")
