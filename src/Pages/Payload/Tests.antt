-- ===== src/Pages/Payload/Tests.antt =====
-- An application with a page for each of two roles, and the theorems on its pages.
use mathlib.Core.Option as Option
use termin_server.Base.{
  [], ◌∷◌, none, some, Text, codes, j_str, j_arr, nil, cons, Members, empty, member, insert, lookup,
  ◌≡◌, refl,
}
use termin_server.Pages.{
  Action, no_nodes, child, Page, Viewer, slug_of, lstrip, before, with_slug, with_role, choose,
  resolve_page_for, walk, collect,
}
use termin_server.Pages.Resolution.{Resolves, resolve_page_for-Resolves}
use termin_server.Pages.Shell.{build_shell_html, Around, build_shell_html-Around}
use termin_server.Pages.Actions.{
  BoundData, attach, attach_here, attach_table, attach_source, attach_rows, visible_actions_for_row,
  shows, labels, actions_key,
}
use termin_server.Pages.Actions.Overwritten.{table}
use termin_server.Pages.Payload.{
  Context, Payload, built, bind_sources, union, payload_of, bind_page, build_bootstrap_payload,
}
use termin_server.Pages.Payload.Bound.{Supplied, build_bootstrap_payload-Supplied}

abbrev orders : Text
orders = codes "orders"

abbrev same : Text → Text
same t = t

abbrev clerk_page : Page
clerk_page = record {
  name = codes "Orders";
  slug = orders;
  role = codes "clerk";
  children = child (table orders []) no_nodes;
}

abbrev guest_page : Page
guest_page = record {
  name = codes "Welcome";
  slug = orders;
  role = codes "guest";
  children = no_nodes;
}

abbrev clerk : Viewer
clerk = record { role = codes "clerk"; scopes = codes "orders.read" ∷ []; the_user = none }

abbrev path : Text
path = codes "/orders?page=2"

resolve_page_for-Resolves_example :
    Resolves same
      (slug_of path)
      (codes "clerk")
      (guest_page ∷ clerk_page ∷ [])
      (resolve_page_for same (guest_page ∷ clerk_page ∷ []) path clerk)
resolve_page_for-Resolves_example =
    resolve_page_for-Resolves same (guest_page ∷ clerk_page ∷ []) path clerk

abbrev order_row : Members
order_row = member (codes "status") (j_str (codes "draft")) empty

abbrev shop : Context
shop = record {
  name = codes "Shop";
  pages = guest_page ∷ clerk_page ∷ [];
  nav_items = [];
  roles = codes "clerk" ∷ codes "guest" ∷ [];
  sm_lookup = λ c. [];
  records = λ src. some (order_row ∷ []);
  redact = λ src scopes rows. rows;
  bundle_urls = [];
  lower = same;
  repr = same;
  dumps = λ p. [];
}

abbrev clerk_payload : Payload
clerk_payload =
    payload_of shop clerk_page clerk (record { sources = orders ∷ []; ref_lists = [] })
      ((orders, order_row ∷ []) ∷ [])

clerk-built : build_bootstrap_payload shop path clerk ≡ built clerk_payload
unfolding build_bootstrap_payload bind_page bind_sources union walk collect resolve_page_for choose
    with_role with_slug slug_of lstrip before insert attach attach_here attach_table attach_source
    Option.bind
clerk-built = refl

build_bootstrap_payload-Supplied_example :
    (resolve_page_for same shop.pages path clerk ≡ some clerk_payload.component_tree_ir)
    × Supplied shop clerk.scopes clerk_payload
build_bootstrap_payload-Supplied_example =
    build_bootstrap_payload-Supplied shop path clerk clerk_payload clerk-built

build_shell_html-Around_example :
    (front : Text) × (back : Text) × ((dumped : Text)
      → Around dumped front back
          (λ s. build_shell_html s (codes "/a.js" ∷ []) [] (codes "/a.css" ∷ [])))
build_shell_html-Around_example =
    build_shell_html-Around (codes "/a.js" ∷ []) [] (codes "/a.css" ∷ [])

abbrev labelled : Text → Action
labelled label = record {
  label = label;
  kind = codes "delete";
  required_scope = [];
  machine_name = [];
  target_state = [];
}

-- The rows with the actions of a table
abbrev shown_with : Text → BoundData
shown_with label =
    (
      orders,
      member (codes "status") (j_str (codes "draft"))
            (member actions_key (j_arr (cons (j_str label) nil)) empty)
          ∷ [],
    )
    ∷ []

attached :
    attach []
      (λ c. [])
      (table orders (labelled (codes "Delete") ∷ []))
      ((orders, order_row ∷ []) ∷ [])
    ≡ some (shown_with (codes "Delete"))
unfolding attach attach_here attach_table attach_source attach_rows visible_actions_for_row shows
    labels insert lookup Option.bind
attached = refl
