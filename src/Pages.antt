-- ===== src/Pages.antt =====
-- The page payload of termin_server/bootstrap.py: `_resolve_page_for`, the walk over the component
-- tree, and what a user is shown of the application. `str.lower` is a parameter.
pub mod Actions
pub mod Payload
pub mod Shell
pub mod Resolution
pub mod Sources
use termin_server.Base.{
  is_within, ℕ, Bool, true, false, not, List, [], ◌∷◌, ◌++◌, Option, none, some, Text, codes,
  text_eq, one_of, is_empty, ◌==◌, ◌||◌, ◌&&◌, if◌then◌else◌, Dict,
}
use termin_server.Identity.Users.{TheUser}

-- The props of an action of a row, with the defaults that the code reads them with.
pub record Action : Type 0 where
  pub label : Text
  pub kind : Text
  pub required_scope : Text
  pub machine_name : Text
  pub target_state : Text

pub record Props : Type 0 where
  pub source : Option Text
  pub reference_content : Option Text
  pub row_actions : List Action

-- A component of a page, and its children; what is no dict is passed over.
mutual
  pub data Node : Type 0 where
    no_dict : Node
    node : (kind : Text) → Props → Nodes → Node

  pub data Nodes : Type 0 where
    no_nodes : Nodes
    child : Node → Nodes → Nodes

pub record Page : Type 0 where
  pub name : Text
  pub slug : Text
  pub role : Text
  pub children : Nodes

-- The user dict, as far as the page needs it.
pub record Viewer : Type 0 where
  pub role : Text
  pub scopes : List Text
  pub the_user : Option TheUser

pub record NavItem : Type 0 where
  pub label : Text
  pub page_slug : Text
  pub badge_content : Option Text
  pub visible_to : List Text

-- `s.lstrip(c)`
pub lstrip : ℕ → Text → Text
lstrip c [] = []
lstrip c (d ∷ s) = let rest = lstrip c s in if d == c then rest else d ∷ s

-- `s.split(c, 1)[0]`
pub before : ℕ → Text → Text
before c [] = []
before c (d ∷ s) = let rest = before c s in if d == c then [] else d ∷ rest

pub slug_of : Text → Text
unfolding lstrip before
slug_of path = before b'/' (before b'?' (lstrip b'/' path))

-- The pages of a slug
pub with_slug : Text → List Page → List Page
with_slug slug [] = []
with_slug slug (p ∷ ps) =
    let rest = with_slug slug ps in if text_eq p.slug slug then p ∷ rest else rest

-- `_DATA_SOURCE_TYPES`
abbrev pub data_source_types : List Text
data_source_types =
    codes "data_table" ∷ codes "chat" ∷ codes "aggregation" ∷ codes "stat_breakdown" ∷ []

-- `xs.add(x)` on a set of texts
abbrev pub add : Text → List Text → List Text
add x xs = if one_of x xs then xs else xs ++ x ∷ []

abbrev pub add_some : Option Text → List Text → List Text
add_some none xs = xs
add_some (some x) xs = if is_empty x then xs else add x xs

-- The sources and the reference lists that are collected
pub record Needs : Type 0 where
  pub sources : List Text
  pub ref_lists : List Text

pub collect : Text → Props → Needs → Needs
collect kind p n =
    if one_of kind data_source_types
    then record n { sources = add_some p.source n.sources }
    else if text_eq kind (codes "field_input")
    then record n { ref_lists = add_some p.reference_content n.ref_lists }
    else n

-- `_walk_for_sources_and_refs`
mutual
  unfolding collect

  pub walk : Node → Needs → Needs
  walk no_dict n = n
  walk (node kind p children) n = walk_all children (collect kind p n)

  pub walk_all : Nodes → Needs → Needs
  walk_all no_nodes n = n
  walk_all (child c cs) n = walk_all cs (walk c n)

-- The principal that the provider sees
pub record PrincipalContext : Type 0 where
  pub id : Text
  pub display_name : Text
  pub is_anonymous : Bool
  pub is_system : Bool
  pub scopes : List Text
  pub preferences : Dict Text

-- `_principal_context_for`
pub principal_context_for : Viewer → PrincipalContext
principal_context_for v = elim v.the_user [
  | some u ↦ record {
    id = u.id;
    display_name = u.display_name;
    is_anonymous = u.is_anonymous;
    is_system = u.is_system;
    scopes = u.scopes;
    preferences = u.preferences;
  }
  | none ↦ record {
    id = [];
    display_name = v.role;
    is_anonymous = true;
    is_system = false;
    scopes = v.scopes;
    preferences = [];
  }
]

pub record AppChrome : Type 0 where
  pub app_name : Text
  pub nav_items : List NavItem
  pub available_roles : List Text
  pub current_role : Text
  pub current_user_name : Text
  pub is_anonymous : Bool

module _ (lower : Text → Text) where
  -- The first page whose role is the user's
  pub with_role : Text → List Page → Option Page
  with_role role [] = none
  with_role role (p ∷ ps) =
      let rest = with_role role ps in if text_eq (lower p.role) (lower role) then some p else rest

  pub choose : Text → List Page → Option Page
  unfolding with_role
  choose role [] = none
  choose role (p ∷ []) = some p
  choose role (p ∷ q ∷ ps) = elim (with_role role (p ∷ q ∷ ps)) [ some r ↦ some r | none ↦ some p ]

  -- `_resolve_page_for`
  pub resolve_page_for : List Page → Text → Viewer → Option Page
  unfolding choose with_slug slug_of
  resolve_page_for pages path v = choose v.role (with_slug (slug_of path) pages)

  -- Whether a token of `visible_to` lets a role pass
  pub any_token : List Text → Text → Bool
  any_token [] role = false
  any_token (t ∷ ts) role = (not (is_empty t) && is_within (lower t) role) || any_token ts role

  pub visible_nav : Text → List NavItem → List NavItem
  unfolding any_token
  visible_nav role [] = []
  visible_nav role (item ∷ items) =
      let rest = visible_nav role items in
      if one_of (codes "all") item.visible_to || any_token item.visible_to (lower role)
      then item ∷ rest
      else rest

  -- `_build_app_chrome`
  pub build_app_chrome : Text → List NavItem → List Text → Viewer → AppChrome
  unfolding visible_nav
  build_app_chrome app_name nav roles v =
      let is_anonymous : Bool = elim v.the_user [ some u ↦ u.is_anonymous | none ↦ true ] in
      record {
        app_name = app_name;
        nav_items = visible_nav v.role nav;
        available_roles = roles;
        current_role = v.role;
        current_user_name = elim v.the_user [
          | some u ↦ (if is_anonymous then [] else u.display_name)
          | none ↦ []
        ];
        is_anonymous = is_anonymous;
      }
