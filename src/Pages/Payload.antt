-- ===== src/Pages/Payload.antt =====
-- `build_bootstrap_payload` of termin_server/bootstrap.py and the two endpoints that serve it. The
-- storage, the redaction of records and the URLs of the provider's bundles are parameters.
pub mod Bound
mod Tests
use mathlib.Core.Option as Option
use termin_server.Base.{
  ℕ, Bool, true, false, not, List, [], ◌∷◌, ◌++◌, Option, none, some, Text, codes, text_eq, one_of,
  is_empty, ltb, ◌==◌, ◌||◌, ◌&&◌, if◌then◌else◌, map, Dict, Members, insert,
}
use termin_server.Pages.{
  Page, Viewer, NavItem, Needs, Nodes, node, PrincipalContext, AppChrome, resolve_page_for,
  walk_all, principal_context_for, build_app_chrome, add,
}
use termin_server.Pages.Actions.{Machine, BoundData, attach_all}
use termin_server.Pages.Shell.{build_shell_html}

-- `sorted` on texts, by their code points
pub precedes : Text → Text → Bool
precedes [] t = true
precedes (c ∷ s) [] = false
precedes (c ∷ s) (d ∷ t) = ltb c d || (c == d && precedes s t)

pub place : Text → List Text → List Text
unfolding precedes
place s [] = s ∷ []
place s (t ∷ ts) = let rest = place s ts in if precedes s t then s ∷ t ∷ ts else t ∷ rest

pub sorted : List Text → List Text
unfolding place
sorted [] = []
sorted (s ∷ ss) = place s (sorted ss)

-- `a | b` on sets
pub union : List Text → List Text → List Text
union xs [] = xs
union xs (y ∷ ys) = union (add y xs) ys

-- A payload
pub record Payload : Type 0 where
  pub component_tree_ir : Page
  pub bound_data : BoundData
  pub principal_context : PrincipalContext
  pub subscriptions_to_open : List Text
  pub app_chrome : AppChrome

pub record Context : Type 0 where
  pub name : Text
  pub pages : List Page
  pub nav_items : List NavItem
  pub roles : List Text
  pub sm_lookup : Text → List Machine
  -- The records of a source, at most 1000; none if the storage raises.
  pub records : Text → Option (List Members)
  -- `redact_records`, with the schema of the source
  pub redact : Text → List Text → List Members → List Members
  -- The URLs of `collect_csr_bundles`
  pub bundle_urls : List Text
  pub lower : Text → Text
  -- `repr` of a path, and `json.dumps` of a payload
  pub repr : Text → Text
  pub dumps : Payload → Text

-- What comes of a payload: there is no page for the path, or the storage or the actions raise.
pub data Built : Type 0 where
  built : Payload → Built
  no_page : Built
  failed : Built

pub data Response : Type 0 where
  json_response : Text → Response
  html_response : Text → Response
  http_error : ℕ → (detail : Text) → Response
  server_error : Response

module _ (ctx : Context) where
  -- The rows of each source
  pub bind_sources : List Text → List Text → BoundData → Option BoundData
  unfolding insert Option.bind
  bind_sources scopes [] bound = some bound
  bind_sources scopes (src ∷ srcs) bound =
      Option.bind (ctx.records src)
        (λ rows. bind_sources scopes srcs (insert src (ctx.redact src scopes rows) bound))

  abbrev pub no_needs : Needs
  no_needs = record { sources = []; ref_lists = [] }

  abbrev pub channel_of : Text → Text
  channel_of src = codes "content." ++ src

  pub payload_of : Page → Viewer → Needs → BoundData → Payload
  unfolding sorted
  payload_of page v n bound = record {
    component_tree_ir = page;
    bound_data = bound;
    principal_context = principal_context_for v;
    subscriptions_to_open = sorted (map channel_of n.sources);
    app_chrome = build_app_chrome ctx.lower ctx.name ctx.nav_items ctx.roles v;
  }

  abbrev pub built_of : Page → Viewer → Needs → Option BoundData → Built
  built_of page v n none = failed
  built_of page v n (some shown) = built (payload_of page v n shown)

  pub bind_page : Page → Viewer → Needs → Built
  unfolding bind_sources payload_of union Option.bind
  bind_page page v n = built_of page v n (
      Option.bind (bind_sources v.scopes (union n.sources n.ref_lists) [])
        (λ bound. attach_all v.scopes ctx.sm_lookup page.children bound))

  pub build_bootstrap_payload : Text → Viewer → Built
  unfolding bind_page
  build_bootstrap_payload path v = elim (resolve_page_for ctx.lower ctx.pages path v) [
    | none ↦ no_page
    | some page ↦ bind_page page v (walk_all page.children no_needs)
  ]

  abbrev pub no_path : Response
  no_path = http_error 422 (codes "Required query parameter `path` is missing")

  abbrev pub not_found : Text → Response
  not_found path = http_error 404 (codes "No page resolves for path " ++ ctx.repr path)

  -- `GET /_termin/page-data`
  pub page_data : Text → Viewer → Response
  unfolding build_bootstrap_payload
  page_data path v =
      if is_empty path then no_path else elim (build_bootstrap_payload path v) as (λ b. Response) [
        | built p ↦ json_response (ctx.dumps p)
        | no_page ↦ not_found path
        | failed ↦ server_error
      ]

  abbrev pub title_of : Page → Text
  title_of page = if is_empty page.name then ctx.name else page.name

  pub render_shell_response : Text → Viewer → Response
  unfolding build_bootstrap_payload
  render_shell_response path v = elim (build_bootstrap_payload path v) [
    | built p ↦
        html_response
          (build_shell_html (ctx.dumps p) ctx.bundle_urls (title_of p.component_tree_ir) [])
    | no_page ↦ not_found path
    | failed ↦ server_error
  ]

  -- `GET /_termin/shell`
  pub termin_shell : Text → Viewer → Response
  unfolding render_shell_response
  termin_shell path v = if is_empty path then no_path else render_shell_response path v

-- `page_should_use_shell`, on the contracts that are bound and their render modes
pub page_should_use_shell : List (Text × List Text) → Bool
page_should_use_shell [] = false
page_should_use_shell ((contract, modes) ∷ providers) =
    let rest = page_should_use_shell providers in
    if text_eq contract (codes "presentation-base.page")
    then one_of (codes "csr") modes && not (one_of (codes "ssr") modes)
    else rest
