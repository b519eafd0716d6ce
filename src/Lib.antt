-- ===== src/Lib.antt =====
-- termin-server (termin_server/): the reference host that serves compiled Termin applications.
--
-- A request reaches the server with cookies. termin_server/identity.py turns them into a principal, a
-- role and a set of scopes, with the help of an identity provider (the built-in one is
-- termin_server/providers/builtins/identity_stub.py), adds the preferences that
-- termin_server/preferences.py keeps in the application's database, and gives handlers a user whose
-- scopes they check. Handlers read records through a storage provider: the built-in one,
-- termin_server/providers/builtins/storage_sqlite.py, compiles predicates, sort orders and cursors to
-- SQL, with the identifier checks and the quoting of termin_server/storage.py. Compute units that call
-- a model stream its tool call back: termin_server/ai_provider.py reads the growing JSON text and
-- emits the text of the string fields as it arrives. A conversation field of a record grows by appends,
-- which arrive by HTTP (termin_server/routes.py) or on a WebSocket
-- (termin_server/websocket_manager.py). An agent answers a conversation by turns in which its model calls
-- tools, which termin_server/compute_runner.py checks and carries out. A page is sent to the browser as a
-- payload that termin_server/bootstrap.py puts together.
--
-- Base and its children hold what the parts share: texts as lists of code points (`Text`), Python's
-- dict as an association list (`Dict`), the values of SQL columns (`Value`) and of JSON (`Json`),
-- counting.
--
-- Storage, for storage.py and storage_sqlite.py:
--   Storage.Identifiers   `_SAFE_IDENTIFIER`, `validate_identifier`, `_assert_safe`, `_q`; a ValueError
--                         is `raise` of the type `Checked`.
--   Storage.Predicates    `_compile_predicate`, with the predicates of the storage contract.
--   Storage.Keyset        `_build_keyset_filter`.
--   Storage.Query         the provider's `query`. The driver (`execute` and `fetchall`) and the cursor's
--                         encoding are the record `Driver`. Storage.Query.Paging assumes of the driver
--                         that it answers the statement as SQL does: the rows that the keyset filter
--                         keeps, in the order of ORDER BY, cut at the number that is bound
--                         for LIMIT.
--   Storage.Engine        the statements that the provider executes on records, as a record of
--                         operations, with what the provider relies on as `Laws`.
--   Storage.Records       create, read, update, update_if and delete over an engine. The state after a
--                         call that raises is not described.
--   Storage.Creation      `create_record`, over the same engine.
--   Storage.Listing       `list_records`.
--   Storage.Schema        `_field_to_sql`, and what an action on the database is: what it asks is logged,
--                         and the driver's answers are a function, `Driver`.
--   Storage.Tables        `init_db`.
--   Storage.Migration     the changes of `migrate`, whose run with its checks is Storage.Migration.Migrate.
-- Streaming, for `StreamingJsonFieldExtractor` of ai_provider.py: the scanner's state as a record, one
--   round of its loop as `scan_char`, the loop by recursion on the rest of the buffer, so that no fuel
--   is needed.
-- Identity, for identity.py: `_resolve_role_key` and `_resolve_principal_and_scopes`;
--   Identity.Users for `_hydrate_principal_preferences`, `_build_user_dict`, `get_current_user` and
--   `require_scope`; Identity.Stub for identity_stub.py. `str.lower`, `str.strip`, the digest, the
--   constructors of principals and the opening of the database file are parameters.
-- Preferences, for preferences.py: the table is the list of its rows.
-- Append, for `_do_append` and `append_route` of routes.py, `_handle_append_frame` of
--   websocket_manager.py, `get_record` and `update_record` of storage.py: an append is a first half,
--   `prepare`, that reads and checks, and a second half, `commit`, that writes and announces, since
--   other requests run between the two. The id of an entry and the time are given from outside. The
--   resource and the field of a frame are texts; one that is a list or a dict is left out.
--
-- Agent, for the loops of ai_provider.py in which a model calls tools: Agent itself is
--   `_anthropic_agent_loop_with_conversation` with the callbacks of its caller as a record, and the
--   state that they work on as a type of their own; Agent.Tools is the caller's side, `_execute_tool`,
--   `_on_writeback` and `_should_halt` of termin_server/compute_runner.py, where the operations that a
--   tool carries out are logged; Agent.Outputs is `_anthropic_agent_loop` and
--   `_anthropic_agent_loop_streaming`. The model is a function from the messages to a reply. The number
--   of turns is the code's own bound.
-- Pages, for termin_server/bootstrap.py: Pages itself resolves a path and walks the component tree,
--   which is typed data, since the compiler writes it; Pages.Actions attaches the visible actions,
--   Pages.Payload builds the payload and serves it, Pages.Shell is the HTML around it.
-- ConfigHash, for termin_server/providers/builtins/_provider_hash.py.
-- Transitions, for termin_server/transitions.py: the endpoint that moves a record from one state to
--   another, and what it tells its client. The transition itself is a parameter.
-- Rules, for the event handlers of termin_server/app.py: what rules see (Rules.Contexts), what their
--   actions do (Rules.Actions), the handler of an event of a record (Rules.Handlers), and those of an
--   entered state and of a compute (Rules.Entered). CEL, the storage, the append and the transition are
--   the record `Host`; what a handler does is logged. A handler of an entered state that makes a
--   transition calls itself, to a depth that stands for Python's stack: where none is left the call
--   does nothing, since it raises inside a `try`.
--
-- A module's theorems stand in its children, named for what they show, and its witnesses and tests in
-- its child Tests. No definition of the code runs on fuel: its loops are recursion on lists, on the
-- number of turns, or on the depth of Python's stack where a handler calls itself.
-- Storage.Query.Paging, which follows cursors from page to page, counts rounds, one for each row.
-- Append.Encoding, an instance of the JSON parameters for the witnesses, reads a text with as many
-- steps as the text says at its start.
--
-- Not modelled: the storage provider's schema metadata and backups, the CRUD routes, the
-- check of a transition against its machine, `receive_json` and the dispatcher of WebSocket frames,
-- the rest of the compute runner and of the calls of model services (the OpenAI loops among them), the
-- sending to a channel and the run of a compute that a rule starts, the pages that the server renders, the
-- registration of providers, and the browser scripts. The timestamps of preferences are left out, the
-- text of a tool_call entry, and errors of the database driver in `query`.
pub mod Base
pub mod Storage
pub mod Streaming
pub mod Identity
pub mod Preferences
pub mod Append
pub mod Agent
pub mod Pages
pub mod ConfigHash
pub mod Transitions
pub mod Rules
