-- ===== src/Append/Tests.antt =====
-- A backend in memory that obeys the laws, and the theorems on it.
use termin_server.Base.{
  true, false, [], ◌∷◌, ◌&&◌, ◌⊎◌, Option, none, some, Text, codes, text_eq, text_eq_refl, Value,
  str, Json, j_null, j_str, j_obj, nil, cons, empty, member, add_last, Dict, lookup, insert, update,
  if◌then◌else◌, ◌≡◌, refl, subst,
}
use termin_server.Identity.Users.{User, build_user_dict}
use termin_server.Storage.Identifiers.{ok}
use termin_server.Storage.Results.{ok-injective}
use termin_server.Storage.Records.{clean_patch, serialize_all}
use termin_server.Append.{
  Backend, Row, done, Server, Request, do_append, prepare, commit, conclude, announce,
  update_record, read_back, get_record, check_payload, check_members, check_kind, check_body,
  passes, is_owner, new_entry, pass_on, entries_of, as_list,
}
use termin_server.Append.Encoding.{loads, dumps, loads-dumps, is_empty-dumps}
use termin_server.Append.Stored.{Laws, Appended, do_append-Appended}
use termin_server.Append.Races.{commit-commit}
use termin_server.Append.Frames.{
  Target, Targets, Frame, find_target, may_append, route_scopes, all_held, request, route_request,
  frame_outcome, reply_outcome, handle_payload, handle_append_frame, append_route,
}
use termin_server.Append.Frames.Parity.{is_created, no_errors, handle_append_frame-append_route}
use termin_server.Append.Frames.Guarded.{MayWrite, handle_append_frame-MayWrite}

abbrev key_text : Value → Text
key_text (str s) = s
key_text v = []

abbrev Tables : Type 0
Tables = Text → Text → Option Row

abbrev updated : Option Row → Dict Value → Option Row
updated none p = none
updated (some r) p = some (update r p)

abbrev set_row : Text → Value → Dict Value → Tables → Tables
set_row c k p db u j = if text_eq c u && text_eq (key_text k) j then updated (db u j) p else db u j

abbrev memory : Backend Tables
memory = record {
  select = λ c k db. db c (key_text k);
  set = λ c k p db. ok (set_row c k p db);
  loads = loads;
  dumps = dumps;
}

set_row-some :
    (c : Text) (k : Value) (p : Dict Value) (db : Tables) (r : Row)
    → db c (key_text k) ≡ some r
    → set_row c k p db c (key_text k) ≡ some (update r p)
set_row-some c k p db r h = rw (text_eq_refl c) (rw (text_eq_refl (key_text k)) (rw h refl))

memory-Laws : Laws memory
memory-Laws = record {
  sets = λ {c} {k} {f} {t} {db} {db'} {r} i h s.
      subst (λ (d : Tables). d c (key_text k) ≡ some (update r ((f, str t) ∷ []))) (ok-injective h)
        (set_row-some c k ((f, str t) ∷ []) db r s);
  round_trip = loads-dumps;
  not_empty = is_empty-dumps;
}

appends : Unit {0}
unfolding build_user_dict do_append prepare commit conclude announce update_record read_back
    get_record check_payload check_members check_kind check_body passes is_owner new_entry pass_on
    entries_of as_list clean_patch serialize_all lookup insert update loads dumps find_target
    may_append route_scopes all_held request route_request frame_outcome reply_outcome
    handle_payload handle_append_frame append_route
appends = tt

abbrev ann : User
ann =
    build_user_dict
      (record {
        id = codes "ann";
        display_name = codes "Ann";
        is_anonymous = false;
        is_system = false;
        claims = [];
        preferences = [];
      })
      (codes "Member") (codes "chat.write" ∷ [])

abbrev chat : Row
chat = (codes "owner", str (codes "ann")) ∷ (codes "messages", str []) ∷ []

-- One chat, with the key 7.
abbrev tables : Tables
tables c k = if text_eq (codes "chats") c && text_eq (codes "7") k then some chat else none

abbrev start : Server Tables
start = record { db = tables; has_bus = true; has_handlers = false; effects = [] }

abbrev target : Target
target = record {
  scope = codes "chat.write";
  row_filter = some (record { is_ownership = true; field = some (codes "owner") });
}

abbrev targets : Targets
targets = (codes "chats", codes "messages", target) ∷ []

abbrev says : Text → Json
says body = j_obj (
    member (codes "kind") (j_str (codes "user"))
      (member (codes "body") (j_str body) (member (codes "purpose") (j_str (codes "test")) empty)))

abbrev frame : Frame
frame = record {
  ref = j_null;
  resource = codes "chats";
  id = str (codes "7");
  field = codes "messages";
  payload = says (codes "hello");
}

abbrev asked : Request
asked = record {
  content = codes "chats";
  key = str (codes "7");
  field = codes "messages";
  user = some ann;
  row_filter = target.row_filter;
  entry_id = codes "e1";
  now = codes "t1";
}

abbrev entry_of : Text → Text → Text → Json
entry_of id now body = j_obj (
    member (codes "id") (j_str id) (
      member (codes "kind") (j_str (codes "user")) (
        member (codes "body") (j_str body) (
          member (codes "created_at") (j_str now) (
            member (codes "appended_by_principal_id") (j_str (codes "ann"))
              (member (codes "purpose") (j_str (codes "test")) empty))))))

abbrev hello : Json
hello = entry_of (codes "e1") (codes "t1") (codes "hello")

abbrev after_hello : Server Tables
after_hello = (do_append memory asked (says (codes "hello")) start).1

do_append_test : do_append memory asked (says (codes "hello")) start ≡ (done hello, after_hello)
unfolding appends
do_append_test = refl

do_append-Appended_example : Appended memory memory-Laws asked hello start after_hello
do_append-Appended_example =
    do_append-Appended memory memory-Laws asked (says (codes "hello")) hello start after_hello refl
      do_append_test

abbrev asked_again : Request
asked_again = record asked {
  user = some ann;
  row_filter = none;
  entry_id = codes "e2";
  now = codes "t2";
}

abbrev bye : Json
bye = entry_of (codes "e2") (codes "t2") (codes "bye")

abbrev after_first : Server Tables
after_first = (commit memory asked (hello, cons hello nil) start).1

abbrev raced : Server Tables
raced = (commit memory asked_again (bye, cons bye nil) after_first).1

commit-commit_example :
    (last : Row) × (raced.db (codes "chats") (codes "7") ≡ some last)
    × (entries_of memory (lookup (codes "messages") last) ≡ add_last nil bye)
unfolding appends
commit-commit_example =
    commit-commit memory memory-Laws asked (some ann) none (codes "e2") (codes "t2")
      (says (codes "hello")) (says (codes "bye")) hello bye hello bye (cons hello nil)
      (cons bye nil) start after_first raced chat refl refl refl refl refl refl

handle_append_frame-append_route_example :
    ((handle_append_frame memory (codes "e1") (codes "t1") targets ann frame start).1
      ≡ (append_route memory
          (codes "e1")
          (codes "t1")
          (codes "chats")
          (codes "messages")
          target
          ann
          (str (codes "7"))
          (some (says (codes "hello")))
          start).1)
    × (no_errors (handle_append_frame memory (codes "e1") (codes "t1") targets ann frame start).0
        ≡ is_created
            (append_route memory
              (codes "e1")
              (codes "t1")
              (codes "chats")
              (codes "messages")
              target
              ann
              (str (codes "7"))
              (some (says (codes "hello")))
              start).0)
unfolding appends
handle_append_frame-append_route_example =
    handle_append_frame-append_route memory (codes "e1") (codes "t1") targets target ann frame start
      refl refl refl

handle_append_frame-MayWrite_example :
    ((handle_append_frame memory (codes "e1") (codes "t1") targets ann frame start).1 ≡ start)
    ⊎ MayWrite memory (codes "e1") (codes "t1") targets ann frame start
handle_append_frame-MayWrite_example =
    handle_append_frame-MayWrite memory (codes "e1") (codes "t1") targets ann frame start
