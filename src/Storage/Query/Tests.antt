-- ===== src/Storage/Query/Tests.antt =====
-- `query` against a small driver: two rows, read in two pages.
use termin_server.Base.{
  ℕ, Bool, false, List, [], ◌∷◌, none, take, Text, Value, int, pos, codes, ltb, ◌==◌, ◌≡◌, refl, ap,
  arith, lookup, if◌then◌else◌,
}
use termin_server.Storage.Identifiers.{Checked, ok, raise, bad_cursor, q}
use termin_server.Storage.Predicates.{Fragment}
use termin_server.Storage.Keyset.{build_keyset_filter}
use termin_server.Storage.Keyset.Meaning.{keyset_condition, strict_comparison}
use termin_server.Storage.Query.{Row, Driver, select_statement, sort_keys, check_order, optional}
use termin_server.Storage.Query.Paging.{Answers, fetch_all, fetch_all_complete}

abbrev row : ℕ → Row
row n = (codes "id", int (pos n)) ∷ []

abbrev table : List Row
table = row 1 ∷ row 2 ∷ []

abbrev small_execute : List Value → List Row
small_execute (int (pos limit) ∷ []) = take limit table
small_execute (int (pos n) ∷ int (pos limit) ∷ []) = take limit (if n == 1 then row 2 ∷ [] else [])
small_execute params = []

abbrev small_encode : List Value → Text
small_encode (int (pos n) ∷ []) = n ∷ []
small_encode vs = []

abbrev small_decode : Text → Checked (List Value)
small_decode (n ∷ []) = ok (int (pos n) ∷ [])
small_decode s = raise bad_cursor

abbrev driver : Driver
driver = record {
  execute = λ sql params. small_execute params;
  encode_cursor = small_encode;
  decode_cursor = small_decode;
}

abbrev less : Value → Value → Bool
less (int (pos m)) (int (pos n)) = ltb m n
less v w = false

abbrev same : Value → Value → Bool
same (int (pos m)) (int (pos n)) = m == n
same v w = false

abbrev result_or : Fragment → Checked Fragment → Fragment
result_or f (ok g) = g
result_or f (raise e) = f

answers : Answers driver (codes "users") none 1 [] less same none table
unfolding lookup q build_keyset_filter optional check_order select_statement sort_keys
    keyset_condition strict_comparison
answers = record {
  compiled = refl;
  checked = refl;
  ordered = (refl, ((refl, refl), tt), (refl, tt, tt));
  no_nulls = ((refl, tt), ((refl, tt), tt));
  first = λ n. refl;
  next = (
    λ f n h. rw (← ap (λ (c : Checked Fragment). (result_or f c).1) h) refl,
    (λ f n h. rw (← ap (λ (c : Checked Fragment). (result_or f c).1) h) refl, tt),
  );
  decoded = ((refl, refl), ((refl, refl), tt));
}

fetch_all_complete_example : fetch_all driver (codes "users") none 1 [] 2 none ≡ ok table
fetch_all_complete_example =
    fetch_all_complete driver (codes "users") none 1 [] 2 (omega arith) answers (omega arith)
