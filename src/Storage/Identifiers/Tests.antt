-- ===== src/Storage/Identifiers/Tests.antt =====
-- Runs of the identifier checks, and their theorems at concrete names.
use termin_server.Base.{true, false, [], ◌∷◌, ◌++◌, some, codes, ◌≡◌, refl}
use termin_server.Storage.Identifiers.{validate_identifier, newline, q}
use termin_server.Storage.Identifiers.Quoting.{read_identifier, read_identifier-q}

validate_tests :
    (validate_identifier (codes "user_id2") ≡ true)
    × (validate_identifier (codes "_x") ≡ false)
    × (validate_identifier (codes "a\"b") ≡ false)
    × (validate_identifier (codes "users" ++ newline ∷ []) ≡ true)
unfolding validate_identifier
validate_tests = (refl, refl, refl, refl)

q_test : q (codes "a\"b") ≡ codes "\"a\"\"b\""
unfolding q
q_test = refl

read_identifier-q_example :
    read_identifier (q (codes "a\"b") ++ codes " = ?") ≡ some (codes "a\"b", codes " = ?")
read_identifier-q_example = read_identifier-q (codes "a\"b") (codes " = ?") refl
