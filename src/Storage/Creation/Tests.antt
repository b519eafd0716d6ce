-- ===== src/Storage/Creation/Tests.antt =====
-- A task that is created, and the theorem on the values of new records.
use termin_server.Base.{some, [], ◌∷◌, codes, Value, str, lookup, Dict, refl}
use termin_server.Storage.Creation.{create_values}
use termin_server.Storage.Creation.States.{Becomes, once}
use termin_server.Storage.Creation.Columns.{lookup-create_values}

abbrev task : Dict Value
task = (codes "title", str (codes "Call")) ∷ (codes "status", str []) ∷ []

lookup-create_values_example :
    Becomes
      (some (codes "open"))
      (lookup (codes "status") task)
      (lookup (codes "status") (create_values ((codes "status", codes "open") ∷ []) task))
unfolding lookup
lookup-create_values_example =
    lookup-create_values ((codes "status", codes "open") ∷ []) task (codes "status")
      (some (codes "open")) (once [] [] (codes "open") refl tt tt) (refl, (refl, tt))
