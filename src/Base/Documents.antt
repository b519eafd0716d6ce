-- ===== src/Base/Documents.antt =====
-- The values of Python's `json` module. A number stands as its text.
use mathlib.Core.Bool.{Bool, true, false, not}
use mathlib.Core.List.{[], ◌∷◌}
use mathlib.Core.Option.{Option, none, some}
use termin_server.Base.Tests.{if◌then◌else◌}
use termin_server.Base.Texts.{Text, text_eq, one_of, codes, is_empty}

-- A list and a dict are data types of their own.
mutual
  pub data Json : Type 0 where
    j_null : Json
    j_bool : Bool → Json
    j_num : Text → Json
    j_str : Text → Json
    j_arr : Jsons → Json
    j_obj : Members → Json

  pub data Jsons : Type 0 where
    nil : Jsons
    cons : Json → Jsons → Jsons

  pub data Members : Type 0 where
    empty : Members
    member : Text → Json → Members → Members

-- xs.append(x)
abbrev pub add_last : Jsons → Json → Jsons
add_last nil x = cons x nil
add_last (cons y ys) x = cons y (add_last ys x)

-- d.get(k)
abbrev pub get : Text → Members → Option Json
get k empty = none
get k (member j v d) = if text_eq j k then some v else get k d

-- d[k] = v
abbrev pub put : Text → Json → Members → Members
put k v empty = member k v empty
put k v (member j w d) = if text_eq j k then member j v d else member j w (put k v d)

-- {k: v for k, v in d.items() if k != x}
abbrev pub without : Text → Members → Members
without x empty = empty
without x (member k v d) = let rest = without x d in if text_eq k x then rest else member k v rest

abbrev pub or_json : Option Json → Json → Json
or_json none d = d
or_json (some j) d = j

-- Python's truth of a value
abbrev pub is_true_json : Json → Bool
is_true_json j_null = false
is_true_json (j_bool b) = b
is_true_json (j_num t) = not (one_of t (codes "0" ∷ codes "0.0" ∷ codes "-0.0" ∷ []))
is_true_json (j_str s) = not (is_empty s)
is_true_json (j_arr nil) = false
is_true_json (j_arr (cons x xs)) = true
is_true_json (j_obj empty) = false
is_true_json (j_obj (member k v d)) = true
